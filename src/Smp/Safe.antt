-- ===== src/Smp/Safe.antt =====
-- Processors in one address space do not disturb each other.
use hyper_mi.Base.{ℕ, ◌≡◌, refl, ap, ◌∙◌, Bool, true, false, Returns, Returns-unique}
use hyper_mi.Gate.Machine.{Machine}
use hyper_mi.Smp.Calls.{Call, snative_write-SameGate, write_again-SameGate}
use hyper_mi.Smp.{
  Point, outside, has_table, has_cr3, masked, switched, flushed_once, inside, written, unmasked,
  flushed_twice, closed, following, Cpu, Smp, seen, moved, statement, Step, pick, enter, Reach,
  start, later,
}
use hyper_mi.Smp.Calm.{IsCalm, popped, update-All, AreCalm, Reach-AreCalm, outside-AreCalm}

abbrev pub knows_table : Point → Bool
knows_table outside = false
knows_table p = true

abbrev pub knows_cr3 : Point → Bool
knows_cr3 outside = false
knows_cr3 has_table = false
knows_cr3 p = true

module _ (pa va : ℕ → ℕ) where
  -- The processor runs on `table`, and the globals are right as far as it has come.
  pub record IsHome (table : ℕ) (p : Point) (m : Machine) : Type 0 where
    pub home : m.cr3 ≡ table
    pub gate : knows_table p ≡ true → m.pgd_addr_cp_gate ≡ va table
    pub old : knows_cr3 p ≡ true → m.oldcr3 ≡ table

  -- What is right of the globals stays so for the others.
  pub record IsKind (table : ℕ) (m n : Machine) : Type 0 where
    pub gate : m.pgd_addr_cp_gate ≡ va table → n.pgd_addr_cp_gate ≡ va table
    pub old : m.oldcr3 ≡ table → n.oldcr3 ≡ table

  module _ (table : ℕ) (linear : pa (va table) ≡ table) where
    abbrev Goes : Point → Machine → Machine → Type 0
    Goes p m n = IsHome table (following p) n × IsKind table m n

    -- A statement that touches neither global nor cr3.
    quiet :
        (p : Point) (m n : Machine)
        → knows_table p ≡ true
        → knows_cr3 p ≡ true
        → n.cr3 ≡ m.cr3
        → n.pgd_addr_cp_gate ≡ m.pgd_addr_cp_gate
        → n.oldcr3 ≡ m.oldcr3
        → IsHome table p m
        → Goes p m n
    quiet p m n t o same g e h = (
      record { home = same ∙ h.home; gate = λ x. g ∙ h.gate t; old = λ x. e ∙ h.old o },
      record { gate = λ x. g ∙ x; old = λ x. e ∙ x },
    )

    statement-Goes :
        (c : Cpu) (a : Call) (p : Point) (m : Machine)
        → IsCalm c p m
        → IsHome table p m
        → Returns (statement pa va a p m) λ _ n. Goes p m n
    unfolding statement
    statement-Goes c a outside m calm h = (
      tt,
      _,
      refl,
      (
        record { home = h.home; gate = λ x. ap va h.home; old = λ x. cc },
        record { gate = λ x. ap va h.home; old = λ x. x },
      ),
    )
    statement-Goes c a has_table m calm h = (
      tt,
      _,
      refl,
      (
        record { home = h.home; gate = λ x. h.gate refl; old = λ x. h.home },
        record { gate = λ x. x; old = λ x. h.home },
      ),
    )
    statement-Goes c a has_cr3 m calm h =
        (tt, _, refl, quiet has_cr3 m _ refl refl refl refl refl h)
    statement-Goes c a masked m calm h = (
      tt,
      _,
      refl,
      (
        record {
          home = ap pa (h.gate refl) ∙ linear;
          gate = λ x. h.gate refl;
          old = λ x. h.old refl;
        },
        record { gate = λ x. x; old = λ x. x },
      ),
    )
    statement-Goes c a switched m calm h =
        (tt, _, refl, quiet switched m _ refl refl refl refl refl h)
    statement-Goes c a flushed_once m calm h =
        (tt, _, refl, quiet flushed_once m _ refl refl refl refl refl h)
    statement-Goes c a inside m calm h =
        let (u, n, run, same) = snative_write-SameGate a m in
        (
          u,
          n,
          run,
          quiet inside m n refl refl (ap (λ g. g.cr3) same) (ap (λ g. g.pgd_addr_cp_gate) same)
              (ap (λ g. g.oldcr3) same) h,
        )
    statement-Goes c a written m calm h =
        (tt, _, popped m _ _ calm.stack, quiet written m _ refl refl refl refl refl h)
    statement-Goes c a unmasked m calm h =
        (tt, _, refl, quiet unmasked m _ refl refl refl refl refl h)
    statement-Goes c a flushed_twice m calm h = (
      tt,
      _,
      refl,
      (
        record { home = h.old refl; gate = λ x. h.gate refl; old = λ x. h.old refl },
        record { gate = λ x. x; old = λ x. x },
      ),
    )
    statement-Goes c a closed m calm h =
        let (u, n, run, same) = write_again-SameGate a m in
        (
          u,
          n,
          run,
          (
            record { home = ap (λ g. g.cr3) same ∙ h.home; gate = λ x. cc; old = λ x. cc },
            record {
              gate = λ x. ap (λ g. g.pgd_addr_cp_gate) same ∙ x;
              old = λ x. ap (λ g. g.oldcr3) same ∙ x;
            },
          ),
        )

    re-IsHome :
        {m n : Machine}
        → IsKind table m n
        → (c : Cpu) → IsHome table c.point (seen m c)
        → IsHome table c.point (seen n c)
    re-IsHome kind c h = record {
      home = h.home;
      gate = λ x. kind.gate (h.gate x);
      old = λ x. kind.old (h.old x);
    }

    abbrev AreHome : Smp → Type 0
    AreHome s = (i : ℕ) → IsHome table (s.cpu i).point (seen s.shared (s.cpu i))

    Step-AreHome :
        (first : ℕ → Cpu) {s t : Smp}
        → Step pa va s t
        → AreCalm pa va first s
        → AreHome s
        → AreHome t
    Step-AreHome first {s} (pick i {m} run) calm home =
        let n = seen s.shared (s.cpu i) in
        let p = (s.cpu i).point in
        let goes =
          Returns-unique _ (statement-Goes (first i) (s.cpu i).call p n (calm i) (home i)) run in
        update-All (λ j c. IsHome table c.point (seen m c)) s.cpu i (moved m (s.cpu i)) goes.0
          (λ j. re-IsHome goes.1 (s.cpu j) (home j))
    Step-AreHome first {s} (enter i a out) calm home =
        update-All (λ j c. IsHome table c.point (seen s.shared c)) s.cpu i
          (record (s.cpu i) { call = a })
          (re-IsHome {m = s.shared} {n = s.shared} (record { gate = λ x. x; old = λ x. x })
            (s.cpu i) (home i))
          home

    Reach-AreHome :
        (first : ℕ → Cpu) {s t : Smp}
        → Reach pa va s t
        → AreCalm pa va first s
        → AreHome s
        → AreHome t
    Reach-AreHome first start calm h = h
    Reach-AreHome first (later r step) calm h =
        Step-AreHome first step (Reach-AreCalm pa va first r calm) (Reach-AreHome first r calm h)

    -- When every processor starts outside the handlers on one table, and __pa undoes __va there,
    -- then, whatever they call and however their statements interleave, each stays on that table,
    -- makes its write inside the gate with interrupts off, and has its interrupt flag and stack
    -- back whenever it is outside.
    pub Reach-restores :
        {s t : Smp}
        → ((i : ℕ) → (s.cpu i).point ≡ outside)
        → ((i : ℕ) → (s.cpu i).cr3 ≡ table)
        → Reach pa va s t
        → (i : ℕ)
        → (t.cpu i).cr3 ≡ table
          × ((t.cpu i).point ≡ inside → (t.cpu i).interrupts ≡ false)
          × ((t.cpu i).point ≡ outside
              → (t.cpu i).interrupts ≡ (s.cpu i).interrupts × (t.cpu i).stack ≡ (s.cpu i).stack)
    Reach-restores {s} {t} out same r i =
        let calm = outside-AreCalm pa va s out in
        let home : AreHome s =
          λ j. rw (out j) (record { home = same j; gate = λ x. cc; old = λ x. cc }) in
        let c = Reach-AreCalm pa va s.cpu r calm i in
        (
          (Reach-AreHome s.cpu r calm home i).home,
          λ e. c.flag ∙ rw e refl,
          λ e. (c.flag ∙ rw e refl, c.stack ∙ rw e refl),
        )

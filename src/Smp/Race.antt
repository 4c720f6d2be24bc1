-- ===== src/Smp/Race.antt =====
-- Processors in different address spaces disturb each other through the shared `oldcr3`.
use hyper_mi.Base.{
  ℕ, ◌≡◌, ◌≢◌, refl, sym, ◌∙◌, ap, subst, arith, Bool, true, false, ◌==◌, ==_refl, update, ok,
  Returns,
}
use hyper_mi.Gate.Machine.{Machine}
use hyper_mi.Smp.Calls.{Call, snative_write-SameGate, write_again-SameGate}
use hyper_mi.Smp.{
  Point, outside, has_table, has_cr3, masked, switched, flushed_once, inside, written, unmasked,
  flushed_twice, closed, following, Cpu, Smp, seen, kept, moved, statement, Step, pick, Reach,
  start, later,
}
use hyper_mi.Smp.Calm.{IsCalm, Reach-AreCalm, outside-AreCalm, popped}
use hyper_mi.Smp.Safe.{knows_table}
use hyper_mi.Smp.Finish.{AreCalm-IsThrough, Reach-trans, Own-Reach}

abbrev is_past : Point → Bool
is_past has_table = false
is_past p = true

abbrev is_back : Point → Bool
is_back closed = true
is_back outside = true
is_back p = false

-- `oldcr3` holds `o` and is not written again; cr3 holds `o` once it is written back.
record Follows (o : ℕ) (p : Point) (m : Machine) : Type 0 where
  past : is_past p ≡ true
  old : m.oldcr3 ≡ o
  back : is_back p ≡ true → m.cr3 ≡ o

module _ (pa va : ℕ → ℕ) where
  Follows-kept :
      (o : ℕ) (c : Cpu) (a : Call) (p : Point) (m : Machine)
      → IsCalm c p m
      → knows_table p ≡ true
      → Follows o p m
      → Returns (statement pa va a p m) λ _ n. Follows o (following p) n
  unfolding statement
  Follows-kept o c a outside m calm k h = ground arith
  Follows-kept o c a has_table m calm k h = cc
  Follows-kept o c a has_cr3 m calm k h =
      (tt, _, refl, record { past = refl; old = h.old; back = λ x. cc })
  Follows-kept o c a masked m calm k h =
      (tt, _, refl, record { past = refl; old = h.old; back = λ x. cc })
  Follows-kept o c a switched m calm k h =
      (tt, _, refl, record { past = refl; old = h.old; back = λ x. cc })
  Follows-kept o c a flushed_once m calm k h =
      (tt, _, refl, record { past = refl; old = h.old; back = λ x. cc })
  Follows-kept o c a inside m calm k h =
      let (u, n, run, same) = snative_write-SameGate a m in
      (u, n, run, record { past = refl; old = ap (λ g. g.oldcr3) same ∙ h.old; back = λ x. cc })
  Follows-kept o c a written m calm k h =
      (tt, _, popped m _ _ calm.stack, record { past = refl; old = h.old; back = λ x. cc })
  Follows-kept o c a unmasked m calm k h =
      (tt, _, refl, record { past = refl; old = h.old; back = λ x. cc })
  Follows-kept o c a flushed_twice m calm k h =
      (tt, _, refl, record { past = refl; old = h.old; back = λ x. h.old })
  Follows-kept o c a closed m calm k h =
      let (u, n, run, same) = write_again-SameGate a m in
      (
        u,
        n,
        run,
        record {
          past = refl;
          old = ap (λ g. g.oldcr3) same ∙ h.old;
          back = λ x. ap (λ g. g.cr3) same ∙ h.back refl;
        },
      )

  Step-update :
      (i : ℕ) (s : Smp) (c : Cpu) (m : Machine)
      → s.cpu i ≡ c
      → statement pa va c.call c.point (seen s.shared c) ≡ ok tt m
      → Step pa va s (record { shared = m; cpu = update s.cpu i (moved m c) })
  Step-update i s c m e =
      subst
        (λ d.
          statement pa va d.call d.point (seen s.shared d) ≡ ok tt m
          → Step pa va s (record { shared = m; cpu = update s.cpu i (moved m d) }))
        e (pick i)

  -- Processor `i` has read cr3 into `oldcr3`.
  record HasRead (i : ℕ) (s t : Smp) : Type 0 where
    reach : Reach pa va s t
    point : (t.cpu i).point ≡ has_cr3
    old : t.shared.oldcr3 ≡ (s.cpu i).cr3
    others : (j : ℕ) → j == i ≡ false → t.cpu j ≡ s.cpu j

  reads : (i : ℕ) (s : Smp) → (s.cpu i).point ≡ outside → (t : Smp) × HasRead i s t
  unfolding statement
  reads i s out =
      let c : Cpu = record (s.cpu i) { point = outside } in
      let m : Machine = record (seen s.shared c) { pgd_addr_cp_gate = va c.cr3 } in
      let n : Machine = record m { oldcr3 = c.cr3 } in
      let same : s.cpu i ≡ c = ap (λ p. record (s.cpu i) { point = p }) out in
      let u : Smp = record { shared = m; cpu = update s.cpu i (kept m c.call has_table) } in
      let t : Smp = record { shared = n; cpu = update u.cpu i (kept n c.call has_cr3) } in
      let first : Step pa va s u = Step-update i s c m same refl in
      let second : Step pa va u t =
        Step-update i u (kept m c.call has_table) n (rw (==_refl i) refl) refl in
      (
        t,
        record {
          reach = later (later start first) second;
          point = rw (==_refl i) refl;
          old = refl;
          others = λ j d. rw d refl;
        },
      )

  -- From every state in which the processors are outside the handlers, and for any two of them that
  -- are on different tables, there is an interleaving of their calls after which both are outside
  -- again, on the table that the second began with: the first does not get its own table back.
  pub Reach-overtakes :
      {s : Smp}
      → ((i : ℕ) → (s.cpu i).point ≡ outside)
      → (i k : ℕ) → k == i ≡ false
      → (s.cpu k).cr3 ≢ (s.cpu i).cr3
      → (t : Smp) × Reach pa va s t
        × (t.cpu i).point ≡ outside
        × (t.cpu i).cr3 ≡ (s.cpu k).cr3
        × (t.cpu i).cr3 ≢ (s.cpu i).cr3
        × (t.cpu k).point ≡ outside
        × (t.cpu k).cr3 ≡ (s.cpu k).cr3
  Reach-overtakes {s} out i k d differ =
      let d' : i == k ≡ false = ground arith in
      let o = (s.cpu k).cr3 in
      let (s1, r1) = reads i s (out i) in
      let same1 : s1.cpu k ≡ s.cpu k = r1.others k d in
      let (s2, r2) = reads k s1 (rw same1 (out k)) in
      let old : s2.shared.oldcr3 ≡ o = r2.old ∙ rw same1 refl in
      let p : (s2.cpu i).point ≡ has_cr3 = rw (r2.others i d') r1.point in
      let calm2 =
        Reach-AreCalm pa va s.cpu (Reach-trans pa va r1.reach r2.reach)
          (outside-AreCalm pa va s out) in
      let (s3, r3) =
        AreCalm-IsThrough pa va (Follows o) (Follows-kept o) s.cpu i s2 calm2
          (rw p (record { past = refl; old = old; back = λ x. cc })) in
      let calm3 = Reach-AreCalm pa va s.cpu (Own-Reach pa va r3.own) calm2 in
      let p' : (s3.cpu k).point ≡ has_cr3 = rw (r3.others k d) r2.point in
      let (s4, r4) =
        AreCalm-IsThrough pa va (Follows o) (Follows-kept o) s.cpu k s3 calm3
          (rw p' (record { past = refl; old = r3.sees.old; back = λ x. cc })) in
      let same4 : s4.cpu i ≡ s3.cpu i = r4.others i d' in
      let table : (s4.cpu i).cr3 ≡ o = rw same4 (r3.sees.back refl) in
      (
        s4,
        Reach-trans pa va (Reach-trans pa va r1.reach r2.reach)
            (Reach-trans pa va (Own-Reach pa va r3.own) (Own-Reach pa va r4.own)),
        rw same4 r3.out,
        table,
        λ e. differ (sym table ∙ e),
        r4.out,
        r4.sees.back refl,
      )

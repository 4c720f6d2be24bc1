-- ===== src/Smp/Calm.antt =====
-- Each processor has its interrupt flag and stack as far as it has come, whatever the others do.
use hyper_mi.Base.{
  ℕ, ◌≡◌, refl, ap, ap₂, ◌∙◌, arith, Bool, true, false, List, ◌∷◌, ◌==◌, ==_refl, if◌then◌else◌,
  Bool-cases, inl, inr, update, ok, Returns, Returns-unique,
}
use hyper_mi.Gate.Machine.{Machine, enable_int}
use hyper_mi.Smp.Calls.{Call, SameGate, snative_write-SameGate, write_again-SameGate}
use hyper_mi.Smp.{
  Point, outside, has_table, has_cr3, masked, switched, flushed_once, inside, written, unmasked,
  flushed_twice, closed, following, Cpu, Smp, seen, moved, statement, Step, pick, enter, Reach,
  start, later,
}

-- Between the first `cli` and the `popf`.
abbrev pub is_masked : Point → Bool
is_masked masked = true
is_masked switched = true
is_masked flushed_once = true
is_masked inside = true
is_masked written = true
is_masked p = false

-- The interrupt flag and the stack of a processor that began with those of `c`.
pub record IsCalm (c : Cpu) (p : Point) (m : Machine) : Type 0 where
  pub flag : m.interrupts ≡ (if is_masked p then false else c.interrupts)
  pub stack : m.stack ≡ (if is_masked p then c.interrupts ∷ c.stack else c.stack)

pub re-IsCalm :
    (first : Cpu) (p : Point) (m n : Machine) (c : Cpu)
    → IsCalm first p (seen m c)
    → IsCalm first p (seen n c)
re-IsCalm first p m n c h = record { flag = h.flag; stack = h.stack }

pub popped :
    (m : Machine) (i : Bool) (rest : List Bool)
    → m.stack ≡ i ∷ rest
    → enable_int m ≡ ok tt (record m { interrupts = i; stack = rest })
unfolding enable_int
popped m i rest h = rw h refl

pub update-All :
    {A : Type 0} (P : ℕ → A → Type 0) (f : ℕ → A) (i : ℕ) (c : A)
    → P i c
    → ((j : ℕ) → P j (f j))
    → (j : ℕ) → P j (update f i c j)
update-All P f i c here there j = elim (Bool-cases (j == i)) [
  | inl now ↦ let e : j ≡ i = ground arith in rw (e, ==_refl i) here
  | inr other ↦ rw other (there j)
]

IsCalm-SameGate :
    (c : Cpu) (p q : Point) (m n : Machine)
    → is_masked p ≡ is_masked q
    → SameGate m n
    → IsCalm c p m
    → IsCalm c q n
IsCalm-SameGate c p q m n e same h = record {
  flag = ap (λ g. g.interrupts) same ∙ h.flag ∙ rw e refl;
  stack = ap (λ g. g.stack) same ∙ h.stack ∙ rw e refl;
}

module _ (pa va : ℕ → ℕ) where
  pub statement-IsCalm :
      (c : Cpu) (a : Call) (p : Point) (m : Machine)
      → IsCalm c p m
      → Returns (statement pa va a p m) λ _ n. IsCalm c (following p) n
  unfolding statement
  statement-IsCalm c a outside m h = (tt, _, refl, record { flag = h.flag; stack = h.stack })
  statement-IsCalm c a has_table m h = (tt, _, refl, record { flag = h.flag; stack = h.stack })
  statement-IsCalm c a has_cr3 m h =
      (tt, _, refl, record { flag = refl; stack = ap₂ ◌∷◌ h.flag h.stack })
  statement-IsCalm c a masked m h = (tt, _, refl, record { flag = h.flag; stack = h.stack })
  statement-IsCalm c a switched m h = (tt, _, refl, record { flag = h.flag; stack = h.stack })
  statement-IsCalm c a flushed_once m h = (tt, _, refl, record { flag = refl; stack = h.stack })
  statement-IsCalm c a inside m h =
      let (u, n, run, same) = snative_write-SameGate a m in
      (u, n, run, IsCalm-SameGate c inside written m n refl same h)
  statement-IsCalm c a written m h = rw h.stack (tt, _, refl, record { flag = refl; stack = refl })
  statement-IsCalm c a unmasked m h = (tt, _, refl, record { flag = h.flag; stack = h.stack })
  statement-IsCalm c a flushed_twice m h = (tt, _, refl, record { flag = h.flag; stack = h.stack })
  statement-IsCalm c a closed m h =
      let (u, n, run, same) = write_again-SameGate a m in
      (u, n, run, IsCalm-SameGate c closed outside m n refl same h)

  -- Every processor is calm.
  abbrev pub AreCalm : (ℕ → Cpu) → Smp → Type 0
  AreCalm first s = (i : ℕ) → IsCalm (first i) (s.cpu i).point (seen s.shared (s.cpu i))

  pub Step-AreCalm :
      (first : ℕ → Cpu) {s t : Smp} → Step pa va s t → AreCalm first s → AreCalm first t
  Step-AreCalm first {s} (pick i {m} run) calm =
      let p = (s.cpu i).point in
      update-All (λ j c. IsCalm (first j) c.point (seen m c)) s.cpu i (moved m (s.cpu i))
        (Returns-unique _
          (statement-IsCalm (first i) (s.cpu i).call p (seen s.shared (s.cpu i)) (calm i)) run)
        (λ j. re-IsCalm (first j) _ s.shared m (s.cpu j) (calm j))
  Step-AreCalm first {s} (enter i a out) calm =
      update-All (λ j c. IsCalm (first j) c.point (seen s.shared c)) s.cpu i
        (record (s.cpu i) { call = a }) (re-IsCalm (first i) _ s.shared s.shared (s.cpu i) (calm i))
        calm

  pub Reach-AreCalm :
      (first : ℕ → Cpu) {s t : Smp} → Reach pa va s t → AreCalm first s → AreCalm first t
  Reach-AreCalm first start h = h
  Reach-AreCalm first (later r step) h = Step-AreCalm first step (Reach-AreCalm first r h)

  abbrev pub outside-AreCalm : (s : Smp) → ((i : ℕ) → (s.cpu i).point ≡ outside) → AreCalm s.cpu s
  outside-AreCalm s h i = rw (h i) (record { flag = refl; stack = refl })

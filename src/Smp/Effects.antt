-- ===== src/Smp/Effects.antt =====
-- What one statement of a handler does to memory and to the write protection.
use hyper_mi.Base.{ℕ, ◌≡◌, refl, Bool, true, false, if◌then◌else◌, Returns}
use hyper_mi.Gate.Machine.{Machine}
use hyper_mi.Smp.{
  Point, outside, has_table, has_cr3, masked, switched, flushed_once, inside, written, unmasked,
  flushed_twice, closed, Cpu, statement,
}
use hyper_mi.Smp.Calls.{Call, put, Protects, snative_write-Effect, write_again-Effect}
use hyper_mi.Smp.Calm.{IsCalm, popped}

abbrev pub is_write : Point → Bool
is_write inside = true
is_write closed = true
is_write p = false

-- Memory after the statement of a call at a point.
abbrev pub after : Call → Point → (ℕ → ℕ) → ℕ → ℕ
after c p f = if is_write p then put c f else f

module _ (pa va : ℕ → ℕ) where
  pub record Does (f : ℕ → ℕ) (m n : Machine) : Type 0 where
    pub memory : n.memory ≡ f
    pub protects : Protects m.cr0 → Protects n.cr0

  pub statement-Does :
      (c : Cpu) (a : Call) (p : Point) (m : Machine)
      → IsCalm c p m
      → Returns (statement pa va a p m) λ _. Does (after a p m.memory) m
  unfolding statement
  statement-Does c a outside m calm = (tt, _, refl, record { memory = refl; protects = λ h. h })
  statement-Does c a has_table m calm = (tt, _, refl, record { memory = refl; protects = λ h. h })
  statement-Does c a has_cr3 m calm = (tt, _, refl, record { memory = refl; protects = λ h. h })
  statement-Does c a masked m calm = (tt, _, refl, record { memory = refl; protects = λ h. h })
  statement-Does c a switched m calm = (tt, _, refl, record { memory = refl; protects = λ h. h })
  statement-Does c a flushed_once m calm =
      (tt, _, refl, record { memory = refl; protects = λ h. h })
  statement-Does c a inside m calm =
      let (u, n, run, h) = snative_write-Effect a m in
      (u, n, run, record { memory = h.memory; protects = h.protects })
  statement-Does c a written m calm =
      (tt, _, popped m _ _ calm.stack, record { memory = refl; protects = λ h. h })
  statement-Does c a unmasked m calm = (tt, _, refl, record { memory = refl; protects = λ h. h })
  statement-Does c a flushed_twice m calm =
      (tt, _, refl, record { memory = refl; protects = λ h. h })
  statement-Does c a closed m calm =
      let (u, n, run, h) = write_again-Effect a m in
      (u, n, run, record { memory = h.memory; protects = h.protects })

-- ===== src/Smp/Calls.antt =====
-- The handlers of src/SecureVM/gate_function.h that write one thing through the gate, and what
-- each runs inside it and after it.
use hyper_mi.Base.Mask.{or_bit}
use hyper_mi.Base.{
  ◌/◌, ◌%◌, arith, update, ℕ, ◌^◌, ◌≡◌, refl, bit_or, not, ◌==◌, List, Bool, Bool-cases, inl, inr,
  Cmd, pure, Returns,
}
use hyper_mi.Gate.Machine.{Machine}
use hyper_mi.Gate.Native.{
  snative_set_pte, snative_set_pmd, snative_write_cr0, snative_write_cr4, snative_write_cr8,
}

pub data Call : Type 0 where
  set_pte : (ptep pte : ℕ) → Call
  set_pmd : (pmdp pmd : ℕ) → Call
  write_cr0 : (val : ℕ) → Call
  write_cr4 : (val : ℕ) → Call
  write_cr8 : (val : ℕ) → Call

unfoldable pub snative_write : Call → Cmd Machine (Unit {0})
unfolding snative_set_pte snative_set_pmd snative_write_cr0 snative_write_cr4 snative_write_cr8
snative_write (set_pte ptep pte) = snative_set_pte ptep pte
snative_write (set_pmd pmdp pmd) = snative_set_pmd pmdp pmd
snative_write (write_cr0 val) = snative_write_cr0 val
snative_write (write_cr4 val) = snative_write_cr4 val
snative_write (write_cr8 val) = snative_write_cr8 val

-- The handlers of entries write once more outside the gate.
unfoldable pub write_again : Call → Cmd Machine (Unit {0})
unfolding snative_set_pte snative_set_pmd
write_again (set_pte ptep pte) = snative_set_pte ptep pte
write_again (set_pmd pmdp pmd) = snative_set_pmd pmdp pmd
write_again (write_cr0 val) = pure tt
write_again (write_cr4 val) = pure tt
write_again (write_cr8 val) = pure tt

-- What the gate works with.
pub record GateState : Type 0 where
  pub cr3 : ℕ
  pub interrupts : Bool
  pub stack : List Bool
  pub pgd_addr_cp_gate : ℕ
  pub oldcr3 : ℕ

abbrev pub gate_state : Machine → GateState
gate_state m = record {
  cr3 = m.cr3;
  interrupts = m.interrupts;
  stack = m.stack;
  pgd_addr_cp_gate = m.pgd_addr_cp_gate;
  oldcr3 = m.oldcr3;
}

abbrev pub SameGate : Machine → Machine → Type 0
SameGate m n = gate_state n ≡ gate_state m

-- Memory after the write of a call.
abbrev pub put : Call → (ℕ → ℕ) → ℕ → ℕ
put (set_pte ptep pte) f = update f ptep pte
put (set_pmd pmdp pmd) f = update f pmdp pmd
put (write_cr0 val) f = f
put (write_cr4 val) f = f
put (write_cr8 val) f = f

-- Bit 16 of cr0, the write protection, is set.
abbrev pub Protects : ℕ → Type 0
Protects cr0 = cr0 / 2 ^ 16 % 2 ≡ 1

-- What a write does: it leaves the gate alone, stores what was asked for, and clears no write
-- protection.
pub record Effect (f : ℕ → ℕ) (m n : Machine) : Type 0 where
  pub gate : SameGate m n
  pub memory : n.memory ≡ f
  pub protects : Protects m.cr0 → Protects n.cr0

pub snative_write-Effect :
    (c : Call) (m : Machine) → Returns (snative_write c m) λ _. Effect (put c m.memory) m
unfolding snative_write snative_write_cr0 snative_write_cr4 snative_write_cr8 snative_set_pte
    snative_set_pmd
snative_write-Effect (set_pte ptep pte) m =
    (tt, _, refl, record { gate = refl; memory = refl; protects = λ h. h })
snative_write-Effect (set_pmd pmdp pmd) m =
    (tt, _, refl, record { gate = refl; memory = refl; protects = λ h. h })
snative_write-Effect (write_cr0 val) m =
    let new : Protects (bit_or val (2 ^ 16)) = omega (arith, or_bit 16 val) in
    elim (Bool-cases (not (not (bit_or val (2 ^ 16) == m.cr0)))) [
      | inl keep ↦ rw keep (tt, _, refl, record { gate = refl; memory = refl; protects = λ h. h })
      | inr write ↦
          rw write (tt, _, refl, record { gate = refl; memory = refl; protects = λ h. new })
    ]
snative_write-Effect (write_cr4 val) m = elim (Bool-cases (not (not (val == m.cr4)))) [
  | inl keep ↦ rw keep (tt, _, refl, record { gate = refl; memory = refl; protects = λ h. h })
  | inr write ↦ rw write (tt, _, refl, record { gate = refl; memory = refl; protects = λ h. h })
]
snative_write-Effect (write_cr8 val) m = elim (Bool-cases (not (not (val == m.cr8)))) [
  | inl keep ↦ rw keep (tt, _, refl, record { gate = refl; memory = refl; protects = λ h. h })
  | inr write ↦ rw write (tt, _, refl, record { gate = refl; memory = refl; protects = λ h. h })
]

pub write_again-Effect :
    (c : Call) (m : Machine) → Returns (write_again c m) λ _. Effect (put c m.memory) m
unfolding write_again snative_set_pte snative_set_pmd
write_again-Effect (set_pte ptep pte) m =
    (tt, _, refl, record { gate = refl; memory = refl; protects = λ h. h })
write_again-Effect (set_pmd pmdp pmd) m =
    (tt, _, refl, record { gate = refl; memory = refl; protects = λ h. h })
write_again-Effect (write_cr0 val) m =
    (tt, _, refl, record { gate = refl; memory = refl; protects = λ h. h })
write_again-Effect (write_cr4 val) m =
    (tt, _, refl, record { gate = refl; memory = refl; protects = λ h. h })
write_again-Effect (write_cr8 val) m =
    (tt, _, refl, record { gate = refl; memory = refl; protects = λ h. h })

pub snative_write-SameGate :
    (c : Call) (m : Machine) → Returns (snative_write c m) λ _ n. SameGate m n
snative_write-SameGate c m = let (u, n, run, h) = snative_write-Effect c m in (u, n, run, h.gate)

pub write_again-SameGate : (c : Call) (m : Machine) → Returns (write_again c m) λ _ n. SameGate m n
write_again-SameGate c m = let (u, n, run, h) = write_again-Effect c m in (u, n, run, h.gate)

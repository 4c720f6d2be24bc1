-- ===== src/Gate/Writes.antt =====
-- What the gated writes of control registers and page-table entries leave behind.
use hyper_mi.Base.{
  ℕ, ◌^◌, ◌≡◌, refl, sym, ◌/◌, ◌%◌, arith, not, ◌||◌, bit_or, ◌==◌, if◌then◌else◌, Bool-cases, inl,
  inr, Returns, Returns-and_then,
}
use hyper_mi.Base.Mask.{or_bit}
use hyper_mi.Gate.Machine.{Machine}
use hyper_mi.Gate.Switch.{inside, gate-Returns}
use hyper_mi.Gate.Native.{snative_write_cr3}
use hyper_mi.Gate.Handlers.{
  new_native_set_pte, new_native_set_pmd, new_native_write_cr0, new_native_write_cr3,
  new_native_write_cr4, new_native_write_cr8,
}

-- The address space, the interrupt flag and the stack are those of before.
pub record Restored (m u : Machine) : Type 0 where
  pub cr3 : u.cr3 ≡ m.cr3
  pub interrupts : u.interrupts ≡ m.interrupts
  pub stack : u.stack ≡ m.stack

module _ (pa va : ℕ → ℕ) (m : Machine) where
  -- A write of a page-table entry through the gate stores the entry, changes no other entry, and
  -- restores cr3, the interrupt flag and the stack.
  new_native_set_pte_lem :
      (ptep pte : ℕ)
      → Returns
          (new_native_set_pte pa va ptep pte m)
          λ _ u. Restored m u × ((x : ℕ) → u.memory x ≡ (if x == ptep then pte else m.memory x))
  unfolding new_native_set_pte
  new_native_set_pte_lem ptep pte =
      (tt, _, refl, (record { cr3 = refl; interrupts = refl; stack = refl }, λ x. ground arith))

  -- A write of an entry of the middle level through the gate stores the entry, changes no other
  -- entry, and restores cr3, the interrupt flag and the stack.
  new_native_set_pmd_lem :
      (pmdp pmd : ℕ)
      → Returns
          (new_native_set_pmd pa va pmdp pmd m)
          λ _ u. Restored m u × ((x : ℕ) → u.memory x ≡ (if x == pmdp then pmd else m.memory x))
  unfolding new_native_set_pmd
  new_native_set_pmd_lem pmdp pmd =
      (tt, _, refl, (record { cr3 = refl; interrupts = refl; stack = refl }, λ x. ground arith))

  -- After a gated write cr0 holds the value with bit 16, the write protection, set, whatever the
  -- caller asked for; cr3, the interrupt flag and the stack are restored.
  new_native_write_cr0_lem :
      (val : ℕ)
      → Returns
          (new_native_write_cr0 pa va val m)
          λ _ u. Restored m u × (u.cr0 ≡ bit_or val (2 ^ 16)) × (u.cr0 / 2 ^ 16 % 2 ≡ 1)
  unfolding new_native_write_cr0
  new_native_write_cr0_lem val =
      let protects : bit_or val (2 ^ 16) / 2 ^ 16 % 2 ≡ 1 = omega (arith, or_bit 16 val) in
      elim (Bool-cases (bit_or val (2 ^ 16) == m.cr0)) [
        | inl same ↦
            let e : bit_or val (2 ^ 16) ≡ m.cr0 = ground arith in
            rw same (
              tt,
              _,
              refl,
              (record { cr3 = refl; interrupts = refl; stack = refl }, sym e, rw (← e) protects),
            )
        | inr new ↦
            rw new (
              tt,
              _,
              refl,
              (record { cr3 = refl; interrupts = refl; stack = refl }, refl, protects),
            )
      ]

  -- A gated write of cr4 ends with the value in cr4, and restores cr3, the interrupt flag and the
  -- stack.
  new_native_write_cr4_lem :
      (val : ℕ) → Returns (new_native_write_cr4 pa va val m) λ _ u. Restored m u × (u.cr4 ≡ val)
  unfolding new_native_write_cr4
  new_native_write_cr4_lem val = elim (Bool-cases (val == m.cr4)) [
    | inl same ↦
        rw same
          (tt, _, refl, (record { cr3 = refl; interrupts = refl; stack = refl }, ground arith))
    | inr new ↦ rw new (tt, _, refl, (record { cr3 = refl; interrupts = refl; stack = refl }, refl))
  ]

  -- A gated write of cr8 ends with the value in cr8, and restores cr3, the interrupt flag and the
  -- stack.
  new_native_write_cr8_lem :
      (val : ℕ) → Returns (new_native_write_cr8 pa va val m) λ _ u. Restored m u × (u.cr8 ≡ val)
  unfolding new_native_write_cr8
  new_native_write_cr8_lem val = elim (Bool-cases (val == m.cr8)) [
    | inl same ↦
        rw same
          (tt, _, refl, (record { cr3 = refl; interrupts = refl; stack = refl }, ground arith))
    | inr new ↦ rw new (tt, _, refl, (record { cr3 = refl; interrupts = refl; stack = refl }, refl))
  ]

  -- From any state the write ends with `val` in cr3.
  snative_write_cr3-cr3 :
      (val : ℕ) (k : Machine)
      → Returns (snative_write_cr3 pa val k) λ _ u.
        (u.cr3 ≡ val) × (u.interrupts ≡ k.interrupts) × (u.stack ≡ k.stack) × (u.oldcr3 ≡ k.oldcr3)
  unfolding snative_write_cr3
  snative_write_cr3-cr3 val k =
      elim (Bool-cases (not (not (val == k.cr3) || not (val == pa k.space_addr)))) [
        | inl blocked ↦ rw blocked (tt, _, refl, (ground arith, refl, refl, refl))
        | inr loaded ↦ rw loaded (tt, _, refl, (refl, refl, refl, refl))
      ]

  -- A gated write of cr3 ends with the value in cr3: its guard, which compares with the reserved
  -- page, lets every value pass. The interrupt flag and the stack are restored.
  new_native_write_cr3_lem :
      (val : ℕ)
      → Returns
          (new_native_write_cr3 pa va val m)
          λ _ u. (u.cr3 ≡ val) × (u.interrupts ≡ m.interrupts) × (u.stack ≡ m.stack)
  unfolding new_native_write_cr3
  new_native_write_cr3_lem val =
      Returns-and_then
        (gate-Returns pa va {P = λ _. Unit {0}} m (snative_write_cr3 pa val) (
          let (a, u, e, p) = snative_write_cr3-cr3 val (inside pa va m) in
          (a, u, e, (record { stack = p.2; oldcr3 = p.3 }, tt))))
        λ _ v (u, e, p).
          let (a, w, run, q) = snative_write_cr3-cr3 val v in
          (a, w, run, (q.0, rw (q.1, e), rw (q.2, e)))

-- ===== src/Smp/Sequence.antt =====
-- The statements of one processor, one after the other, are the handler of its call.
use hyper_mi.Base.{ℕ, ◌^◌, ◌≡◌, refl, bit_or, not, ◌==◌, Bool-cases, inl, inr, Cmd, ◌>>◌}
use hyper_mi.Gate.Machine.{Machine}
use hyper_mi.Gate.Handlers.{
  new_native_set_pte, new_native_set_pmd, new_native_write_cr0, new_native_write_cr4,
  new_native_write_cr8,
}
use hyper_mi.Smp.{
  statement, outside, has_table, has_cr3, masked, switched, flushed_once, inside, written, unmasked,
  flushed_twice, closed,
}
use hyper_mi.Smp.Calls.{Call, set_pte, set_pmd, write_cr0, write_cr4, write_cr8}

module _ (pa va : ℕ → ℕ) where
  abbrev alone : Call → Cmd Machine (Unit {0})
  alone c =
      statement pa va c outside
      >> statement pa va c has_table
      >> statement pa va c has_cr3
      >> statement pa va c masked
      >> statement pa va c switched
      >> statement pa va c flushed_once
      >> statement pa va c inside
      >> statement pa va c written
      >> statement pa va c unmasked
      >> statement pa va c flushed_twice
      >> statement pa va c closed

  abbrev pub handler : Call → Cmd Machine (Unit {0})
  handler (set_pte ptep pte) = new_native_set_pte pa va ptep pte
  handler (set_pmd pmdp pmd) = new_native_set_pmd pa va pmdp pmd
  handler (write_cr0 val) = new_native_write_cr0 pa va val
  handler (write_cr4 val) = new_native_write_cr4 pa va val
  handler (write_cr8 val) = new_native_write_cr8 pa va val

  -- With no other processor between them, the statements of a call are its handler.
  alone-handler : (c : Call) (m : Machine) → alone c m ≡ handler c m
  unfolding statement new_native_set_pte new_native_set_pmd new_native_write_cr0
      new_native_write_cr4 new_native_write_cr8
  alone-handler (set_pte ptep pte) m = refl
  alone-handler (set_pmd pmdp pmd) m = refl
  alone-handler (write_cr0 val) m = elim (Bool-cases (not (not (bit_or val (2 ^ 16) == m.cr0)))) [
    | inl keep ↦ rw keep refl
    | inr write ↦ rw write refl
  ]
  alone-handler (write_cr4 val) m = elim (Bool-cases (not (not (val == m.cr4)))) [
    | inl keep ↦ rw keep refl
    | inr write ↦ rw write refl
  ]
  alone-handler (write_cr8 val) m = elim (Bool-cases (not (not (val == m.cr8)))) [
    | inl keep ↦ rw keep refl
    | inr write ↦ rw write refl
  ]

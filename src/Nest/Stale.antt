-- ===== src/Nest/Stale.antt =====
-- new_do_page_fault of src/SecureVM/gate_function.h reads cr2 anew for its second handling.
use hyper_mi.Base.{
  ℕ, ◌≤◌, ◌≡◌, refl, ◌∙◌, ap, arith, true, leb, Bool-cases, inl, inr, ◌∷◌, Cmd, Returns,
}
use hyper_mi.Gate.Machine.{Machine, printed, coming_notice, attention_notice}
use hyper_mi.Gate.Switch.{Keeps, inside, outside, close_gate-outside}
use hyper_mi.Gate.Native.{sdo_page_fault}
use hyper_mi.Gate.Handlers.{new_do_page_fault}
use hyper_mi.Gate.Writes.{Restored}

module _ (pa va : ℕ → ℕ) (task_size_max : ℕ) (fault_handler : ℕ → ℕ → ℕ → Cmd Machine (Unit {0}))
    (regs error_code : ℕ) where
  -- The handler of the kernel is called with the address in cr2.
  sdo_page_fault-calls :
      (m : Machine)
      → (v : Machine) × (sdo_page_fault task_size_max fault_handler regs error_code m
          ≡ fault_handler regs error_code m.cr2 v)
        × Restored m v
  unfolding sdo_page_fault
  sdo_page_fault-calls m = elim (Bool-cases (leb task_size_max m.cr2)) [
    | inl high ↦ rw high (
      record m { trace = printed attention_notice ∷ m.trace },
      refl,
      record { cr3 = refl; interrupts = refl; stack = refl },
    )
    | inr low ↦ rw low (m, refl, record { cr3 = refl; interrupts = refl; stack = refl })
  ]

  -- The machine on which the kernel's handler is first called for a fault at a kernel address.
  abbrev pub entered : Machine → Machine
  entered m =
      let k = inside pa va (record m { trace = printed coming_notice ∷ m.trace }) in
      record k { trace = printed attention_notice ∷ k.trace }

  sdo_page_fault-entered :
      (m : Machine)
      → leb task_size_max m.cr2 ≡ true
      → sdo_page_fault task_size_max fault_handler regs error_code
          (inside pa va (record m { trace = printed coming_notice ∷ m.trace }))
        ≡ fault_handler regs error_code m.cr2 (entered m)
  unfolding sdo_page_fault
  sdo_page_fault-entered m up = rw up refl

  -- If the kernel's handler, called behind the gate for a fault at a kernel address, takes a fault
  -- itself at an address `b`, so that cr2 holds `b`, and returns with the stack and the saved cr3
  -- that it found, then it is called once more with the registers and the error code of the first
  -- fault, but for the address `b`, on the table, flag and stack of before.
  pub new_do_page_fault-stale :
      (m : Machine) (b : ℕ)
      → task_size_max ≤ m.cr2
      → Returns
          (fault_handler regs error_code m.cr2 (entered m))
          (λ _ u. Keeps (entered m) u × (u.cr2 ≡ b))
      → (v : Machine) × (new_do_page_fault pa va task_size_max fault_handler regs error_code m
          ≡ fault_handler regs error_code b v)
        × Restored m v
  unfolding new_do_page_fault
  new_do_page_fault-stale m b high (a, u, run, p) =
      let up : leb task_size_max m.cr2 ≡ true = ground arith in
      let k = record m { trace = printed coming_notice ∷ m.trace } in
      let closed =
        close_gate-outside pa va k u (record { stack = p.0.stack; oldcr3 = p.0.oldcr3 }) in
      let (v, e, same) = sdo_page_fault-calls (outside k u) in
      let first = sdo_page_fault-entered m up in
      rw (up, first, run, closed)
        (
          v,
          e ∙ ap (λ c. fault_handler regs error_code c v) p.1,
          record { cr3 = same.cr3; interrupts = same.interrupts; stack = same.stack },
        )

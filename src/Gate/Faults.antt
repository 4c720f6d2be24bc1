-- ===== src/Gate/Faults.antt =====
-- The page-fault replacement and the run of a virtual CPU.
use hyper_mi.Base.{
  ℕ, ◌+◌, ◌≤◌, ◌<◌, ◌≡◌, refl, ◌∙◌, arith, true, false, leb, ◌==◌, Bool-cases, inl, inr, Cmd, ok,
  ◌>>◌, Returns, Returns-and_then, ◌∷◌,
}
use hyper_mi.Gate.Machine.{Machine, enable_int, writecr3, coming_notice, attention_notice, printed}
use hyper_mi.Gate.Switch.{inside, gate-Returns}
use hyper_mi.Gate.Native.{sdo_page_fault}
use hyper_mi.Gate.Handlers.{new_do_page_fault, new_vmx_vcpu_run}
use hyper_mi.Gate.Writes.{Restored}

module _ (pa va : ℕ → ℕ) (task_size_max : ℕ) (fault_handler : ℕ → ℕ → ℕ → Cmd Machine (Unit {0}))
    (regs error_code : ℕ) (m : Machine) where
  sdo_page_fault-low :
      leb task_size_max m.cr2 ≡ false
      → sdo_page_fault task_size_max fault_handler regs error_code m
        ≡ fault_handler regs error_code m.cr2 m
  unfolding sdo_page_fault
  sdo_page_fault-low low = rw low

  -- A fault in user space goes to the kernel's handler at once and outside the gate.
  new_do_page_fault-user :
      m.cr2 < task_size_max
      → new_do_page_fault pa va task_size_max fault_handler regs error_code m
        ≡ fault_handler regs error_code m.cr2 m
  unfolding new_do_page_fault
  new_do_page_fault-user user =
      let low : leb task_size_max m.cr2 ≡ false = ground arith in rw low (sdo_page_fault-low low)

  module _ (handled : ℕ → (ℕ → ℕ) → Type 0) where
    -- The kernel's handler returns with the registers, the flags and the stack that it found, and
    -- counts as one more call.
    abbrev IsHandler : Type 0
    IsHandler =
        (n : ℕ) (k : Machine)
        → handled n k.memory
        → Returns (fault_handler regs error_code k.cr2 k)
            λ _ u. handled (n + 1) u.memory × Restored k u × (u.oldcr3 ≡ k.oldcr3) × (u.cr2 ≡ k.cr2)

    module _ (handler : IsHandler) where
      sdo_page_fault-handles :
          (n : ℕ) (k : Machine)
          → handled n k.memory
          → Returns (sdo_page_fault task_size_max fault_handler regs error_code k) λ _ u.
            handled (n + 1) u.memory × Restored k u × (u.oldcr3 ≡ k.oldcr3) × (u.cr2 ≡ k.cr2)
      unfolding sdo_page_fault
      sdo_page_fault-handles n k h = elim (Bool-cases (leb task_size_max k.cr2)) [
        | inl high ↦ rw high (
            let (a, u, e, p) =
              handler n (record k { trace = printed attention_notice ∷ k.trace }) h in
            (
              a,
              u,
              e,
              (
                p.0,
                record { cr3 = p.1.cr3; interrupts = p.1.interrupts; stack = p.1.stack },
                p.2,
                p.3,
              ),
            ))
        | inr low ↦ rw low (handler n k h)
      ]

      -- If the kernel's handler is as above, a fault at a kernel address is handled twice, first
      -- inside the gate and then outside it; cr3, the interrupt flag and the stack are restored.
      new_do_page_fault-kernel :
          task_size_max ≤ m.cr2
          → handled 0 m.memory
          → Returns
              (new_do_page_fault pa va task_size_max fault_handler regs error_code m)
              λ _ u. handled 2 u.memory × Restored m u
      unfolding new_do_page_fault
      new_do_page_fault-kernel high h =
          let up : leb task_size_max m.cr2 ≡ true = ground arith in
          let k = record m { trace = printed coming_notice ∷ m.trace } in
          rw up (
            Returns-and_then
              (gate-Returns pa va {P = λ u. handled 1 u.memory} k
                (sdo_page_fault task_size_max fault_handler regs error_code)
                (let (a, u, e, p) = sdo_page_fault-handles 0 (inside pa va k) h in
                  (a, u, e, (record { stack = p.1.stack; oldcr3 = p.2 }, p.0))))
              λ _ v (u, e, p).
                let (a, w, run, q) = sdo_page_fault-handles 1 v (rw e p) in
                (
                  a,
                  w,
                  run,
                  (
                    q.0,
                    record {
                      cr3 = rw (q.1.cr3, e);
                      interrupts = rw (q.1.interrupts, e);
                      stack = rw (q.1.stack, e);
                    },
                  ),
                ))

pub close_run :
    (m u : Machine)
    → u.stack ≡ m.interrupts ∷ m.stack
    → u.oldcr3 ≡ m.cr3
    → (enable_int >> λ k. writecr3 k.oldcr3 k) u
      ≡ ok tt (record u { stack = m.stack; interrupts = m.interrupts; cr3 = m.cr3 })
unfolding enable_int writecr3
close_run m u s c = rw (s, c)

pub finish_run :
    (m k : Machine) (sec : Cmd Machine (Unit {0})) (P : Machine → Type 0)
    → k.stack ≡ m.interrupts ∷ m.stack
    → k.oldcr3 ≡ m.cr3
    → Returns (sec k) (λ _ u. (u.stack ≡ k.stack) × (u.oldcr3 ≡ k.oldcr3) × P u)
    → Returns ((sec >> enable_int >> λ j. writecr3 j.oldcr3 j) k) λ _ v.
      Restored m v
      × ((u : Machine) × P u × (v.memory ≡ u.memory) × (v.trace ≡ u.trace) × (v.oldcr3 ≡ u.oldcr3))
finish_run m k sec P s c (a, u, e, p) =
    rw (e, close_run m u (p.0 ∙ s) (p.1 ∙ c))
      (
        tt,
        _,
        refl,
        (record { cr3 = refl; interrupts = refl; stack = refl }, (u, p.2, refl, refl, refl)),
      )

-- The machine that the handler leaves is the one of the part of KVM, but for what is restored.
pub finish_exact :
    (m k : Machine) (sec : Cmd Machine (Unit {0})) (P : Machine → Type 0)
    → k.stack ≡ m.interrupts ∷ m.stack
    → k.oldcr3 ≡ m.cr3
    → Returns (sec k) (λ _ u. (u.stack ≡ k.stack) × (u.oldcr3 ≡ k.oldcr3) × P u)
    → Returns ((sec >> enable_int >> λ j. writecr3 j.oldcr3 j) k) λ _ v.
      (u : Machine) × P u
      × (v ≡ record u { stack = m.stack; interrupts = m.interrupts; cr3 = m.cr3 })
finish_exact m k sec P s c (a, u, e, p) =
    rw (e, close_run m u (p.0 ∙ s) (p.1 ∙ c)) (tt, _, refl, (u, p.2, refl))

-- A virtual CPU runs with interrupts off and, where __pa undoes __va, on the page tables of
-- before, which are saved. If KVM's part then returns with the stack and the saved cr3 that it
-- found, so does the whole, with cr3, the interrupt flag and the stack restored, and the memory,
-- trace and saved cr3 that KVM's part left.
pub new_vmx_vcpu_run-runs :
    (pa va : ℕ → ℕ) (vmx_vcpu_run_sec : ℕ → Cmd Machine (Unit {0})) (vcpu : ℕ) (m : Machine)
    (P : Machine → Type 0)
    → pa (va m.cr3) ≡ m.cr3
    → ((k : Machine)
        → k.interrupts ≡ false
        → k.cr3 ≡ m.cr3
        → k.oldcr3 ≡ m.cr3
        → Returns
            (vmx_vcpu_run_sec vcpu k)
            λ _ u. (u.stack ≡ k.stack) × (u.oldcr3 ≡ k.oldcr3) × P u)
    → Returns (new_vmx_vcpu_run pa va vmx_vcpu_run_sec vcpu m) λ _ v.
      Restored m v
      × ((u : Machine) × P u × (v.memory ≡ u.memory) × (v.trace ≡ u.trace) × (v.oldcr3 ≡ u.oldcr3))
unfolding new_vmx_vcpu_run
new_vmx_vcpu_run-runs pa va vmx_vcpu_run_sec vcpu m P linear runs =
    elim (Bool-cases (m.flag_vmxrun == 0)) [
      | inl first ↦
          rw first (finish_run m _ (vmx_vcpu_run_sec vcpu) P refl refl (runs _ refl linear refl))
      | inr again ↦
          rw again (finish_run m _ (vmx_vcpu_run_sec vcpu) P refl refl (runs _ refl linear refl))
    ]

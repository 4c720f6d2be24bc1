-- ===== src/Nest.antt =====
-- The handlers of src/SecureVM/gate_function.h as the kernel enters them one inside another: the
-- kernel's page-fault handler, which the gate encloses, writes page-table entries and faults again,
-- and KVM's part of a run of a virtual CPU does so behind its gate. new_native_write_cr3, which is
-- there to change the table, and the other handlers of KVM are left out.
pub mod Restores
pub mod Stale
mod Tests
use hyper_mi.Base.{ℕ, Cmd, pure, modify, ◌>>◌}
use hyper_mi.Gate.Machine.{Machine}
use hyper_mi.Gate.Handlers.{new_do_page_fault, new_vmx_vcpu_run}
use hyper_mi.Smp.Calls.{Call}
use hyper_mi.Smp.Sequence.{handler}

-- What the kernel enters, one after the other; `inner` is what it enters before the fault or the
-- virtual CPU is done.
pub data Work : Type 0 where
  done : Work
  call : Call → (rest : Work) → Work
  page_fault : (address regs error_code : ℕ) → (inner rest : Work) → Work
  vcpu_run : (vcpu : ℕ) → (inner rest : Work) → Work

-- A fault sets cr2. The kernel's handler does the same each time that it is called.
module _ (pa va : ℕ → ℕ) (task_size_max : ℕ) where
  unfoldable pub work : Work → Cmd Machine (Unit {0})
  unfolding new_do_page_fault new_vmx_vcpu_run
  work done = pure tt
  work (call c rest) = handler pa va c >> work rest
  work (page_fault address regs error_code inner rest) =
      modify (λ m. record m { cr2 = address })
      >> new_do_page_fault pa va task_size_max (λ r e a. work inner) regs error_code
      >> work rest
  work (vcpu_run vcpu inner rest) = new_vmx_vcpu_run pa va (λ v. work inner) vcpu >> work rest

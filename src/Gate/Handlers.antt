-- ===== src/Gate/Handlers.antt =====
-- src/SecureVM/gate_function.h: the replacements that write control registers and page-table
-- entries, and those of do_page_fault and vmx_vcpu_run. `pa` and `va` are the kernel's __pa and
-- __va.
use hyper_mi.Base.{ℕ, leb, ◌==◌, if◌then◌else◌, Cmd, pure, modify, ◌>>◌}
use hyper_mi.Gate.Machine.{
  Machine, print, coming_notice, vcpu_run_notice, writecr3, disable_int_first, disable_int_second,
  enable_int,
}
use hyper_mi.Gate.Native.{
  snative_write_cr0, snative_write_cr3, snative_write_cr4, snative_write_cr8, snative_set_pte,
  snative_set_pmd, sdo_page_fault,
}
use hyper_mi.Gate.Switch.{open_gate, close_gate}

module _ (pa va : ℕ → ℕ) where
  unfoldable pub new_native_set_pte : ℕ → ℕ → Cmd Machine (Unit {0})
  unfolding open_gate close_gate snative_set_pte
  new_native_set_pte ptep pte =
      open_gate pa va >> snative_set_pte ptep pte >> close_gate >> snative_set_pte ptep pte

  unfoldable pub new_native_write_cr3 : ℕ → Cmd Machine (Unit {0})
  unfolding open_gate close_gate snative_write_cr3
  new_native_write_cr3 val =
      open_gate pa va >> snative_write_cr3 pa val >> close_gate >> snative_write_cr3 pa val

  unfoldable pub new_native_set_pmd : ℕ → ℕ → Cmd Machine (Unit {0})
  unfolding open_gate close_gate snative_set_pmd
  new_native_set_pmd pmdp pmd =
      open_gate pa va >> snative_set_pmd pmdp pmd >> close_gate >> snative_set_pmd pmdp pmd

  unfoldable pub new_native_write_cr0 : ℕ → Cmd Machine (Unit {0})
  unfolding open_gate close_gate snative_write_cr0
  new_native_write_cr0 val = open_gate pa va >> snative_write_cr0 val >> close_gate

  unfoldable pub new_native_write_cr4 : ℕ → Cmd Machine (Unit {0})
  unfolding open_gate close_gate snative_write_cr4
  new_native_write_cr4 val = open_gate pa va >> snative_write_cr4 val >> close_gate

  unfoldable pub new_native_write_cr8 : ℕ → Cmd Machine (Unit {0})
  unfolding open_gate close_gate snative_write_cr8
  new_native_write_cr8 val = open_gate pa va >> snative_write_cr8 val >> close_gate

  module _ (task_size_max : ℕ) (fault_handler : ℕ → ℕ → ℕ → Cmd Machine (Unit {0})) where
    unfoldable pub new_do_page_fault : ℕ → ℕ → Cmd Machine (Unit {0})
    unfolding open_gate close_gate sdo_page_fault
    new_do_page_fault regs error_code m =
        ((if leb task_size_max m.cr2
              then print coming_notice
                >> open_gate pa va
                >> sdo_page_fault task_size_max fault_handler regs error_code
                >> close_gate
              else pure tt)
            >> sdo_page_fault task_size_max fault_handler regs error_code)
          m

  -- `vmx_vcpu_run_sec` is KVM's; here the gate does not flush the TLB.
  unfoldable pub new_vmx_vcpu_run : (ℕ → Cmd Machine (Unit {0})) → ℕ → Cmd Machine (Unit {0})
  unfolding disable_int_first writecr3 disable_int_second enable_int
  new_vmx_vcpu_run vmx_vcpu_run_sec vcpu =
      modify (λ m. record m { pgd_addr_cp_gate = va m.cr3; oldcr3 = m.cr3 })
      >> disable_int_first
      >> (λ m. writecr3 (pa m.pgd_addr_cp_gate) m)
      >> disable_int_second
      >> (λ m. (if m.flag_vmxrun == 0 then print vcpu_run_notice else pure tt) m)
      >> modify (λ m. record m { flag_vmxrun = 1 })
      >> vmx_vcpu_run_sec vcpu
      >> enable_int
      >> λ m. writecr3 m.oldcr3 m

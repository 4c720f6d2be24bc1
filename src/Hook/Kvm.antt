-- ===== src/Hook/Kvm.antt =====
-- src/SecureVM/set_hook.h: the hook installers of the MMU and the VCPU.
use hyper_mi.Base.{ℕ}
use hyper_mi.Base.{Cmd}
use hyper_mi.Hook.Data.{Kernel, Site}
use hyper_mi.Hook.Install.{set_hook_at}

module _ (lookup_address : ℕ → ℕ) (to_mock_func mock_func : ℕ) where
  unfoldable pub set_hook_handle_ept_violation_sec : Cmd Kernel (Unit {0})
  unfolding set_hook_at
  set_hook_handle_ept_violation_sec =
      set_hook_at lookup_address Site.handle_ept to_mock_func mock_func

  unfoldable pub set_hook_kvm_mmu_page_fault : Cmd Kernel (Unit {0})
  unfolding set_hook_at
  set_hook_kvm_mmu_page_fault =
      set_hook_at lookup_address Site.kvm_mmu_page_fault to_mock_func mock_func

  unfoldable pub set_hook_asm_sec_modify : Cmd Kernel (Unit {0})
  unfolding set_hook_at
  set_hook_asm_sec_modify = set_hook_at lookup_address Site.asm_sec_modify to_mock_func mock_func

  unfoldable pub set_hook_vmx_vcpu_run : Cmd Kernel (Unit {0})
  unfolding set_hook_at
  set_hook_vmx_vcpu_run = set_hook_at lookup_address Site.vmx_vcpu_run to_mock_func mock_func

  unfoldable pub set_hook_vmx_vcpu_load_modify : Cmd Kernel (Unit {0})
  unfolding set_hook_at
  set_hook_vmx_vcpu_load_modify =
      set_hook_at lookup_address Site.vmx_vcpu_load_modify to_mock_func mock_func

  unfoldable pub set_hook_alloc_kvm_area : Cmd Kernel (Unit {0})
  unfolding set_hook_at
  set_hook_alloc_kvm_area = set_hook_at lookup_address Site.alloc_kvm_area to_mock_func mock_func

  unfoldable pub set_hook_vmx_create_vcpu : Cmd Kernel (Unit {0})
  unfolding set_hook_at
  set_hook_vmx_create_vcpu = set_hook_at lookup_address Site.vmx_create_vcpu to_mock_func mock_func

  unfoldable pub set_hook_tdp_page_fault : Cmd Kernel (Unit {0})
  unfolding set_hook_at
  set_hook_tdp_page_fault = set_hook_at lookup_address Site.tdp_page_fault to_mock_func mock_func

  unfoldable pub set_hook_kvm_vm_ioctl : Cmd Kernel (Unit {0})
  unfolding set_hook_at
  set_hook_kvm_vm_ioctl = set_hook_at lookup_address Site.kvm_vm_ioctl to_mock_func mock_func

  unfoldable pub set_hook_kvm_mmu_load : Cmd Kernel (Unit {0})
  unfolding set_hook_at
  set_hook_kvm_mmu_load = set_hook_at lookup_address Site.kvm_mmu_load to_mock_func mock_func

  unfoldable pub set_hook_vmx_flush_tlb : Cmd Kernel (Unit {0})
  unfolding set_hook_at
  set_hook_vmx_flush_tlb = set_hook_at lookup_address Site.vmx_flush_tlb to_mock_func mock_func

  unfoldable pub set_hook_mmu_free_roots : Cmd Kernel (Unit {0})
  unfolding set_hook_at
  set_hook_mmu_free_roots = set_hook_at lookup_address Site.mmu_free_roots to_mock_func mock_func

  unfoldable pub set_hook_vmx_handle_exit : Cmd Kernel (Unit {0})
  unfolding set_hook_at
  set_hook_vmx_handle_exit = set_hook_at lookup_address Site.vmx_handle_exit to_mock_func mock_func

  unfoldable pub set_hook_handle_exit_modify : Cmd Kernel (Unit {0})
  unfolding set_hook_at
  set_hook_handle_exit_modify =
      set_hook_at lookup_address Site.handle_exit_modify to_mock_func mock_func

  unfoldable pub set_hook_direct_map_modify : Cmd Kernel (Unit {0})
  unfolding set_hook_at
  set_hook_direct_map_modify =
      set_hook_at lookup_address Site.direct_map_modify to_mock_func mock_func

  unfoldable pub set_hook_try_async_pf_modify : Cmd Kernel (Unit {0})
  unfolding set_hook_at
  set_hook_try_async_pf_modify =
      set_hook_at lookup_address Site.try_async_pf_modify to_mock_func mock_func

  unfoldable pub set_hook_kvm_arch_alloc_vm : Cmd Kernel (Unit {0})
  unfolding set_hook_at
  set_hook_kvm_arch_alloc_vm =
      set_hook_at lookup_address Site.kvm_arch_alloc_vm to_mock_func mock_func

  unfoldable pub set_hook_kvm_arch_free_vm : Cmd Kernel (Unit {0})
  unfolding set_hook_at
  set_hook_kvm_arch_free_vm =
      set_hook_at lookup_address Site.kvm_arch_free_vm to_mock_func mock_func

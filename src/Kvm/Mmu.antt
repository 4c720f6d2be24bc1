-- ===== src/Kvm/Mmu.antt =====
-- `new_kvm_mmu_load`, `new_vmx_flush_tlb`, `new_mmu_free_roots` and `new_handle_exit_modify`. The
-- functions of KVM that they call are parameters, and so is its test VALID_PAGE.
use hyper_mi.Base.{ℕ, Bool, not, ◌==◌, if◌then◌else◌, update, Cmd, ok, pure, modify, ◌>>◌, ◌>>=◌}
use hyper_mi.Gate.Machine.{
  Machine, print, root_differs_notice, flush_tlb_all, disable_int_first, disable_int_second,
  enable_int, writecr3,
}
use hyper_mi.Gate.Switch.{close_gate}

module _ (pa va : ℕ → ℕ) where
  unfoldable pub remember_cr3 : Cmd Machine (Unit {0})
  remember_cr3 = modify (λ m. record m { pgd_addr_cp_gate = va m.cr3; oldcr3 = m.cr3 })

  -- The gate with no flush of the TLB.
  unfoldable pub open_quietly : Cmd Machine (Unit {0})
  unfolding remember_cr3 disable_int_first writecr3 disable_int_second
  open_quietly =
      remember_cr3
      >> disable_int_first
      >> (λ m. writecr3 (pa m.pgd_addr_cp_gate) m)
      >> disable_int_second

  -- The gate with a flush before and after cr3 is loaded.
  unfoldable pub open_flushed : Cmd Machine (Unit {0})
  unfolding remember_cr3 disable_int_first flush_tlb_all writecr3 disable_int_second
  open_flushed =
      remember_cr3
      >> disable_int_first
      >> flush_tlb_all
      >> (λ m. writecr3 (pa m.pgd_addr_cp_gate) m)
      >> flush_tlb_all
      >> disable_int_second

  unfoldable pub new_kvm_mmu_load : (ℕ → Cmd Machine ℕ) → ℕ → Cmd Machine ℕ
  unfolding open_flushed close_gate
  new_kvm_mmu_load kvm_mmu_load_modify vcpu =
      open_flushed
      >> (kvm_mmu_load_modify vcpu >>= λ r. modify (λ m. record m { result_kvm_mmu_load = r }))
      >> close_gate
      >> λ m. ok m.result_kvm_mmu_load m

  module _ (valid_page : ℕ → Bool) where
    -- The saved root goes back into the virtual CPU.
    unfoldable pub restore_root : ℕ → Cmd Machine (Unit {0})
    restore_root vcpu m =
        if valid_page m.result_root_hpa
        then (if not (m.result_root_hpa == 0)
            then ok tt (record m { root_hpa = update m.root_hpa vcpu m.result_root_hpa })
            else ok tt m)
        else ok tt m

    unfoldable pub new_vmx_flush_tlb : (ℕ → Cmd Machine (Unit {0})) → ℕ → Cmd Machine (Unit {0})
    unfolding open_quietly restore_root enable_int writecr3
    new_vmx_flush_tlb vmx_flush_tlb_modify vcpu =
        open_quietly >> restore_root vcpu >> vmx_flush_tlb_modify vcpu >> enable_int >> λ m.
        writecr3 m.oldcr3 m

    unfoldable pub new_mmu_free_roots : (ℕ → Cmd Machine (Unit {0})) → ℕ → Cmd Machine (Unit {0})
    unfolding open_flushed restore_root close_gate
    new_mmu_free_roots mmu_free_roots_modify vcpu =
        open_flushed
        >> (λ m.
            (if m.root_hpa vcpu == m.result_root_hpa then pure tt else print root_differs_notice) m)
        >> restore_root vcpu
        >> mmu_free_roots_modify vcpu
        >> close_gate

-- `handle_exit` of the operations that the caller passes.
unfoldable pub new_handle_exit_modify : (ℕ → Cmd Machine ℕ) → ℕ → Cmd Machine ℕ
new_handle_exit_modify handle_exit vcpu = handle_exit vcpu >>= λ r. pure r

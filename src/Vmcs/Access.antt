-- ===== src/Vmcs/Access.antt =====
-- `new_vmcs_writel`, `new_vmcs_readl` and `new_vmcs_clear`. The instructions are those of the
-- processor: `vmwrite field value` and `vmclear address` tell whether they fail and what the
-- machine is then, `vmread field` what they read. `mode` is the field of a virtual CPU.
use hyper_mi.Base.{
  ℕ, Bool, not, ltb, ◌==◌, if◌then◌else◌, Cmd, ok, fault, pure, modify, ◌>>◌, ◌>>=◌,
}
use hyper_mi.Gate.Machine.{
  Machine, KvmPfnSt, note, print, vmwrite_error, write_field_notice, read_field_notice,
  vmclear_fail_notice,
}
use hyper_mi.Vmcs.Fields.{in_array_writel, in_array_readl}

-- `kvm_pfn_str[num_vm_this]`, an array of six.
unfoldable pub this_vm : Cmd Machine KvmPfnSt
this_vm m = if ltb m.num_vm_this 6 then ok (m.kvm_pfn_str m.num_vm_this) m else fault

-- An EPT pointer (0x201a) is remembered.
abbrev pub mark_eptp : ℕ → Machine → Machine
mark_eptp field m = record m {
  vmcswriteflag =
      if m.vmcswriteflag == 0
      then (if field == 0x201a then 1 else m.vmcswriteflag)
      else m.vmcswriteflag;
}

module _ (vmwrite : ℕ → ℕ → Machine → Bool × Machine) where
  -- The instruction, and vmwrite_error if it fails.
  unfoldable pub store_field : ℕ → ℕ → Cmd Machine (Unit {0})
  store_field field value m =
      let (error, u) = vmwrite field value m in
      (if error then note (vmwrite_error field value) else pure tt) u

  module _ (pa va : ℕ → ℕ) (mode : ℕ → ℕ) (outside_guest_mode : ℕ) where
    unfoldable pub new_vmcs_writel : ℕ → ℕ → Cmd Machine (Unit {0})
    unfolding this_vm in_array_writel store_field
    new_vmcs_writel field value = modify (mark_eptp field) >> this_vm >>= λ vm.
        if ltb vm.count_vmcs_wr 0
        then (if mode vm.kvm_vcpu_mo == outside_guest_mode
            then (in_array_writel pa va field 0 >>= λ r.
                if not (r == 0)
                then (if field == 0
                    then store_field field value
                    else print (write_field_notice field))
                else store_field field value)
            else store_field field value)
        else store_field field value

module _ (vmread : ℕ → Machine → ℕ) where
  -- The instruction, into the global `value`.
  unfoldable pub load_field : ℕ → Cmd Machine (Unit {0})
  load_field field m = ok tt (record m { value = vmread field m })

  module _ (pa va : ℕ → ℕ) (mode : ℕ → ℕ) (outside_guest_mode : ℕ) where
    unfoldable pub new_vmcs_readl : ℕ → Cmd Machine ℕ
    unfolding this_vm in_array_readl load_field
    new_vmcs_readl field =
        modify (λ m. record m { pgd_addr_cp_gate = va m.cr3; oldcr3 = m.cr3 })
        >> this_vm
        >>= (λ vm.
            if ltb vm.count_vmcs_wr 0
            then (if mode vm.kvm_vcpu_mo == outside_guest_mode
                then (in_array_readl pa va field 0 >>= λ r.
                    if not (r == 0)
                    then print (read_field_notice field) >> load_field field
                    else load_field field)
                else load_field field)
            else load_field field)
        >> λ m. ok m.value m

module _ (vmclear : ℕ → Machine → Bool × Machine) (pa : ℕ → ℕ) where
  unfoldable pub new_vmcs_clear : ℕ → Cmd Machine (Unit {0})
  new_vmcs_clear vmcs m =
      let (error, u) = vmclear (pa vmcs) m in
      (if error then print (vmclear_fail_notice vmcs (pa vmcs)) else pure tt) u

-- The replacements that do nothing.
unfoldable pub new_handle_ept_violation_sec : ℕ → Cmd Machine (Unit {0})
new_handle_ept_violation_sec vcpu = pure tt

unfoldable pub new_kvm_mmu_page_fault : ℕ → ℕ → ℕ → ℕ → ℕ → Cmd Machine ℕ
new_kvm_mmu_page_fault vcpu cr2 error_code insn insn_len = pure 0

-- ===== src/Kvm/Tdp.antt =====
-- `new_tdp_page_fault`: the gate, a copy of the page table into itself, KVM's own handler, and the
-- list of the VMs from which the number of the current VM is taken.
use hyper_mi.Base.{
  ℕ, zero, suc, ◌+◌, ◌%◌, ◌^◌, Bool, not, ◌&&◌, List, [], ◌∷◌, ltb, ◌==◌, if◌then◌else◌, update,
  Cmd, ok, fault, starved, modify, Run, ◌>>◌, ◌>>=◌,
}
use hyper_mi.Gate.Machine.{
  Machine, Event, flushed, printed, null_page_notice, count_notice, disable_int_first,
  disable_int_second, enable_int, writecr3,
}
use hyper_mi.Paging.Store.{Store, PageKernel, Happening, flushed_tlb, page_is_null, count_printed}
use hyper_mi.Paging.Copy.Update.{update_pagetable}
use hyper_mi.Kvm.Mmu.{remember_cr3}

abbrev event : Happening → Event
event flushed_tlb = flushed
event page_is_null = printed null_page_notice
event (count_printed n) = printed (count_notice n)

abbrev pub events_onto : List Happening → List Event → List Event
events_onto [] es = es
events_onto (h ∷ hs) es = event h ∷ events_onto hs es

abbrev pub store_of : Machine → Store
store_of m = record {
  memory = m.memory;
  cr3 = m.cr3;
  pages = m.pages;
  pgd_addr_cp = m.pgd_addr_cp;
  trace = [];
}

-- The machine after a command of the page tables has run.
abbrev pub with_tables {κ} : {A : Type κ} → Machine → Run Store A → Run Machine A
with_tables m (ok a s) = ok a (record m {
  memory = s.memory;
  pages = s.pages;
  pgd_addr_cp = s.pgd_addr_cp;
  trace = events_onto s.trace m.trace;
})
with_tables m fault = fault
with_tables m starved = starved

abbrev pub on_tables {κ} : {A : Type κ} → Cmd Store A → Cmd Machine A
on_tables c m = with_tables m (c (store_of m))

-- An address that the walk takes for a VM.
abbrev pub is_vm : ℕ → Bool
is_vm p = ltb p 0xffffffff00000000 && not (p == 0)

-- `while`, for at most `fuel` turns: the VMs are entered into `kvm_pfn_str`, an array of six.
unfoldable pub list_vms : ℕ → ℕ → Cmd Machine (Unit {0})
list_vms zero p m = starved
list_vms (suc fuel) p m =
    let rest = list_vms fuel (m.next p) (record m {
      kvm_pfn_str =
          update m.kvm_pfn_str m.current_num_vm
            (record (m.kvm_pfn_str m.current_num_vm) { kvm1 = p });
      current_num_vm = m.current_num_vm + 1;
    }) in
    if is_vm p then (if ltb m.current_num_vm 6 then rest else fault) else ok tt m

-- `for (i = 0; …)` with `n` turns to go: the first VM that is `kvm`.
unfoldable pub find_vm : ℕ → ℕ → ℕ → Machine → Machine
find_vm zero i kvm m = m
find_vm (suc n) i kvm m =
    let rest = find_vm n (i + 1) kvm m in
    if kvm == (m.kvm_pfn_str i).kvm1 then record m { num_vm_this = i } else rest

module _ (k : PageKernel) (vcpu_kvm vm_list : ℕ → ℕ)
    (tdp_page_fault_modify : ℕ → ℕ → ℕ → ℕ → Cmd Machine ℕ) where
  -- Seven turns: the array is full after six.
  unfoldable pub enter_vms : ℕ → ℕ → Cmd Machine (Unit {0})
  unfolding list_vms find_vm
  enter_vms vcpu p m =
      if not (m.flag_tdp == 0)
      then (modify (λ u. record u { current_num_vm = 0 })
            >> (λ u. list_vms 7 (u.next p) u)
            >> modify (λ u. find_vm u.current_num_vm 0 (vcpu_kvm vcpu) u))
          m
      else ok tt m

  -- `kvm_pfn_str[num_vm_this]`.
  unfoldable pub mark_vm : ℕ → Cmd Machine (Unit {0})
  mark_vm vcpu m =
      if ltb m.num_vm_this 6
      then ok tt (record m {
        kvm_pfn_str =
            update m.kvm_pfn_str m.num_vm_this
              (record (m.kvm_pfn_str m.num_vm_this) { count_vmcs_wr = 1; kvm_vcpu_mo = vcpu });
      })
      else fault

  -- `flag_tdp` is an int, kept as its 32 bits.
  unfoldable pub new_tdp_page_fault : ℕ → ℕ → ℕ → ℕ → Cmd Machine ℕ
  unfolding remember_cr3 update_pagetable disable_int_first writecr3 disable_int_second enter_vms
      mark_vm enable_int
  new_tdp_page_fault vcpu gpa error_code prefault start =
      (remember_cr3 k.pa k.va
          >> (λ m. on_tables (update_pagetable k m.pgd_addr_cp_gate) m)
          >> disable_int_first
          >> (λ m. writecr3 (k.pa m.pgd_addr_cp_gate) m)
          >> disable_int_second
          >> modify (λ m. record m { flag_tdp = (m.flag_tdp + 1) % 2 ^ 32 })
          >> (tdp_page_fault_modify vcpu gpa error_code prefault >>= λ r.
              modify (λ m. record m { result_tdp_page_fault = r }))
          >> enter_vms vcpu (start.next (vm_list (vcpu_kvm vcpu)))
          >> mark_vm vcpu
          >> enable_int
          >> (λ m. writecr3 m.oldcr3 m)
          >> λ m. ok m.result_tdp_page_fault m)
        start

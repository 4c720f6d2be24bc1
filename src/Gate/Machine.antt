-- ===== src/Gate/Machine.antt =====
-- The processor and the globals of src/SecureVM/gate_function.h, and the instructions of
-- src/SecureVM/interupt.h.
use hyper_mi.Base.{ℕ, Bool, true, false, List, [], ◌∷◌, Cmd, ok, fault, modify}

-- What the replacements print, by the values printed.
pub data Notice : Type 0 where
  cr0_notice : Notice
  cr3_notice : Notice
  cr4_notice : Notice
  set_pte_notice : Notice
  set_pmd_notice : Notice
  coming_notice : Notice
  attention_notice : Notice
  vcpu_run_notice : Notice
  write_field_notice : (field : ℕ) → Notice
  read_field_notice : (field : ℕ) → Notice
  null_page_notice : Notice
  count_notice : (count : ℕ) → Notice
  created_notice : Notice
  monitor_notice : Notice
  normal_notice : Notice
  protected_notice : Notice
  root_differs_notice : Notice
  monitor_here_notice : Notice
  goodbye_notice : Notice
  lgdt_notice : Notice
  lidt_notice : Notice
  lldt_notice : Notice
  vmclear_fail_notice : (vmcs phys_addr : ℕ) → Notice

pub data Event : Type 0 where
  flushed : Event
  printed : Notice → Event
  vmwrite_error : (field value : ℕ) → Event
  vmclear : (phys_addr : ℕ) → Event

-- One VM in the array `kvm_pfn_str`.
pub record KvmPfnSt : Type 0 where
  pub kvm1 : ℕ
  pub pfn_array_st : ℕ
  pub num_pfn : ℕ
  pub count_vmcs_wr : ℕ
  pub kvm_vcpu_mo : ℕ

-- `struct desc_ptr` of the kernel.
pub record DescPtr : Type 0 where
  pub size : ℕ
  pub address : ℕ

-- `pages` holds what the coming calls of get_zeroed_page return; `next` is the field of that name
-- of a list head, and `root_hpa` that of a virtual CPU's MMU, each by the address of its owner.
-- Of the flags only the interrupt flag; `stack` holds what pushf pushed. `memory` holds
-- page-table entries by their address, `trace` what happened, the last first.
pub record Machine : Type 0 where
  pub cr0 : ℕ
  pub cr2 : ℕ
  pub cr3 : ℕ
  pub cr4 : ℕ
  pub cr8 : ℕ
  pub gdtr : DescPtr
  pub idtr : DescPtr
  pub ldtr : ℕ
  pub interrupts : Bool
  pub stack : List Bool
  pub memory : ℕ → ℕ
  pub trace : List Event
  pub pgd_addr_cp_gate : ℕ
  pub oldcr3 : ℕ
  pub space_addr : ℕ
  pub flag_vmxrun : ℕ
  pub kvm_pfn_str : ℕ → KvmPfnSt
  pub num_vm_this : ℕ
  pub vmcswriteflag : ℕ
  pub value : ℕ
  pub pages : List ℕ
  pub pgd_addr_cp : ℕ
  pub next : ℕ → ℕ
  pub current_num_vm : ℕ
  pub flag_tdp : ℕ
  pub result_tdp_page_fault : ℕ
  pub result_kvm_mmu_load : ℕ
  pub result_root_hpa : ℕ
  pub root_hpa : ℕ → ℕ

abbrev pub note : Event → Cmd Machine (Unit {0})
note e = modify (λ m. record m { trace = e ∷ m.trace })

abbrev pub print : Notice → Cmd Machine (Unit {0})
print n = note (printed n)

unfoldable pub flush_tlb_all : Cmd Machine (Unit {0})
flush_tlb_all = note flushed

-- `pushf; cli`.
unfoldable pub disable_int_first : Cmd Machine (Unit {0})
disable_int_first = modify (λ m. record m { stack = m.interrupts ∷ m.stack; interrupts = false })

abbrev popf : List Bool → Cmd Machine (Unit {0})
popf [] m = fault
popf (i ∷ rest) m = ok tt (record m { stack = rest; interrupts = i })

-- `sti; popf`.
unfoldable pub enable_int : Cmd Machine (Unit {0})
enable_int m = popf m.stack (record m { interrupts = true })

unfoldable pub disable_int_second : Cmd Machine (Unit {0})
disable_int_second = modify (λ m. record m { interrupts = false })

unfoldable pub writecr3 : ℕ → Cmd Machine (Unit {0})
writecr3 val = modify (λ m. record m { cr3 = val })

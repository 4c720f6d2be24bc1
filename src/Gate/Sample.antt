-- ===== src/Gate/Sample.antt =====
-- A processor and globals to run examples on.
use hyper_mi.Base.{◌^◌, ◌-◌, true, []}
use hyper_mi.Gate.Machine.{Machine}

abbrev pub sample : Machine
sample = record {
  cr0 = 0x33;
  cr2 = 0;
  cr3 = 0x2000;
  cr4 = 0x20;
  cr8 = 0;
  gdtr = record { size = 127; address = 0x3000 };
  idtr = record { size = 4095; address = 0x4000 };
  ldtr = 0;
  interrupts = true;
  stack = [];
  memory = λ x. 0;
  trace = [];
  pgd_addr_cp_gate = 0;
  oldcr3 = 0;
  space_addr = 0x7000;
  flag_vmxrun = 0;
  kvm_pfn_str =
      λ i. record { kvm1 = 0; pfn_array_st = 0; num_pfn = 0; count_vmcs_wr = 1; kvm_vcpu_mo = 0 };
  num_vm_this = 0;
  vmcswriteflag = 0;
  value = 0;
  pages = [];
  pgd_addr_cp = 0;
  next = λ a. 0;
  current_num_vm = 0;
  flag_tdp = 0;
  result_tdp_page_fault = 0;
  result_kvm_mmu_load = 0;
  result_root_hpa = 2 ^ 64 - 1;
  root_hpa = λ vcpu. 0;
}

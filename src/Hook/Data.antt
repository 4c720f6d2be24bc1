-- ===== src/Hook/Data.antt =====
-- src/SecureVM/set_hook.h: the static data of the hooks. One site stands for a pair of globals
-- `mem_X` and `orig_code_X`; `plain` is the pair `mem` and `orig_code`. The two arrays of nine
-- bytes, orig_code_cr31 and orig_code_pte1, no function reads or writes.
use hyper_mi.Base.{ℕ, ◌==◌, Bool, List}

pub data Site : Type 0 where
  plain : Site
  cr3 : Site
  pte : Site
  pmd : Site
  pagefault : Site
  vmcs_write64 : Site
  vmcs_writel : Site
  vmcs_readl : Site
  vmcs_clear : Site
  handle_ept : Site
  kvm_mmu_page_fault : Site
  asm_sec_modify : Site
  vmx_vcpu_run : Site
  alloc_vmcs_sec : Site
  loaded_vmcs_init : Site
  free_loaded_vmcs : Site
  alloc_vmcs_modify : Site
  free_loaded_vmcs_modify : Site
  loaded_vmcs_init_modify : Site
  vmx_vcpu_load_modify : Site
  handle_vmcs_addr : Site
  loaded_vmcs_clear : Site
  free_vmcs : Site
  vmcs_load : Site
  alloc_kvm_area : Site
  vmx_create_vcpu : Site
  tdp_page_fault : Site
  kvm_vm_ioctl : Site
  kvm_mmu_load : Site
  vmx_flush_tlb : Site
  mmu_free_roots : Site
  vmx_handle_exit : Site
  handle_exit_modify : Site
  direct_map_modify : Site
  try_async_pf_modify : Site
  handle_pfn_modify : Site
  handle_pfn_map : Site
  ioremap : Site
  memcpy_fromio : Site
  memset_io : Site
  memcpy_toio : Site
  kvm_arch_alloc_vm : Site
  kvm_arch_free_vm : Site
  ksm_page_modify : Site
  clean_page_modify : Site
  testforshrinkpage_modify : Site
  inflate_page_modify : Site
  deflate_page_modify : Site

-- The place of a site among the globals.
unfoldable pub index : Site → ℕ
index plain = 0
index cr3 = 1
index pte = 2
index pmd = 3
index pagefault = 4
index vmcs_write64 = 5
index vmcs_writel = 6
index vmcs_readl = 7
index vmcs_clear = 8
index handle_ept = 9
index kvm_mmu_page_fault = 10
index asm_sec_modify = 11
index vmx_vcpu_run = 12
index alloc_vmcs_sec = 13
index loaded_vmcs_init = 14
index free_loaded_vmcs = 15
index alloc_vmcs_modify = 16
index free_loaded_vmcs_modify = 17
index loaded_vmcs_init_modify = 18
index vmx_vcpu_load_modify = 19
index handle_vmcs_addr = 20
index loaded_vmcs_clear = 21
index free_vmcs = 22
index vmcs_load = 23
index alloc_kvm_area = 24
index vmx_create_vcpu = 25
index tdp_page_fault = 26
index kvm_vm_ioctl = 27
index kvm_mmu_load = 28
index vmx_flush_tlb = 29
index mmu_free_roots = 30
index vmx_handle_exit = 31
index handle_exit_modify = 32
index direct_map_modify = 33
index try_async_pf_modify = 34
index handle_pfn_modify = 35
index handle_pfn_map = 36
index ioremap = 37
index memcpy_fromio = 38
index memset_io = 39
index memcpy_toio = 40
index kvm_arch_alloc_vm = 41
index kvm_arch_free_vm = 42
index ksm_page_modify = 43
index clean_page_modify = 44
index testforshrinkpage_modify = 45
index inflate_page_modify = 46
index deflate_page_modify = 47

abbrev pub same_site : Site → Site → Bool
same_site s t = index s == index t

-- Kernel text by byte address, page-table entries by their address, and the globals of the
-- hooks; `log` is what `printk` was given, last first.
pub record Kernel : Type 0 where
  pub text : ℕ → ℕ
  pub entry : ℕ → ℕ
  pub mem : Site → ℕ
  pub orig_code : Site → List ℕ
  pub log : List ℕ

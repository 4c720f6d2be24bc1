-- ===== src/Kvm/Vms.antt =====
-- The VM list as `new_tdp_page_fault` sees it, and the machine before and after KVM's handler.
use hyper_mi.Base.{ℕ, ◌+◌, ◌%◌, ◌^◌, ◌<◌, ◌≡◌, ◌≢◌, false, List, ◌∷◌, length, get_or}
use hyper_mi.Gate.Machine.{Machine, flushed}
use hyper_mi.Paging.Loop.{for_each}
use hyper_mi.Paging.Store.{PageKernel}
use hyper_mi.Paging.Copy.Shallow.{copy_word}
use hyper_mi.Kvm.Walk.{entered}

-- What KVM's handler leaves alone of the machine that it starts on.
pub record KeepsVms (m u : Machine) : Type 0 where
  pub stack : u.stack ≡ m.stack
  pub oldcr3 : u.oldcr3 ≡ m.oldcr3
  pub next : u.next ≡ m.next
  pub flag_tdp : u.flag_tdp ≡ m.flag_tdp
  pub num_vm_this : u.num_vm_this ≡ m.num_vm_this

-- The current VM is the one at `j`, which has run, last on `vcpu`.
pub record Marked (vcpu j : ℕ) (v : Machine) : Type 0 where
  pub this : v.num_vm_this ≡ j
  pub count : (v.kvm_pfn_str j).count_vmcs_wr ≡ 1
  pub runs_on : (v.kvm_pfn_str j).kvm_vcpu_mo ≡ vcpu

-- `j` is the first place at which `kvm` stands in the list.
pub record FirstAt (kvm : ℕ) (ps : List ℕ) (j : ℕ) : Type 0 where
  pub low : j < length ps
  pub here : get_or ps j 0 ≡ kvm
  pub first : (i : ℕ) → i < j → kvm ≢ get_or ps i 0

-- The machine on which KVM's handler starts: the kernel's half of the table that cr3 holds has been
-- copied onto itself.
abbrev pub handed : PageKernel → Machine → Machine
handed k m = record m {
  pgd_addr_cp_gate = k.va m.cr3;
  oldcr3 = m.cr3;
  memory = for_each 256 256 (copy_word (k.va m.cr3) (k.va m.cr3)) m.memory;
  trace = flushed ∷ m.trace;
  stack = m.interrupts ∷ m.stack;
  interrupts = false;
  cr3 = k.pa (k.va m.cr3);
  flag_tdp = (m.flag_tdp + 1) % 2 ^ 32;
}

-- The machine with the VMs in its array.
abbrev pub listed : List ℕ → Machine → Machine
listed ps m = record m { kvm_pfn_str = entered ps 0 m.kvm_pfn_str; current_num_vm = length ps }

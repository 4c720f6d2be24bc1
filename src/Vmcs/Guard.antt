-- ===== src/Vmcs/Guard.antt =====
-- What the guards of the VMCS accesses let through.
use hyper_mi.Base.{ℕ, ◌≤◌, ◌<◌, ◌≡◌, arith, Bool, true, false, ltb, ok, fault}
use hyper_mi.Gate.Machine.{Machine}
use hyper_mi.Vmcs.Access.{
  this_vm, mark_eptp, store_field, load_field, new_vmcs_writel, new_vmcs_readl,
}

module _ (pa va : ℕ → ℕ) (mode : ℕ → ℕ) (outside_guest_mode : ℕ) (m : Machine) where
  this_vm-ok : (k : Machine) → k.num_vm_this < 6 → this_vm k ≡ ok (k.kvm_pfn_str k.num_vm_this) k
  unfolding this_vm
  this_vm-ok k low = let e : ltb k.num_vm_this 6 ≡ true = ground arith in rw e

  this_vm-fault : (k : Machine) → 6 ≤ k.num_vm_this → this_vm k ≡ fault
  unfolding this_vm
  this_vm-fault k high = let e : ltb k.num_vm_this 6 ≡ false = ground arith in rw e

  -- `count_vmcs_wr` is unsigned.
  never-negative : (n : ℕ) → ltb n 0 ≡ false
  never-negative n = ground arith

  module _ (vmwrite : ℕ → ℕ → Machine → Bool × Machine) (field value : ℕ) where
    -- For each of the six VMs, whatever the mode of the virtual CPU and whatever the field, the
    -- replacement writes the field as the plain instruction does: the guard refuses no write. Of
    -- its own it only remembers a write of the EPT pointer.
    pub new_vmcs_writel-unguarded :
        m.num_vm_this < 6
        → new_vmcs_writel vmwrite pa va mode outside_guest_mode field value m
          ≡ store_field vmwrite field value (mark_eptp field m)
    unfolding new_vmcs_writel
    new_vmcs_writel-unguarded low = rw (
      this_vm-ok (mark_eptp field m) low,
      never-negative (m.kvm_pfn_str m.num_vm_this).count_vmcs_wr,
    )

  module _ (vmread : ℕ → Machine → ℕ) (field : ℕ) where
    abbrev saved : Machine
    saved = record m { pgd_addr_cp_gate = va m.cr3; oldcr3 = m.cr3 }

    -- For each of the six VMs the replacement returns what the plain instruction reads, and keeps
    -- it in the global `value`.
    pub new_vmcs_readl-reads :
        m.num_vm_this < 6
        → new_vmcs_readl vmread pa va mode outside_guest_mode field m
          ≡ ok (vmread field saved) (record saved { value = vmread field saved })
    unfolding new_vmcs_readl load_field
    new_vmcs_readl-reads low =
        rw (this_vm-ok saved low, never-negative (m.kvm_pfn_str m.num_vm_this).count_vmcs_wr)

  -- With a VM number of six or more both replacements access the array of VMs out of bounds.
  vmcs_access-fault :
      (vmwrite : ℕ → ℕ → Machine → Bool × Machine) (vmread : ℕ → Machine → ℕ) (field value : ℕ)
      → 6 ≤ m.num_vm_this
      → (new_vmcs_writel vmwrite pa va mode outside_guest_mode field value m ≡ fault)
        × (new_vmcs_readl vmread pa va mode outside_guest_mode field m ≡ fault)
  unfolding new_vmcs_writel new_vmcs_readl
  vmcs_access-fault vmwrite vmread field value high = (
    rw (this_vm-fault (mark_eptp field m) high),
    rw (this_vm-fault (record m { pgd_addr_cp_gate = va m.cr3; oldcr3 = m.cr3 }) high),
  )

-- ===== src/Kvm/Admits.antt =====
-- A page fault of a VM, and the accesses to its VMCS that follow.
use hyper_mi.Base.{
  ℕ, zero, suc, ◌+◌, ◌^◌, ◌≤◌, ◌<◌, ◌≡◌, ◌≢◌, ◌⊎◌, refl, arith, Bool, false, ◌==◌, Bool-cases, inl,
  inr, update, List, [], ◌∷◌, length, get_or, Cmd, Returns,
}
use hyper_mi.Gate.Machine.{Machine}
use hyper_mi.Gate.Writes.{Restored}
use hyper_mi.Paging.Store.{PageKernel}
use hyper_mi.Vmcs.Access.{mark_eptp, store_field, new_vmcs_writel, new_vmcs_readl}
use hyper_mi.Vmcs.Guard.{new_vmcs_writel-unguarded, new_vmcs_readl-reads}
use hyper_mi.Kvm.Tdp.{new_tdp_page_fault}
use hyper_mi.Kvm.Walk.{Chain}
use hyper_mi.Kvm.Vms.{KeepsVms, FirstAt}
use hyper_mi.Kvm.Finds.{new_tdp_page_fault-finds, new_tdp_page_fault-misses}

absent_on :
    (kvm p n : ℕ) (ps : List ℕ)
    → (kvm == p) ≡ false
    → ((i : ℕ) → i < n → kvm ≢ get_or ps i 0)
    → (i : ℕ) → i < suc n
    → kvm ≢ get_or (p ∷ ps) i 0
absent_on kvm p n ps other none zero low e = absurd (ground arith)
absent_on kvm p n ps other none (suc i) low e = none i (omega arith) e

-- A VM has a first place in the list, or it is not on it.
first_or_absent :
    (kvm : ℕ) (ps : List ℕ)
    → ((j : ℕ) × FirstAt kvm ps j) ⊎ ((i : ℕ) → i < length ps → kvm ≢ get_or ps i 0)
first_or_absent kvm [] = inr (λ i low e. absurd (omega arith))
first_or_absent kvm (p ∷ ps) = elim (Bool-cases (kvm == p)) [
  | inl now ↦ inl (
    zero,
    record { low = omega arith; here = ground arith; first = λ i low e. absurd (omega arith) },
  )
  | inr other ↦ elim (first_or_absent kvm ps) [
    | inl (j, at) ↦ inl (
      suc j,
      record {
        low = omega (arith, at.low);
        here = at.here;
        first = absent_on kvm p j ps other at.first;
      },
    )
    | inr none ↦ inr (λ i low. absent_on kvm p (length ps) ps other none i (omega arith))
  ]
]

module _ (k : PageKernel) (stores : (a v : ℕ) (f : ℕ → ℕ) → k.set_pgd a v f ≡ update f a v)
    (vcpu_kvm vm_list : ℕ → ℕ) (tdp_page_fault_modify : ℕ → ℕ → ℕ → ℕ → Cmd Machine ℕ)
    (vcpu gpa error_code prefault : ℕ) (m : Machine)
    (returns : (n : Machine)
      → Returns (tdp_page_fault_modify vcpu gpa error_code prefault n) λ _ u. KeepsVms n u)
    (counts : m.flag_tdp + 1 < 2 ^ 32) (ps : List ℕ)
    (chain : Chain m.next (m.next (m.next (vm_list (vcpu_kvm vcpu)))) ps) where
  new_tdp_page_fault-low :
      length ps ≤ 6
      → m.num_vm_this < 6
      → Returns
          (new_tdp_page_fault k vcpu_kvm vm_list tdp_page_fault_modify vcpu gpa error_code prefault
            m)
          λ _ v. Restored m v × (v.num_vm_this < 6)
  new_tdp_page_fault-low fits low = elim (first_or_absent (vcpu_kvm vcpu) ps) [
    | inl (j, at) ↦
        let (r, v, run, p) =
          new_tdp_page_fault-finds k stores vcpu_kvm vm_list tdp_page_fault_modify vcpu gpa
            error_code prefault m returns counts ps chain j fits at in
        let this = p.1.this in (r, v, run, (p.0.3, omega (arith, this, at.low)))
    | inr none ↦
        let (r, v, run, p) =
          new_tdp_page_fault-misses k stores vcpu_kvm vm_list tdp_page_fault_modify vcpu gpa
            error_code prefault m returns counts ps chain fits low none in
        let this = p.1.this in (r, v, run, (p.0.3, omega (arith, this)))
  ]

  -- If the kernel's set_pgd stores what it is given, KVM's handler returns with the stack, the
  -- saved cr3, the list of VMs, flag_tdp and the current VM's number unchanged, the calls counted
  -- so far stay below 2^32, at most six VMs are read from the list, and the number of the current
  -- VM is below six: the page fault returns on the address space, interrupt flag and stack of
  -- before, and the accesses to the VMCS that follow do not fault: a write is that of the plain
  -- instruction, and a read returns what that reads.
  pub new_tdp_page_fault-admits :
      (pa va mode : ℕ → ℕ) (outside_guest_mode : ℕ) (vmwrite : ℕ → ℕ → Machine → Bool × Machine)
      (vmread : ℕ → Machine → ℕ) (field value : ℕ)
      → length ps ≤ 6
      → m.num_vm_this < 6
      → Returns
          (new_tdp_page_fault k vcpu_kvm vm_list tdp_page_fault_modify vcpu gpa error_code prefault
            m)
          λ _ v.
            Restored m v
            × (new_vmcs_writel vmwrite pa va mode outside_guest_mode field value v
                ≡ store_field vmwrite field value (mark_eptp field v))
            × Returns (new_vmcs_readl vmread pa va mode outside_guest_mode field v) (λ read w.
              (read ≡ vmread field (record v { pgd_addr_cp_gate = va v.cr3; oldcr3 = v.cr3 }))
              × (w.cr3 ≡ m.cr3))
  new_tdp_page_fault-admits pa va mode outside_guest_mode vmwrite vmread field value fits low =
      let (r, v, run, p) = new_tdp_page_fault-low fits low in
      (
        r,
        v,
        run,
        (
          p.0,
          new_vmcs_writel-unguarded pa va mode outside_guest_mode v vmwrite field value p.1,
          (
            _,
            _,
            new_vmcs_readl-reads pa va mode outside_guest_mode v vmread field p.1,
            (refl, p.0.cr3),
          ),
        ),
      )

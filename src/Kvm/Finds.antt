-- ===== src/Kvm/Finds.antt =====
-- Which VM `new_tdp_page_fault` takes for the current one.
use hyper_mi.Base.{
  ℕ, ◌+◌, ◌%◌, ◌^◌, ◌≤◌, ◌<◌, ◌≡◌, ◌≢◌, refl, sym, ◌∙◌, arith, true, false, ltb, ◌==◌, ==_of_ne,
  ==_refl, Bool-cases, inl, inr, update, List, ◌∷◌, length, get_or, Cmd, ok, fault, Returns, ◌>>◌,
}
use mathlib.Core.Path.{subst}
use hyper_mi.Gate.Machine.{Machine, enable_int, writecr3}
use hyper_mi.Gate.Writes.{Restored}
use hyper_mi.Paging.Store.{PageKernel}
use hyper_mi.Paging.Copy.Shallow.{update_pagetable-copy_word}
use hyper_mi.Kvm.Tdp.{find_vm, store_of, enter_vms, mark_vm, new_tdp_page_fault}
use hyper_mi.Kvm.Walk.{
  Chain, entered-all, list_vms-entered, list_vms-overruns, find_vm-found, find_vm-none,
}
use hyper_mi.Kvm.Vms.{KeepsVms, Marked, FirstAt, handed, listed}

module _ (k : PageKernel) (stores : (a v : ℕ) (f : ℕ → ℕ) → k.set_pgd a v f ≡ update f a v)
    (vcpu_kvm vm_list : ℕ → ℕ) (tdp_page_fault_modify : ℕ → ℕ → ℕ → ℕ → Cmd Machine ℕ)
    (vcpu gpa error_code prefault : ℕ) (m : Machine) where
  abbrev head : ℕ
  head = m.next (vm_list (vcpu_kvm vcpu))

  -- What follows KVM's handler.
  abbrev finish : Cmd Machine ℕ
  finish =
      enter_vms k vcpu_kvm vm_list tdp_page_fault_modify vcpu head
      >> mark_vm k vcpu_kvm vm_list tdp_page_fault_modify vcpu
      >> enable_int
      >> (λ u. writecr3 u.oldcr3 u)
      >> λ u. ok u.result_tdp_page_fault u

  new_tdp_page_fault-split :
      (r : ℕ) (u : Machine)
      → tdp_page_fault_modify vcpu gpa error_code prefault (handed k m) ≡ ok r u
      → new_tdp_page_fault k vcpu_kvm vm_list tdp_page_fault_modify vcpu gpa error_code prefault m
        ≡ finish (record u { result_tdp_page_fault = r })
  unfolding new_tdp_page_fault
  new_tdp_page_fault-split r u e = rw (
    update_pagetable-copy_word k stores (k.va m.cr3)
        (store_of (record m { pgd_addr_cp_gate = k.va m.cr3; oldcr3 = m.cr3 })),
    e,
  )

  -- The machine in whose array the current VM has been marked, outside the gate.
  abbrev marked : Machine → Machine
  marked w = record w {
    kvm_pfn_str =
        update w.kvm_pfn_str w.num_vm_this
          (record (w.kvm_pfn_str w.num_vm_this) { count_vmcs_wr = 1; kvm_vcpu_mo = vcpu });
    stack = m.stack;
    interrupts = m.interrupts;
    cr3 = m.cr3;
  }

  marked-Marked : (w : Machine) → Marked vcpu w.num_vm_this (marked w)
  marked-Marked w = record {
    this = refl;
    count = rw (==_refl w.num_vm_this);
    runs_on = rw (==_refl w.num_vm_this);
  }

  marked-kvm1 : (w : Machine) (n : ℕ) → ((marked w).kvm_pfn_str n).kvm1 ≡ (w.kvm_pfn_str n).kvm1
  marked-kvm1 w n = elim (Bool-cases (n == w.num_vm_this)) [
    | inl now ↦ let e : n ≡ w.num_vm_this = ground arith in rw (e, ==_refl w.num_vm_this)
    | inr other ↦ rw other
  ]

  marked-closes :
      (w : Machine)
      → w.stack ≡ m.interrupts ∷ m.stack
      → w.oldcr3 ≡ m.cr3
      → w.num_vm_this < 6
      → (mark_vm k vcpu_kvm vm_list tdp_page_fault_modify vcpu
            >> enable_int
            >> (λ u. writecr3 u.oldcr3 u)
            >> λ u. ok u.result_tdp_page_fault u)
          w
        ≡ ok w.result_tdp_page_fault (marked w)
  unfolding mark_vm enable_int writecr3
  marked-closes w s c low =
      let in_array : ltb w.num_vm_this 6 ≡ true = ground arith in rw (in_array, s, c)

  -- The array is filled and searched, and what is found is marked.
  finish-marked :
      (ps : List ℕ) (u w : Machine)
      → (u.flag_tdp == 0) ≡ false
      → Chain u.next (u.next head) ps
      → length ps ≤ 6
      → find_vm (length ps) 0 (vcpu_kvm vcpu) (listed ps u) ≡ w
      → w.stack ≡ m.interrupts ∷ m.stack
      → w.oldcr3 ≡ m.cr3
      → w.num_vm_this < 6
      → finish u ≡ ok w.result_tdp_page_fault (marked w)
  unfolding enter_vms
  finish-marked ps u w flag chain fits found s c low =
      let e =
        list_vms-entered ps 7 (u.next head) (record u { current_num_vm = 0 }) chain (omega arith)
          (omega arith) in
      let z : 0 + length ps ≡ length ps = omega arith in
      rw (flag, e, z, found) (marked-closes w s c low)

  -- A list that does not fit.
  finish-overruns :
      (ps : List ℕ) (u : Machine)
      → (u.flag_tdp == 0) ≡ false
      → Chain u.next (u.next head) ps
      → 6 < length ps
      → finish u ≡ fault
  unfolding enter_vms
  finish-overruns ps u flag chain over = rw (
    flag,
    list_vms-overruns ps 7 (u.next head) (record u { current_num_vm = 0 }) chain (omega arith)
        (omega arith) (omega arith),
  )

  module _
      (returns : (n : Machine)
        → Returns (tdp_page_fault_modify vcpu gpa error_code prefault n) λ _ u. KeepsVms n u)
      (counts : m.flag_tdp + 1 < 2 ^ 32) (ps : List ℕ) (chain : Chain m.next (m.next head) ps) where
    -- KVM's result and memory, in the machine of before.
    abbrev pub Handles : ℕ → Machine → Type 0
    Handles r v =
        (u : Machine) × (tdp_page_fault_modify vcpu gpa error_code prefault (handed k m) ≡ ok r u)
        × (v.memory ≡ u.memory)
        × Restored m v

    counted : (u : Machine) → KeepsVms (handed k m) u → (u.flag_tdp == 0) ≡ false
    counted u keeps =
        let e = keeps.flag_tdp in
        let some : (m.flag_tdp + 1) % 2 ^ 32 ≡ m.flag_tdp + 1 = omega arith in
        rw (e, some) (==_of_ne (m.flag_tdp + 1) 0 (λ z. absurd (omega arith)))

    still_chain : (u : Machine) → KeepsVms (handed k m) u → Chain u.next (u.next head) ps
    still_chain u keeps = subst (λ f. Chain f (f head) ps) (sym keeps.next) chain

    -- If the kernel's set_pgd stores what it is given, KVM's handler returns with the stack, the
    -- saved cr3, the list of VMs, flag_tdp and the current VM's number unchanged, the calls counted
    -- so far stay below 2^32, and the VM of the virtual CPU is on the list, read from the second
    -- list head after its own, among at most six, first at j: then the call returns KVM's result
    -- and memory, restores cr3, the interrupt flag and the stack, and makes entry j, which holds
    -- that VM, the current one, marked as run on this virtual CPU.
    pub new_tdp_page_fault-finds :
        (j : ℕ)
        → length ps ≤ 6
        → FirstAt (vcpu_kvm vcpu) ps j
        → Returns
            (new_tdp_page_fault k vcpu_kvm vm_list tdp_page_fault_modify vcpu gpa error_code
              prefault m)
            λ r v. Handles r v × Marked vcpu j v × ((v.kvm_pfn_str j).kvm1 ≡ vcpu_kvm vcpu)
    new_tdp_page_fault-finds j fits at =
        let (r, u, run, keeps) = returns (handed k m) in
        let t = record u { result_tdp_page_fault = r } in
        let here = entered-all ps j t.kvm_pfn_str at.low in
        let found =
          find_vm-found (length ps) 0 j (vcpu_kvm vcpu) (listed ps t) (omega arith)
            (omega (arith, at.low)) (here ∙ at.here)
            (λ l low before. ==_of_ne _ _ λ e.
              at.first l before (e ∙ entered-all ps l t.kvm_pfn_str (omega (arith, at.low)))) in
        rw
          (
            new_tdp_page_fault-split r u run,
            finish-marked ps t _ (counted u keeps) (still_chain u keeps) fits found keeps.stack
                keeps.oldcr3 (omega (arith, at.low)),
          )
          (
            r,
            _,
            refl,
            (
              (u, run, refl, record { cr3 = refl; interrupts = refl; stack = refl }),
              marked-Marked (record (listed ps t) { num_vm_this = j }),
              marked-kvm1 (record (listed ps t) { num_vm_this = j }) j ∙ here ∙ at.here,
            ),
          )

    -- If the kernel's set_pgd stores what it is given, KVM's handler returns with the stack, the
    -- saved cr3, the list of VMs, flag_tdp and the current VM's number unchanged, the calls counted
    -- so far stay below 2^32, the number of the current VM is below six, and the VM of the virtual
    -- CPU is not among the at most six VMs that are read from the second list head after its own:
    -- then the call returns KVM's result and memory and restores cr3, the interrupt flag and the
    -- stack; the current VM stays the one of before, although its entry, if it was listed, holds
    -- another VM, and that entry is marked as run on this virtual CPU.
    pub new_tdp_page_fault-misses :
        length ps ≤ 6
        → m.num_vm_this < 6
        → ((i : ℕ) → i < length ps → vcpu_kvm vcpu ≢ get_or ps i 0)
        → Returns
            (new_tdp_page_fault k vcpu_kvm vm_list tdp_page_fault_modify vcpu gpa error_code
              prefault m)
            λ r v.
              Handles r v
              × Marked vcpu m.num_vm_this v
              × (m.num_vm_this < length ps → (v.kvm_pfn_str m.num_vm_this).kvm1 ≢ vcpu_kvm vcpu)
    new_tdp_page_fault-misses fits low absent =
        let (r, u, run, keeps) = returns (handed k m) in
        let t = record u { result_tdp_page_fault = r } in
        let same : u.num_vm_this ≡ m.num_vm_this = keeps.num_vm_this in
        let found = find_vm-none (length ps) 0 (vcpu_kvm vcpu) (listed ps t) (λ l p q.
          ==_of_ne _ _
            λ e. absent l (omega arith) (e ∙ entered-all ps l t.kvm_pfn_str (omega arith))) in
        rw
          (
            new_tdp_page_fault-split r u run,
            finish-marked ps t _ (counted u keeps) (still_chain u keeps) fits found keeps.stack
                keeps.oldcr3 (omega (arith, same)),
          )
          (
            r,
            _,
            refl,
            (
              (u, run, refl, record { cr3 = refl; interrupts = refl; stack = refl }),
              subst (λ n. Marked vcpu n (marked (listed ps t))) same (marked-Marked (listed ps t)),
              λ p e. absent m.num_vm_this p (
                  sym e
                  ∙ marked-kvm1 (listed ps t) m.num_vm_this
                  ∙ entered-all ps m.num_vm_this t.kvm_pfn_str p),
            ),
          )

    -- If the kernel's set_pgd stores what it is given, KVM's handler returns with the stack, the
    -- saved cr3, the list of VMs, flag_tdp and the current VM's number unchanged, the calls counted
    -- so far stay below 2^32, and more than six VMs are read from the second list head after that
    -- of the virtual CPU's VM, the walk writes past the end of the array.
    pub new_tdp_page_fault-overruns :
        6 < length ps
        → new_tdp_page_fault k vcpu_kvm vm_list tdp_page_fault_modify vcpu gpa error_code prefault m
          ≡ fault
    new_tdp_page_fault-overruns over =
        let (r, u, run, keeps) = returns (handed k m) in
        new_tdp_page_fault-split r u run
        ∙ finish-overruns ps (record u { result_tdp_page_fault = r }) (counted u keeps)
            (still_chain u keeps) over

-- ===== src/Kvm/Roots.antt =====
-- The replacements that handle the root of a virtual CPU's page tables.
use hyper_mi.Base.{
  ℕ, ◌≡◌, refl, ◌∙◌, Bool, true, false, not, ◌&&◌, ◌==◌, if◌then◌else◌, Bool-cases, inl, inr,
  update, ◌∷◌, Cmd, ok, ◌>>◌, Returns,
}
use hyper_mi.Gate.Machine.{Machine, root_differs_notice, flushed, printed}
use hyper_mi.Gate.Switch.{close_gate, close_gate-outside}
use hyper_mi.Gate.Writes.{Restored}
use hyper_mi.Gate.Faults.{finish_exact}
use hyper_mi.Kvm.Mmu.{new_kvm_mmu_load, restore_root, new_vmx_flush_tlb, new_mmu_free_roots}

-- The roots once the saved one has been put back, which is done where it is valid and not 0.
abbrev pub roots : (ℕ → Bool) → ℕ → Machine → ℕ → ℕ
roots valid_page vcpu m =
    if valid_page m.result_root_hpa && not (m.result_root_hpa == 0)
    then update m.root_hpa vcpu m.result_root_hpa
    else m.root_hpa

-- KVM's part runs with interrupts off, on the given root table and MMU roots; it returns with the
-- stack and the saved cr3 that it found, and achieves `P`.
abbrev pub RunsOn :
    Cmd Machine (Unit {0}) → (cr3 : ℕ) → (root_hpa : ℕ → ℕ) → (Machine → Type 0) → Type 0
RunsOn sec cr3 root_hpa P =
    (n : Machine)
    → n.interrupts ≡ false
    → n.cr3 ≡ cr3
    → n.root_hpa ≡ root_hpa
    → Returns (sec n) λ _ u. (u.stack ≡ n.stack) × (u.oldcr3 ≡ n.oldcr3) × P u

-- The machine of before around what KVM's part achieved.
abbrev Around : Machine → (Machine → Type 0) → Machine → Type 0
Around m P v = Restored m v × ((u : Machine) × P u × (v.memory ≡ u.memory))

-- The machine that KVM's part left, `P` holds of it, with cr3, the interrupt flag and the stack of
-- before.
abbrev pub Back : Machine → (Machine → Type 0) → Machine → Type 0
Back m P v =
    (u : Machine) × P u × (v ≡ record u { stack = m.stack; interrupts = m.interrupts; cr3 = m.cr3 })

module _ (pa va : ℕ → ℕ) (valid_page : ℕ → Bool) (vcpu : ℕ) (m : Machine) where
  restore_root-roots :
      (n : Machine)
      → restore_root pa va valid_page vcpu n
        ≡ ok tt (record n { root_hpa = roots valid_page vcpu n })
  unfolding restore_root
  restore_root-roots n = elim (Bool-cases (valid_page n.result_root_hpa)) [
    | inl valid ↦ elim (Bool-cases (n.result_root_hpa == 0)) [
      | inl none ↦ rw (valid, none)
      | inr some ↦ rw (valid, some)
    ]
    | inr invalid ↦ rw invalid
  ]

  -- Where KVM's flush starts.
  abbrev quiet : Machine
  quiet = record m {
    pgd_addr_cp_gate = va m.cr3;
    oldcr3 = m.cr3;
    stack = m.interrupts ∷ m.stack;
    interrupts = false;
    cr3 = pa (va m.cr3);
  }

  -- And where its release of the roots does, but for the roots and a line that is printed.
  abbrev noisy : Machine
  noisy = record quiet { trace = flushed ∷ flushed ∷ m.trace }

  closes :
      (sec : Cmd Machine (Unit {0})) (P : Machine → Type 0) (n : Machine)
      → n.stack ≡ m.interrupts ∷ m.stack
      → n.oldcr3 ≡ m.cr3
      → Returns (sec n) (λ _ u. (u.stack ≡ n.stack) × (u.oldcr3 ≡ n.oldcr3) × P u)
      → Returns ((sec >> close_gate) n) λ _ v. Around m P v
  closes sec P n s c (a, u, e, p) =
      rw (e, close_gate-outside pa va m u (record { stack = p.0 ∙ s; oldcr3 = p.1 ∙ c }))
        (tt, _, refl, (record { cr3 = refl; interrupts = refl; stack = refl }, (u, p.2, refl)))

  module _ (sec : ℕ → Cmd Machine (Unit {0})) (P : Machine → Type 0)
      (runs : RunsOn (sec vcpu) (pa (va m.cr3)) (roots valid_page vcpu m) P) where
    -- If KVM's flush returns with the stack and the saved cr3 that it found, it runs with the saved
    -- root put back where that is valid and not 0, and with the roots of before otherwise; the
    -- whole returns, with the machine that KVM's flush left, but for cr3, the interrupt flag and the
    -- stack, which are those of before.
    pub new_vmx_flush_tlb-runs :
        Returns (new_vmx_flush_tlb pa va valid_page sec vcpu m) λ _ v. Back m P v
    unfolding new_vmx_flush_tlb
    new_vmx_flush_tlb-runs =
        let n = record quiet { root_hpa = roots valid_page vcpu m } in
        rw (restore_root-roots quiet)
          (finish_exact m n (sec vcpu) P refl refl (runs n refl refl refl))

    -- If KVM's release of the roots returns with the stack and the saved cr3 that it found, it runs
    -- with the saved root put back where that is valid and not 0, and with the roots of before
    -- otherwise; the whole returns, with cr3, the interrupt flag and the stack restored, and what
    -- KVM's achieved.
    new_mmu_free_roots-runs :
        Returns (new_mmu_free_roots pa va valid_page sec vcpu m) λ _ v. Around m P v
    unfolding new_mmu_free_roots
    new_mmu_free_roots-runs =
        let told = record noisy { trace = printed root_differs_notice ∷ noisy.trace } in
        let from_same = record noisy { root_hpa = roots valid_page vcpu m } in
        let from_told = record told { root_hpa = roots valid_page vcpu m } in
        elim (Bool-cases (m.root_hpa vcpu == m.result_root_hpa)) [
          | inl same ↦
              rw (same, restore_root-roots noisy)
                (closes (sec vcpu) P from_same refl refl (runs from_same refl refl refl))
          | inr differs ↦
              rw (differs, restore_root-roots told)
                (closes (sec vcpu) P from_told refl refl (runs from_told refl refl refl))
        ]

-- If KVM's function returns with the stack and the saved cr3 that it found, the call returns its
-- result and memory, and restores cr3, the interrupt flag and the stack.
new_kvm_mmu_load-returns :
    (pa va : ℕ → ℕ) (kvm_mmu_load_modify : ℕ → Cmd Machine ℕ) (vcpu : ℕ) (m : Machine)
    (P : ℕ → Machine → Type 0)
    → ((n : Machine)
        → n.interrupts ≡ false
        → n.cr3 ≡ pa (va m.cr3)
        → Returns
            (kvm_mmu_load_modify vcpu n)
            λ r u. (u.stack ≡ n.stack) × (u.oldcr3 ≡ n.oldcr3) × P r u)
    → Returns (new_kvm_mmu_load pa va kvm_mmu_load_modify vcpu m) λ r v. Around m (P r) v
unfolding new_kvm_mmu_load
new_kvm_mmu_load-returns pa va kvm_mmu_load_modify vcpu m P runs =
    let (r, u, e, p) = runs (noisy pa va (λ _. true) vcpu m) refl refl in
    let t = record u { result_kvm_mmu_load = r } in
    rw (e, close_gate-outside pa va m t (record { stack = p.0; oldcr3 = p.1 }))
      (r, _, refl, (record { cr3 = refl; interrupts = refl; stack = refl }, (u, p.2, refl)))

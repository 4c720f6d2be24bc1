-- ===== src/Kvm/Sets.antt =====
-- What the search for a frame finds, and what the set-up of the module leaves.
use hyper_mi.Base.{
  update, ℕ, zero, suc, ◌+◌, ◌≤◌, ◌<◌, ◌≡◌, ◌≢◌, ◌⊎◌, inl, inr, refl, ap, sym, ◌∙◌, arith, ◌==◌,
  if◌then◌else◌, Bool-cases, ==_refl, ==_of_ne, List, ◌∷◌, bit_or, Cmd, ok, Returns,
}
use hyper_mi.Gate.Machine.{Machine, printed, monitor_notice}
use hyper_mi.Gate.Switch.{inside}
use hyper_mi.Gate.Writes.{Restored}
use hyper_mi.Kvm.Search.{is_in_pfn_from, is_in_pfn}
use hyper_mi.Kvm.Start.{get_zeroed_page, clear_counts, init_struct, sec_monitor_test}

-- Whether `pfn` stands among the places from `i` on, before `i + n`.
abbrev Answers : (ℕ → ℕ) → ℕ → ℕ → ℕ → ℕ → Type 0
Answers pfn_array_tmp i n pfn answer =
    ((answer ≡ 1) × ((j : ℕ) × (i ≤ j) × (j < i + n) × (pfn_array_tmp j ≡ pfn)))
    ⊎ ((answer ≡ 0) × ((j : ℕ) → i ≤ j → j < i + n → pfn_array_tmp j ≢ pfn))

is_in_pfn_from-Answers : (n i pfn : ℕ) (f : ℕ → ℕ) → Answers f i n pfn (is_in_pfn_from n i f pfn)
unfolding is_in_pfn_from
is_in_pfn_from-Answers zero i pfn f = inr (refl, λ j low high e. absurd (omega arith))
is_in_pfn_from-Answers (suc n) i pfn f = elim (Bool-cases (f i == pfn)) [
  | inl here ↦ rw here (inl (refl, (i, omega arith, omega arith, ground arith)))
  | inr other ↦ rw other (elim (is_in_pfn_from-Answers n (i + 1) pfn f) [
    | inl (e, hit) ↦ let (j, low, high, here) = hit in inl (e, (j, omega arith, omega arith, here))
    | inr (e, none) ↦ inr (
      e,
      λ j low high here. elim (Bool-cases (j == i)) [
        | inl now ↦
            let same : j ≡ i = ground arith in
            let hit : f i ≡ pfn = sym (ap f same) ∙ here in absurd (ground arith)
        | inr later ↦ none j (ground arith) (omega arith) here
      ],
    )
  ])
]

-- The search answers 1 where the frame stands among the first entries of the array, of the number
-- given, and 0 where it does not.
is_in_pfn-Answers :
    (pfn_array_tmp : ℕ → ℕ) (number_pfn pfn : ℕ)
    → Answers pfn_array_tmp 0 number_pfn pfn (is_in_pfn pfn_array_tmp number_pfn pfn)
unfolding is_in_pfn
is_in_pfn-Answers pfn_array_tmp number_pfn pfn =
    is_in_pfn_from-Answers number_pfn 0 pfn pfn_array_tmp

clear_counts-other :
    (clear_page : ℕ → (ℕ → ℕ) → ℕ → ℕ) (n i j : ℕ) (m : Machine)
    → j < i
    → (clear_counts clear_page n i m).kvm_pfn_str j ≡ m.kvm_pfn_str j
unfolding clear_counts
clear_counts-other clear_page zero i j m low = refl
clear_counts-other clear_page (suc n) i j m low =
    clear_counts-other clear_page n (i + 1) j _ (omega arith)
    ∙ rw (==_of_ne j i (λ e. absurd (omega arith)))

clear_counts-clears :
    (clear_page : ℕ → (ℕ → ℕ) → ℕ → ℕ) (n i j : ℕ) (m : Machine)
    → i ≤ j
    → j < i + n
    → ((clear_counts clear_page n i m).kvm_pfn_str j).count_vmcs_wr ≡ 0
unfolding clear_counts
clear_counts-clears clear_page zero i j m low high = absurd (omega arith)
clear_counts-clears clear_page (suc n) i j m low high = elim (Bool-cases (j == i)) [
  | inl now ↦
      let same : j ≡ i = ground arith in
      ap (λ v. v.count_vmcs_wr) (clear_counts-other clear_page n (i + 1) j _ (omega arith))
      ∙ rw (same, ==_refl i)
  | inr later ↦ clear_counts-clears clear_page n (i + 1) j _ (ground arith) (omega arith)
]

-- The registers that the gate restores, and the pages of the allocator, are those of before.
pub record IsSteady (m u : Machine) : Type 0 where
  pub restored : Restored m u
  pub pages : u.pages ≡ m.pages

clear_counts-IsSteady :
    (clear_page : ℕ → (ℕ → ℕ) → ℕ → ℕ) (n i : ℕ) (m : Machine)
    → IsSteady m (clear_counts clear_page n i m)
unfolding clear_counts
clear_counts-IsSteady clear_page zero i m = record {
  restored = record { cr3 = refl; interrupts = refl; stack = refl };
  pages = refl;
}
clear_counts-IsSteady clear_page (suc n) i m =
    let h = clear_counts-IsSteady clear_page n (i + 1) (record m {
      kvm_pfn_str = update m.kvm_pfn_str i (record (m.kvm_pfn_str i) { count_vmcs_wr = 0 });
    }) in
    record {
      restored = record {
        cr3 = h.restored.cr3;
        interrupts = h.restored.interrupts;
        stack = h.restored.stack;
      };
      pages = h.pages;
    }

-- No VM counts as having run.
abbrev pub NoneRan : Machine → Type 0
NoneRan m = (j : ℕ) → j < 6 → (m.kvm_pfn_str j).count_vmcs_wr ≡ 0

-- A write of a control register of the kernel.
abbrev pub IsWrite : (ℕ → Cmd Machine (Unit {0})) → Type 0
IsWrite write = (v : ℕ) (n : Machine) → Returns (write v n) λ _ u. IsSteady n u

module _ (clear_page : ℕ → (ℕ → ℕ) → ℕ → ℕ) (a : ℕ) (rest : List ℕ) (m : Machine)
    (given : m.pages ≡ a ∷ rest) where
  -- The machine after the allocator has answered.
  abbrev drawn : Machine → Machine
  drawn n = record n { pages = rest; memory = if a == 0 then n.memory else clear_page a n.memory }

  get_zeroed_page-drawn :
      (n : Machine) → n.pages ≡ a ∷ rest → get_zeroed_page clear_page n ≡ ok a (drawn n)
  unfolding get_zeroed_page
  get_zeroed_page-drawn n e = rw e

  -- If the allocator answers and the kernel's writes of cr0 and cr4 return and leave cr3, the
  -- interrupt flag, the stack and the allocator alone, so does the set-up; it returns the page of
  -- the allocator, also a failure, and no VM counts as having run.
  pub init_struct-clears :
      (write_cr0 write_cr4 : ℕ → Cmd Machine (Unit {0}))
      → IsWrite write_cr0
      → IsWrite write_cr4
      → Returns
          (init_struct clear_page write_cr0 write_cr4 m)
          λ r u. (r ≡ a) × Restored m u × (u.pages ≡ rest) × NoneRan u
  unfolding init_struct
  init_struct-clears write_cr0 write_cr4 write0 write4 =
      let (x, u, e, o) = write0 (bit_or m.cr0 0x100) (drawn m) in
      let (y, v, f, p) = write4 (bit_or m.cr4 0x100) u in
      let h = clear_counts-IsSteady clear_page 6 0 v in
      rw (get_zeroed_page-drawn m given, e, f)
        (
          a,
          _,
          refl,
          (
            refl,
            record {
              cr3 = h.restored.cr3 ∙ p.restored.cr3 ∙ o.restored.cr3;
              interrupts = h.restored.interrupts ∙ p.restored.interrupts ∙ o.restored.interrupts;
              stack = h.restored.stack ∙ p.restored.stack ∙ o.restored.stack;
            },
            h.pages ∙ p.pages ∙ o.pages,
            λ j low. clear_counts-clears clear_page 6 0 j v (omega arith) (omega arith),
          ),
        )

  -- If the allocator answers, the trial of the gate ends with cr3, the interrupt flag and the stack
  -- of before and the VMs as they were, and the page that it drew stays drawn.
  pub sec_monitor_test-restores :
      (pa va : ℕ → ℕ)
      → Returns
          (sec_monitor_test clear_page pa va m)
          λ _ u. Restored m u × (u.pages ≡ rest) × (u.kvm_pfn_str ≡ m.kvm_pfn_str)
  unfolding sec_monitor_test
  sec_monitor_test-restores pa va =
      let n = inside pa va (record m { trace = printed monitor_notice ∷ m.trace }) in
      rw (get_zeroed_page-drawn n given)
        (tt, _, refl, (record { cr3 = refl; interrupts = refl; stack = refl }, refl, refl))

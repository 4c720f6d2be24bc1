-- ===== src/PageFlag/Merging.antt =====
-- `new_ksm_page_modify` on each of its branches.
use hyper_mi.Base.{
  ℕ, ◌≤◌, ◌<◌, ◌≡◌, ◌≢◌, ◌⊎◌, refl, ◌∙◌, arith, Bool, true, false, ◌&&◌, bit_and, bit_or, ltb, ◌==◌,
  if◌then◌else◌, Bool-cases, inl, inr, ok, fault, Returns, Returns-and_then, ◌∷◌, ==_of_ne,
}
use hyper_mi.Base.Digits.{bit_and-zero}
use hyper_mi.PageFlag.Table.{PageFlag, Table, Host, num_pfn2, slot, merging_banner}
use hyper_mi.PageFlag.Merge.{move_owner, show_merge, clear_flag, new_ksm_page_modify}
use hyper_mi.PageFlag.Access.{
  put, load_flag-ok, store_flag-ok, set_flag-ok, set_owner-ok, load_flag-fault,
}
use hyper_mi.PageFlag.Mapping.{Only}

module _ (host : Host) (page kpage : ℕ) where
  abbrev pub pfn : ℕ
  pfn = host.page_to_pfn page

  abbrev pub kpfn : ℕ
  kpfn = host.page_to_pfn kpage

  -- The kernel has marked `kpage` as a page of KSM.
  abbrev pub is_ksm : Bool
  is_ksm = bit_and (host.mapping kpage) host.page_mapping_flags == host.page_mapping_flags

  -- Strictly below the size, as the handler tests it.
  abbrev pub IsChecked : ℕ → Type 0
  IsChecked n = (0 < n) × (n < num_pfn2)

  -- What the entry of the merged page becomes.
  abbrev pub merged_entry : Table → PageFlag
  merged_entry t = record {
    owner = (t.pageflag (slot pfn)).owner;
    flag = bit_or (bit_or (t.pageflag (slot kpfn)).flag 0x01) 0x08;
  }

  module _ (t : Table) (h : IsChecked pfn) (k : IsChecked kpfn) where
    move_owner-ok : Returns (move_owner host kpage pfn kpfn t) λ _ u.
        (i : ℕ)
        → u.pageflag i ≡ (if is_ksm && (i == slot kpfn) then merged_entry t else t.pageflag i)
    unfolding move_owner
    move_owner-ok = elim (Bool-cases is_ksm) [
      | inl yes_ksm ↦
          let t1 = put t kpfn (record {
            owner = (t.pageflag (slot pfn)).owner;
            flag = (t.pageflag (slot kpfn)).flag;
          }) in
          let t2 = put t1 kpfn (record {
            owner = (t1.pageflag (slot kpfn)).owner;
            flag = bit_or (t1.pageflag (slot kpfn)).flag 0x01;
          }) in
          rw
            (
              yes_ksm,
              load_flag-ok pfn t (omega arith),
              set_owner-ok kpfn t (omega arith) (t.pageflag (slot pfn)).owner,
              set_flag-ok kpfn t1 (omega arith) 0x01,
              set_flag-ok kpfn t2 (omega arith) 0x08,
            )
            (tt, put t2 kpfn _, refl, λ i. ground arith)
      | inr not_ksm ↦ rw not_ksm (tt, t, refl, λ i. refl)
    ]

  show_merge-ok :
      (t : Table)
      → IsChecked pfn
      → IsChecked kpfn
      → Returns (show_merge pfn kpfn t) λ _ u. u.pageflag ≡ t.pageflag
  unfolding show_merge
  show_merge-ok t h k = elim (Bool-cases (t.ksm_used_mark == 6)) [
    | inl done ↦ rw done (tt, t, refl, refl)
    | inr more ↦
        rw (more, load_flag-ok kpfn t (omega arith))
          (elim (Bool-cases ((t.pageflag (slot kpfn)).owner == 0)) [
            | inl free ↦ rw free (tt, t, refl, refl)
            | inr owned ↦ rw owned (elim (Bool-cases (t.ksm_used_mark == 0)) [
              | inl first ↦
                  rw
                    (
                      first,
                      load_flag-ok pfn (record t { log = merging_banner ∷ t.log }) (omega arith),
                    )
                    (tt, _, refl, refl)
              | inr later ↦ rw (later, load_flag-ok pfn t (omega arith)) (tt, _, refl, refl)
            ])
          ])
  ]

  clear_flag-ok :
      (t : Table)
      → IsChecked pfn
      → Returns (clear_flag pfn t) λ _ u. Only host pfn t (record { owner = 0; flag = 0 }) u
  unfolding clear_flag
  clear_flag-ok t h =
      let t1 = put t pfn (record { owner = 0; flag = (t.pageflag (slot pfn)).flag }) in
      rw
        (
          set_owner-ok pfn t (omega arith) 0,
          load_flag-ok pfn t1 (omega arith),
          store_flag-ok pfn t1 (omega arith)
              (record (t1.pageflag (slot pfn)) { flag = bit_and (t1.pageflag (slot pfn)).flag 0 }),
        )
        (tt, put t1 pfn _, refl, λ i. ground (arith, bit_and-zero (t.pageflag (slot pfn)).flag))

  both_checked : pfn < num_pfn2 → kpfn < num_pfn2 → (ltb kpfn num_pfn2 && ltb pfn num_pfn2) ≡ true
  both_checked h k = ground arith

  unchecked : (num_pfn2 ≤ pfn) ⊎ (num_pfn2 ≤ kpfn) → (ltb kpfn num_pfn2 && ltb pfn num_pfn2) ≡ false
  unchecked h = ground arith

  -- A merge of two pages with frame numbers above 0 and below Num_pfn2, the first of them owned: the
  -- entry of the first is cleared; if KSM owns the second page, that page takes the owner over and gets the shared and
  -- the merged bit; no other entry changes.
  pub new_ksm_page_modify-moves :
      (t : Table)
      → IsChecked pfn
      → IsChecked kpfn
      → (t.pageflag (slot pfn)).owner ≢ 0
      → Returns (new_ksm_page_modify host page kpage t) λ _ u.
        (i : ℕ)
        → u.pageflag i ≡ (
            if i == slot pfn
            then record { owner = 0; flag = 0 }
            else (if is_ksm && (i == slot kpfn) then merged_entry t else t.pageflag i))
  unfolding new_ksm_page_modify
  new_ksm_page_modify-moves t h k owned =
      rw
        (
          both_checked (omega arith) (omega arith),
          load_flag-ok pfn t (omega arith),
          ==_of_ne (t.pageflag (slot pfn)).owner 0 owned,
        )
        (Returns-and_then (move_owner-ok t h k) λ _ t1 moved.
          Returns-and_then (show_merge-ok t1 h k) λ _ u same.
            let (a, v, run, only) = clear_flag-ok u h in
            (a, v, run, λ i. only i ∙ rw (same, moved i)))

  -- A merge of a page that no VM owns, or one in which a page lies beyond the table, changes
  -- nothing.
  pub new_ksm_page_modify-ignores :
      (t : Table)
      → (num_pfn2 ≤ pfn) ⊎ ((num_pfn2 ≤ kpfn) ⊎ (IsChecked pfn × (t.pageflag (slot pfn)).owner ≡ 0))
      → new_ksm_page_modify host page kpage t ≡ ok tt t
  unfolding new_ksm_page_modify
  new_ksm_page_modify-ignores t (inl beyond) = rw (unchecked (inl beyond))
  new_ksm_page_modify-ignores t (inr (inl beyond)) = rw (unchecked (inr beyond))
  new_ksm_page_modify-ignores t (inr (inr (h, free))) = elim (Bool-cases (ltb kpfn num_pfn2)) [
    | inl low ↦
        rw (both_checked (omega arith) (ground arith), load_flag-ok pfn t (omega arith), free)
    | inr high ↦ rw (unchecked (inr (ground arith)))
  ]

  -- The handler tests only the upper bound: page frame 0 reaches the subscript -1, a fault.
  new_ksm_page_modify-fault :
      (t : Table) → pfn ≡ 0 → kpfn < num_pfn2 → new_ksm_page_modify host page kpage t ≡ fault
  unfolding new_ksm_page_modify
  new_ksm_page_modify-fault t zero_frame k = rw (
    both_checked (omega arith) k,
    load_flag-fault pfn t (omega arith) (λ h. absurd (omega arith)),
  )

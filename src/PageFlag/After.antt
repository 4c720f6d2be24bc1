-- ===== src/PageFlag/After.antt =====
-- Each handler's call, seen from the owners of the pages.
use hyper_mi.Base.{
  ℕ, ◌-◌, ◌^◌, ◌<◌, ◌≡◌, ◌≢◌, refl, sym, ap, arith, true, false, ◌&&◌, Option, none, some, ltb, leb,
  ◌==◌, if◌then◌else◌, Bool-cases, inl, inr, ok, Returns-unique, ok-state, ok-ne-fault, ==_of_ne,
}
use hyper_mi.PageFlag.Table.{PageFlag, Table, Host, slot, num_pfn2}
use hyper_mi.PageFlag.Map.{in_table, new_handle_pfn_map, new_handle_pfn_modify}
use hyper_mi.PageFlag.Merge.{new_ksm_page_modify}
use hyper_mi.PageFlag.Free.{new_clean_page_modify, new_inflate_page_modify, new_deflate_page_modify}
use hyper_mi.PageFlag.Access.{IsFrame}
use hyper_mi.PageFlag.Mapping.{
  Only, Ready, new_handle_pfn_map_lem, new_handle_pfn_map-outside, new_handle_pfn_modify-accepts,
}
use hyper_mi.PageFlag.Freeing.{
  new_clean_page_modify_lem, new_inflate_page_modify_lem, new_deflate_page_modify_lem,
  free_handlers-fault,
}
use hyper_mi.PageFlag.Merging.{
  is_ksm, merged_entry, new_ksm_page_modify-moves, new_ksm_page_modify-ignores,
}
use hyper_mi.PageFlag.Preserve.{in_table-cases, below, owner_cases}
use hyper_mi.PageFlag.Owners.{
  Owners, Event, checks, maps, merges, frees, inflates, deflates, set, pass, after,
}

-- A page with owner 0 has none.
abbrev pub holder : ℕ → Option ℕ
holder owner = if owner == 0 then none else some owner

abbrev pub owners : Table → Owners
owners t i = holder (t.pageflag i).owner

holder-some : (v : ℕ) → v ≢ 0 → holder v ≡ some v
holder-some v h = rw (==_of_ne v 0 h)

slot-IsFrame : (n : ℕ) → IsFrame n → slot n ≡ n - 1
slot-IsFrame n h = omega arith

module _ (host : Host) (t u : Table) where
  -- The owners are those of before, after the call `e`.
  unfoldable pub IsAfter : Event → Type 0
  IsAfter e = (k : ℕ) → owners u k ≡ after host e (owners t) k

  -- All owners but that of one page are as before.
  owners-Only :
      (pfn : ℕ) (e : PageFlag) (o : Option ℕ)
      → IsFrame pfn
      → holder e.owner ≡ o
      → Only host pfn t e u
      → (k : ℕ) → owners u k ≡ set (pfn - 1) o (owners t) k
  owners-Only pfn e o inside h only k =
      let same = slot-IsFrame pfn inside in
      elim (Bool-cases (k == slot pfn)) [
        | inl hit ↦ rw (only k, hit, ← same, hit) h
        | inr miss ↦ rw (only k, miss, ← same, miss) refl
      ]

  owners-same : t ≡ u → (k : ℕ) → owners u k ≡ owners t k
  owners-same e k = ap (λ v. owners v k) (sym e)

  pub IsAfter-maps :
      (pfn vcpu r : ℕ)
      → host.vcpu_kvm vcpu ≢ 0
      → Ready host pfn t
      → new_handle_pfn_map host pfn vcpu t ≡ ok r u
      → IsAfter (maps pfn vcpu)
  unfolding IsAfter
  IsAfter-maps pfn vcpu r alive ready run k = elim (in_table-cases pfn) [
    | inl inside ↦
        let e : (leb 1 pfn && leb pfn num_pfn2) ≡ true = ground arith in
        rw e (
          owners-Only pfn _ _ inside (holder-some (host.vcpu_kvm vcpu) alive)
            (Returns-unique _ (new_handle_pfn_map_lem host pfn vcpu t inside ready) run).1 k)
    | inr outside ↦
        let e : (leb 1 pfn && leb pfn num_pfn2) ≡ false = ground arith in
        rw e (owners-same (ok-state (new_handle_pfn_map-outside host pfn vcpu t outside) run) k)
  ]

  pub IsAfter-checks :
      (pfn vcpu r : ℕ) → new_handle_pfn_modify host pfn vcpu t ≡ ok r u → IsAfter (checks pfn vcpu)
  unfolding IsAfter
  IsAfter-checks pfn vcpu r run k =
      let e = (Returns-unique _ (new_handle_pfn_modify-accepts host pfn vcpu t) run).1 k in
      elim (Bool-cases (in_table pfn && (k == slot pfn))) [
        | inl hit ↦
            let same : k ≡ slot pfn = ground arith in rw (e, hit) (ap (λ n. owners t n) (sym same))
        | inr miss ↦ rw (e, miss) refl
      ]

  module _ (page : ℕ) (small : host.page_to_pfn page < 2 ^ 64) where
    abbrev frame : ℕ
    frame = host.page_to_pfn page

    pub IsAfter-frees : (r : ℕ) → new_clean_page_modify host page t ≡ ok r u → IsAfter (frees page)
    unfolding IsAfter
    IsAfter-frees r run = elim (in_table-cases frame) [
      | inl inside ↦
          owners-Only frame _ none inside refl
            (Returns-unique _ (new_clean_page_modify_lem host page t inside) run).1
      | inr out ↦ absurd (ok-ne-fault run (free_handlers-fault host page t small out).0)
    ]

    pub IsAfter-inflates :
        (r : ℕ) → new_inflate_page_modify host page t ≡ ok r u → IsAfter (inflates page)
    unfolding IsAfter
    IsAfter-inflates r run = elim (in_table-cases frame) [
      | inl inside ↦
          owners-Only frame _ none inside refl
            (Returns-unique _ (new_inflate_page_modify_lem host page t inside) run).1
      | inr out ↦ absurd (ok-ne-fault run (free_handlers-fault host page t small out).1)
    ]

    pub IsAfter-deflates :
        (r : ℕ) → new_deflate_page_modify host page t ≡ ok r u → IsAfter (deflates page)
    unfolding IsAfter
    IsAfter-deflates r run = elim (in_table-cases frame) [
      | inl inside ↦
          owners-Only frame _ none inside refl
            (Returns-unique _ (new_deflate_page_modify_lem host page t inside) run).1
      | inr out ↦ absurd (ok-ne-fault run (free_handlers-fault host page t small out).2)
    ]

  module _ (page kpage : ℕ) where
    abbrev from : ℕ
    from = slot (host.page_to_pfn page)

    abbrev into : ℕ
    into = slot (host.page_to_pfn kpage)

    -- The page is cleared, whether its owner moves or, where KSM has not marked the other, is lost.
    owners-moved :
        (t.pageflag from).owner ≢ 0
        → ((k : ℕ)
            → u.pageflag k ≡ (
                if k == from
                then record { owner = 0; flag = 0 }
                else (if is_ksm host page kpage && (k == into)
                    then merged_entry host page kpage t
                    else t.pageflag k)))
        → (k : ℕ)
        → owners u k ≡ pass (is_ksm host page kpage) from into (owners t from) (owners t) k
    owners-moved owned e k =
        let held = holder-some (t.pageflag from).owner owned in
        rw (held, e k)
          (elim (Bool-cases (k == from)) [
            | inl hit ↦ rw hit refl
            | inr miss ↦ rw miss (elim (Bool-cases (is_ksm host page kpage)) [
              | inr plain ↦ rw plain refl
              | inl ksm ↦ rw ksm (elim (Bool-cases (k == into)) [
                | inl there ↦ rw there held
                | inr other ↦ rw other refl
              ])
            ])
          ])

    pub IsAfter-merges :
        0 < host.page_to_pfn page
        → 0 < host.page_to_pfn kpage
        → new_ksm_page_modify host page kpage t ≡ ok tt u
        → IsAfter (merges page kpage)
    unfolding IsAfter
    IsAfter-merges pos kpos run k = elim (below num_pfn2 (host.page_to_pfn page)) [
      | inr high ↦
          let e : (ltb (host.page_to_pfn page) num_pfn2 && ltb (host.page_to_pfn kpage) num_pfn2)
              ≡ false =
            ground arith in
          rw e (
            owners-same (ok-state (new_ksm_page_modify-ignores host page kpage t (inl high)) run) k)
      | inl low ↦ elim (below num_pfn2 (host.page_to_pfn kpage)) [
        | inr high ↦
            let e : (ltb (host.page_to_pfn page) num_pfn2 && ltb (host.page_to_pfn kpage) num_pfn2)
                ≡ false =
              ground arith in
            rw e (
              owners-same
                (ok-state (new_ksm_page_modify-ignores host page kpage t (inr (inl high))) run) k)
        | inl klow ↦
            let e : (ltb (host.page_to_pfn page) num_pfn2 && ltb (host.page_to_pfn kpage) num_pfn2)
                ≡ true =
              ground arith in
            let first : from ≡ host.page_to_pfn page - 1 = omega arith in
            let second : into ≡ host.page_to_pfn kpage - 1 = omega arith in
            rw (e, ← first, ← second)
              (elim (owner_cases (t.pageflag from)) [
                | inl free ↦
                    let nobody : owners t from ≡ none = rw free refl in
                    rw nobody (
                      owners-same
                        (ok-state
                          (new_ksm_page_modify-ignores host page kpage t
                            (inr (inr ((pos, low), free))))
                          run)
                        k)
                | inr owned ↦
                    owners-moved owned
                      (Returns-unique _
                        (new_ksm_page_modify-moves host page kpage t (pos, low) (kpos, klow) owned)
                        run)
                      k
              ])
      ]
    ]

-- ===== src/PageFlag/Preserve.antt =====
-- Every call of a handler keeps the table well formed.
use hyper_mi.Base.{
  ℕ, ◌^◌, ◌≤◌, ◌<◌, ◌≡◌, ◌≢◌, ◌⊎◌, arith, ◌&&◌, bit_or, ◌==◌, if◌then◌else◌, Bool-cases, inl, inr,
  ok, Returns-unique, ok-state, ok-ne-fault,
}
use hyper_mi.PageFlag.Table.{PageFlag, Table, Host, slot, num_pfn2}
use hyper_mi.PageFlag.Map.{in_table, new_handle_pfn_map, new_handle_pfn_modify}
use hyper_mi.PageFlag.Merge.{new_ksm_page_modify}
use hyper_mi.PageFlag.Free.{new_clean_page_modify, new_inflate_page_modify, new_deflate_page_modify}
use hyper_mi.PageFlag.Access.{IsFrame}
use hyper_mi.PageFlag.Mapping.{
  Ready, new_handle_pfn_map_lem, new_handle_pfn_map-outside, new_handle_pfn_modify-accepts,
}
use hyper_mi.PageFlag.Freeing.{
  new_clean_page_modify_lem, new_inflate_page_modify_lem, new_deflate_page_modify_lem,
  free_handlers-fault,
}
use hyper_mi.PageFlag.Merging.{
  is_ksm, merged_entry, new_ksm_page_modify-moves, new_ksm_page_modify-ignores,
}
use hyper_mi.PageFlag.Invariant.{
  IsTable, IsTable-Only, IsEntry-cleared, IsEntry-orphan, IsEntry-asked, or_used, or_merged, Step,
  Reach, check, map_page, merge, clean, inflate, deflate, here, next,
}

pub in_table-cases : (n : ℕ) → IsFrame n ⊎ ¬ IsFrame n
in_table-cases n = elim (Bool-cases (in_table n)) [
  | inl e ↦ inl (ground arith)
  | inr e ↦ inr (λ h. ground arith)
]

pub below : (n m : ℕ) → (m < n) ⊎ (n ≤ m)
below n m = grind arith

pub owner_cases : (e : PageFlag) → (e.owner ≡ 0) ⊎ (e.owner ≢ 0)
owner_cases e = elim (Bool-cases (e.owner == 0)) [
  | inl zero_owner ↦ inl (ground arith)
  | inr owned ↦ inr (ground arith)
]

module _ (Vm : ℕ → Type 0) (host : Host) (t u : Table) (h : IsTable Vm t) where
  IsTable-same : t ≡ u → IsTable Vm u
  IsTable-same e = rw (← e) h

  map-IsTable :
      (n vcpu r : ℕ)
      → Vm (host.vcpu_kvm vcpu)
      → Ready host n t
      → new_handle_pfn_map host n vcpu t ≡ ok r u
      → IsTable Vm u
  map-IsTable n vcpu r vm ready run = elim (in_table-cases n) [
    | inl inside ↦
        let e : PageFlag = record {
          owner = host.vcpu_kvm vcpu;
          flag = bit_or (t.pageflag (slot n)).flag 0x80;
        } in
        let marked = or_used (h (slot n)).flag_ok in
        IsTable-Only Vm host n t u _ h
          (IsEntry-asked Vm host n e (record { flag_ok = marked.0; owned = λ _. (marked.1, vm) }))
          (Returns-unique _ (new_handle_pfn_map_lem host n vcpu t inside ready) run).1
    | inr outside ↦ IsTable-same (ok-state (new_handle_pfn_map-outside host n vcpu t outside) run)
  ]

  check-IsTable : (n vcpu r : ℕ) → new_handle_pfn_modify host n vcpu t ≡ ok r u → IsTable Vm u
  check-IsTable n vcpu r run i =
      rw ((Returns-unique _ (new_handle_pfn_modify-accepts host n vcpu t) run).1 i)
        (elim (Bool-cases (in_table n && (i == slot n))) [
          | inl hit ↦ rw hit (IsEntry-asked Vm host n (t.pageflag (slot n)) (h (slot n)))
          | inr miss ↦ rw miss (h i)
        ])

  module _ (page : ℕ) (small : host.page_to_pfn page < 2 ^ 64) where
    abbrev frame : ℕ
    frame = host.page_to_pfn page

    clean-IsTable : (r : ℕ) → new_clean_page_modify host page t ≡ ok r u → IsTable Vm u
    clean-IsTable r run = elim (in_table-cases frame) [
      | inl inside ↦
          IsTable-Only Vm host frame t u _ h (IsEntry-cleared Vm)
            (Returns-unique _ (new_clean_page_modify_lem host page t inside) run).1
      | inr out ↦ absurd (ok-ne-fault run (free_handlers-fault host page t small out).0)
    ]

    inflate-IsTable : (r : ℕ) → new_inflate_page_modify host page t ≡ ok r u → IsTable Vm u
    inflate-IsTable r run = elim (in_table-cases frame) [
      | inl inside ↦
          IsTable-Only Vm host frame t u _ h (IsEntry-orphan Vm _ (h (slot frame)))
            (Returns-unique _ (new_inflate_page_modify_lem host page t inside) run).1
      | inr out ↦ absurd (ok-ne-fault run (free_handlers-fault host page t small out).1)
    ]

    deflate-IsTable : (r : ℕ) → new_deflate_page_modify host page t ≡ ok r u → IsTable Vm u
    deflate-IsTable r run = elim (in_table-cases frame) [
      | inl inside ↦
          IsTable-Only Vm host frame t u _ h (IsEntry-orphan Vm _ (h (slot frame)))
            (Returns-unique _ (new_deflate_page_modify_lem host page t inside) run).1
      | inr out ↦ absurd (ok-ne-fault run (free_handlers-fault host page t small out).2)
    ]

  module _ (page kpage : ℕ) where
    merged-IsTable :
        (t.pageflag (slot (host.page_to_pfn page))).owner ≢ 0
        → ((i : ℕ)
            → u.pageflag i ≡ (
                if i == slot (host.page_to_pfn page)
                then record { owner = 0; flag = 0 }
                else (if is_ksm host page kpage && (i == slot (host.page_to_pfn kpage))
                    then merged_entry host page kpage t
                    else t.pageflag i)))
        → IsTable Vm u
    merged-IsTable owned e i =
        let moved = or_merged (h (slot (host.page_to_pfn kpage))).flag_ok in
        rw (e i) (elim (Bool-cases (i == slot (host.page_to_pfn page))) [
          | inl hit ↦ rw hit (IsEntry-cleared Vm)
          | inr miss ↦
              rw miss
                (elim (Bool-cases
                  (is_ksm host page kpage && (i == slot (host.page_to_pfn kpage)))) [
                    | inl there ↦ rw there (record {
                      flag_ok = moved.0;
                      owned = λ n. (moved.1, ((h (slot (host.page_to_pfn page))).owned n).1);
                    })
                    | inr other ↦ rw other (h i)
                  ])
        ])

    merge-IsTable :
        0 < host.page_to_pfn page
        → 0 < host.page_to_pfn kpage
        → new_ksm_page_modify host page kpage t ≡ ok tt u
        → IsTable Vm u
    merge-IsTable pos kpos run = elim (below num_pfn2 (host.page_to_pfn page)) [
      | inr high ↦
          IsTable-same (ok-state (new_ksm_page_modify-ignores host page kpage t (inl high)) run)
      | inl low ↦ elim (below num_pfn2 (host.page_to_pfn kpage)) [
        | inr high ↦
            IsTable-same
              (ok-state (new_ksm_page_modify-ignores host page kpage t (inr (inl high))) run)
        | inl klow ↦ elim (owner_cases (t.pageflag (slot (host.page_to_pfn page)))) [
          | inl free ↦ IsTable-same (
              ok-state
                (new_ksm_page_modify-ignores host page kpage t (inr (inr ((pos, low), free)))) run)
          | inr owned ↦ merged-IsTable owned (
              Returns-unique _
                (new_ksm_page_modify-moves host page kpage t (pos, low) (kpos, klow) owned) run)
        ]
      ]
    ]

-- A call that returns keeps every entry well formed.
pub Step-IsTable :
    (Vm : ℕ → Type 0) (host : Host) {t u : Table} → Step Vm host t u → IsTable Vm t → IsTable Vm u
Step-IsTable Vm host {t} {u} (check n vcpu r run) h = check-IsTable Vm host t u h n vcpu r run
Step-IsTable Vm host {t} {u} (map_page n vcpu r vm ready run) h =
    map-IsTable Vm host t u h n vcpu r vm ready run
Step-IsTable Vm host {t} {u} (merge page kpage p q run) h =
    merge-IsTable Vm host t u h page kpage p q run
Step-IsTable Vm host {t} {u} (clean page r small run) h =
    clean-IsTable Vm host t u h page small r run
Step-IsTable Vm host {t} {u} (inflate page r small run) h =
    inflate-IsTable Vm host t u h page small r run
Step-IsTable Vm host {t} {u} (deflate page r small run) h =
    deflate-IsTable Vm host t u h page small r run

-- From a well-formed table every sequence of calls leads to one: an entry's flag is one of the six
-- combinations in which a merged page is shared, an owned page is marked used or shared, and its
-- owner is a VM for which a page was mapped.
pub Reach-IsTable :
    (Vm : ℕ → Type 0) (host : Host) {s t : Table} → IsTable Vm s → Reach Vm host s t → IsTable Vm t
Reach-IsTable Vm host h here = h
Reach-IsTable Vm host h (next r st) = Step-IsTable Vm host st (Reach-IsTable Vm host h r)

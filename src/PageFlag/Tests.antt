-- ===== src/PageFlag/Tests.antt =====
-- The handlers of the tag table on a small host, where page frames are their own pages.
use hyper_mi.Base.{
  ℕ, ◌+◌, ◌≤◌, ◌≡◌, ◌≢◌, refl, arith, false, ◌==◌, if◌then◌else◌, Bool-cases, [], ◌∷◌, ok, fault,
  Returns, inl, inr,
}
use hyper_mi.PageFlag.Table.{Table, Host, slot, release_banner}
use hyper_mi.PageFlag.Release.{new_clean_page_modify1}
use hyper_mi.PageFlag.Release.Ends.{SameFlags, Prints, new_clean_page_modify1-ends}
use hyper_mi.PageFlag.Map.{new_handle_pfn_map, new_handle_pfn_modify}
use hyper_mi.PageFlag.Merge.{new_ksm_page_modify}
use hyper_mi.PageFlag.Free.{new_clean_page_modify, new_inflate_page_modify, new_deflate_page_modify}
use hyper_mi.PageFlag.Access.{IsFrame, put}
use hyper_mi.PageFlag.Mapping.{Only, new_handle_pfn_map_lem, new_handle_pfn_modify-accepts}
use hyper_mi.PageFlag.Freeing.{free_handlers-fault}
use hyper_mi.PageFlag.Merging.{IsChecked, new_ksm_page_modify-moves, new_ksm_page_modify-ignores}
use hyper_mi.PageFlag.Invariant.{IsTable, Step, here, next, clean, merge, blank, used}
use hyper_mi.PageFlag.Owners.{frees, merges, after_all}
use hyper_mi.PageFlag.Refine.{Reach-owners}
use hyper_mi.PageFlag.After.{owners}
use hyper_mi.PageFlag.Preserve.{Reach-IsTable}

abbrev host : Host
host = record {
  page_to_pfn = λ page. page;
  pfn_to_page = λ pfn. pfn;
  page_ksm = λ page. false;
  mapping = λ page. 3;
  page_mapping_flags = 3;
  vcpu_kvm = λ vcpu. vcpu + 700;
  rand_num = λ i. 0;
}

-- Frame 5 belongs to VM 701; every other frame is free.
abbrev table : Table
table = record {
  pageflag =
      λ i. if i == 4 then record { owner = 701; flag = 0x80 } else record { owner = 0; flag = 0 };
  couhandle = 0;
  pfnusedmark = 0;
  ksm_used_mark = 0;
  balloon_inflate_mark = 0;
  balloon_deflate_mark = 0;
  random = 2000 ∷ 2001 ∷ 3 ∷ 2002 ∷ 2003 ∷ 2004 ∷ 2005 ∷ [];
  log = [];
}

five-IsFrame : IsFrame 5
five-IsFrame = omega arith

five-IsChecked : IsChecked host 5 9 5
five-IsChecked = omega arith

nine-IsChecked : IsChecked host 5 9 9
nine-IsChecked = omega arith

zero-outside : ¬ IsFrame 0
zero-outside = λ h. absurd (omega arith)

owned_five : (table.pageflag (slot 5)).owner ≢ 0
owned_five = omega arith

new_handle_pfn_map_lem_example :
    Returns
      (new_handle_pfn_map host 5 2 table)
      λ r u. (r ≡ 0) × Only host 5 table (record { owner = 702; flag = 0x80 }) u
new_handle_pfn_map_lem_example =
    new_handle_pfn_map_lem host 5 2 table five-IsFrame (λ e. absurd (omega arith))

new_handle_pfn_modify-accepts_example : Returns (new_handle_pfn_modify host 5 2 table) λ r u.
    (r ≡ 0)
    × ((i : ℕ)
        → u.pageflag i ≡ (if i == 4 then record { owner = 701; flag = 0x80 } else table.pageflag i))
new_handle_pfn_modify-accepts_example = new_handle_pfn_modify-accepts host 5 2 table

free_handlers-fault_example :
    (new_clean_page_modify host 0 table ≡ fault)
    × (new_inflate_page_modify host 0 table ≡ fault)
    × (new_deflate_page_modify host 0 table ≡ fault)
free_handlers-fault_example = free_handlers-fault host 0 table (omega arith) zero-outside

new_ksm_page_modify-moves_example : Returns (new_ksm_page_modify host 5 9 table) λ _ u.
    (i : ℕ)
    → u.pageflag i ≡ (
        if i == 4
        then record { owner = 0; flag = 0 }
        else (if i == 8 then record { owner = 701; flag = 0x09 } else table.pageflag i))
new_ksm_page_modify-moves_example =
    new_ksm_page_modify-moves host 5 9 table five-IsChecked nine-IsChecked owned_five

new_clean_page_modify1-ends_example :
    Returns
      (new_clean_page_modify1 host table)
      λ _ u. SameFlags table u × Prints 6 (release_banner ∷ []) u.log
new_clean_page_modify1-ends_example = new_clean_page_modify1-ends host table (omega arith)

abbrev Vm : ℕ → Type 0
Vm v = 700 ≤ v

table-IsTable : IsTable Vm table
table-IsTable i = elim (Bool-cases (i == 4)) [
  | inl hit ↦ rw hit (record { flag_ok = used refl; owned = λ n. (omega arith, omega arith) })
  | inr miss ↦ rw miss (record { flag_ok = blank refl; owned = λ n. absurd (n refl) })
]

abbrev cleaned : Table
cleaned = put (put table 5 (record { owner = 701; flag = 0 })) 5 (record { owner = 0; flag = 0 })

clean_five : new_clean_page_modify host 5 table ≡ ok 0 cleaned
unfolding new_clean_page_modify
clean_five = refl

merge_five : Step Vm host table table
merge_five =
    merge 9 5 (omega arith) (omega arith)
      (new_ksm_page_modify-ignores host 9 5 table (inr (inr (nine-IsChecked, refl))))

Reach-IsTable_example : IsTable Vm cleaned
Reach-IsTable_example =
    Reach-IsTable Vm host table-IsTable
      (next (next here merge_five) (clean 5 0 (omega arith) clean_five))

Vm-alive : (v : ℕ) → Vm v → v ≢ 0
Vm-alive v vm e = absurd (omega arith)

Reach-owners_example : owners cleaned ≡ after_all host (frees 5 ∷ merges 9 5 ∷ []) (owners table)
unfolding merge_five
Reach-owners_example =
    Reach-owners Vm host Vm-alive (next (next here merge_five) (clean 5 0 (omega arith) clean_five))

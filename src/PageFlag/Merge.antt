-- ===== src/PageFlag/Merge.antt =====
-- `new_ksm_page_modify`: KSM has merged `page` into `kpage`.
use hyper_mi.Base.{
  ℕ, ◌+◌, ◌&&◌, bit_and, ltb, ◌==◌, if◌then◌else◌, Cmd, ok, pure, modify, ◌>>=◌, ◌>>◌,
}
use hyper_mi.PageFlag.Table.{
  num_pfn2, Table, Host, load_flag, store_flag, printk, merging_banner, merged,
}
use hyper_mi.PageFlag.Map.{set_flag, set_owner}

-- The owner moves to the merged page if the kernel marks that as a page of KSM.
unfoldable pub move_owner : Host → ℕ → ℕ → ℕ → Cmd Table (Unit {0})
unfolding load_flag set_flag set_owner
move_owner host kpage pfn kpfn =
    if bit_and (host.mapping kpage) host.page_mapping_flags == host.page_mapping_flags
    then (do e ← load_flag pfn; set_owner kpfn e.owner; set_flag kpfn 0x01; set_flag kpfn 0x08)
    else pure tt

unfoldable pub show_merge : ℕ → ℕ → Cmd Table (Unit {0})
unfolding load_flag
show_merge pfn kpfn t =
    if t.ksm_used_mark == 6
    then ok tt t
    else (do
      k ← load_flag kpfn
      if k.owner == 0 then pure tt else (do
        (if t.ksm_used_mark == 0 then printk merging_banner else pure tt)
        e ← load_flag pfn
        printk (merged (t.ksm_used_mark + 1) pfn kpfn e.owner k.owner)
        modify (λ u. record u { ksm_used_mark = t.ksm_used_mark + 1 })))
        t

-- `owner = 0; flag &= 0`.
unfoldable pub clear_flag : ℕ → Cmd Table (Unit {0})
unfolding load_flag store_flag set_owner
clear_flag pfn = do
  set_owner pfn 0
  e ← load_flag pfn
  store_flag pfn (record e { flag = bit_and e.flag 0 })

unfoldable pub new_ksm_page_modify : Host → ℕ → ℕ → Cmd Table (Unit {0})
unfolding load_flag move_owner show_merge clear_flag
new_ksm_page_modify host page kpage =
    let pfn = host.page_to_pfn page in
    let kpfn = host.page_to_pfn kpage in
    if ltb kpfn num_pfn2 && ltb pfn num_pfn2
    then (do
      e ← load_flag pfn
      if e.owner == 0
          then pure tt
          else (do move_owner host kpage pfn kpfn; show_merge pfn kpfn; clear_flag pfn))
    else pure tt

-- ===== src/PageFlag/Map.antt =====
-- `new_handle_pfn_modify`, the check before a frame is mapped into a VM, and `new_handle_pfn_map`,
-- which records the mapping. Both return 0 to their caller.
use hyper_mi.Base.{
  ℕ, ◌+◌, ◌/◌, ◌%◌, ◌^◌, Bool, ◌&&◌, bit_and, bit_or, ltb, leb, ◌==◌, if◌then◌else◌, Cmd, ok, pure,
  modify, ◌>>=◌, ◌>>◌,
}
use hyper_mi.PageFlag.Table.{
  PageFlag, num_pfn2, Table, Host, load_flag, store_flag, printk, tracking_banner, tracked,
}
use hyper_mi.PageFlag.Release.{new_clean_page_modify1}

abbrev pub in_table : ℕ → Bool
in_table pfn = ltb 0 pfn && leb pfn num_pfn2

-- `pageflag[pfn-1].flag |= bits`.
unfoldable pub set_flag : ℕ → ℕ → Cmd Table (Unit {0})
unfolding load_flag store_flag
set_flag pfn bits = do e ← load_flag pfn; store_flag pfn (record e { flag = bit_or e.flag bits })

-- `pageflag[pfn-1].owner = vmid`.
unfoldable pub set_owner : ℕ → ℕ → Cmd Table (Unit {0})
unfolding load_flag store_flag
set_owner pfn vmid = do e ← load_flag pfn; store_flag pfn (record e { owner = vmid })

unfoldable pub mark_shared : Host → ℕ → Cmd Table (Unit {0})
unfolding set_flag
mark_shared host pfn = if host.page_ksm (host.pfn_to_page pfn) then set_flag pfn 0x01 else pure tt

-- The answer from an entry: every branch of the source answers 0.
unfoldable pub verdict : PageFlag → ℕ → ℕ
verdict e vmid =
    let used = bit_and e.flag 0x80 in
    let shared = bit_and e.flag 0x01 in
    if used == 0 then 0 else if shared == 0 then (if e.owner == vmid then 0 else 0) else 0

unfoldable pub new_handle_pfn_modify : Host → ℕ → ℕ → Cmd Table ℕ
unfolding mark_shared load_flag verdict
new_handle_pfn_modify host pfn vcpu =
    if in_table pfn
    then (do
      mark_shared host pfn
      e ← load_flag pfn
      modify (λ t. record t { couhandle = (t.couhandle + 1) % 2 ^ 64 })
      pure (verdict e (host.vcpu_kvm vcpu)))
    else pure 0

-- The first six mappings are printed; after the sixth a release is reported.
unfoldable pub show_mapping : Host → ℕ → Cmd Table (Unit {0})
unfolding load_flag new_clean_page_modify1
show_mapping host pfn t =
    if t.pfnusedmark == 6
    then ok tt t
    else (do
      (if t.pfnusedmark == 0 then printk tracking_banner else pure tt)
      e ← load_flag pfn
      printk (
          tracked (t.pfnusedmark + 1) pfn e.owner (bit_and e.flag 0x80 / 2 ^ 7)
            (bit_and e.flag 0x01))
      modify (λ u. record u { pfnusedmark = t.pfnusedmark + 1 })
      if t.pfnusedmark + 1 == 6 then new_clean_page_modify1 host else pure tt)
        t

unfoldable pub new_handle_pfn_map : Host → ℕ → ℕ → Cmd Table ℕ
unfolding set_owner set_flag mark_shared show_mapping
new_handle_pfn_map host pfn vcpu =
    if in_table pfn
    then (do
      set_owner pfn (host.vcpu_kvm vcpu)
      set_flag pfn 0x80
      mark_shared host pfn
      show_mapping host pfn
      pure 0)
    else pure 0

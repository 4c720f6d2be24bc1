-- ===== src/PageFlag/Free.antt =====
-- A page is freed (`new_clean_page_modify`), taken by the balloon or given back
-- (`new_inflate_page_modify`, `new_deflate_page_modify`), and the marker of the shrinker.
use hyper_mi.Base.{ℕ, bit_and, ◌==◌, if◌then◌else◌, Cmd, pure, modify, ◌>>=◌, ◌>>◌}
use hyper_mi.PageFlag.Table.{
  Table, Host, Message, load_flag, store_flag, printk, inflation, deflation, shrink_test,
}
use hyper_mi.PageFlag.Map.{set_owner}

unfoldable pub new_clean_page_modify : Host → ℕ → Cmd Table ℕ
unfolding load_flag store_flag set_owner
new_clean_page_modify host page = do
  let pfn = host.page_to_pfn page
  e ← load_flag pfn
  store_flag pfn (record e { flag = 0 })
  set_owner pfn 0
  pure 0

-- The first page of each kind is printed.
unfoldable pub show_balloon : (ℕ → ℕ → ℕ → ℕ → Message) → ℕ → Cmd Table (Unit {0})
unfolding load_flag
show_balloon message pfn = do
  e ← load_flag pfn
  printk (message pfn e.owner (bit_and e.flag 0x80) (bit_and e.flag 0x01))

unfoldable pub new_inflate_page_modify : Host → ℕ → Cmd Table ℕ
unfolding show_balloon set_owner
new_inflate_page_modify host page t =
    (do
      let pfn = host.page_to_pfn page
      (if t.balloon_inflate_mark == 0
          then show_balloon inflation pfn >> modify (λ u. record u { balloon_inflate_mark = 1 })
          else pure tt)
      set_owner pfn 0
      pure 0)
      t

unfoldable pub new_deflate_page_modify : Host → ℕ → Cmd Table ℕ
unfolding show_balloon set_owner
new_deflate_page_modify host page t =
    (do
      let pfn = host.page_to_pfn page
      (if t.balloon_deflate_mark == 0
          then show_balloon deflation pfn >> modify (λ u. record u { balloon_deflate_mark = 1 })
          else pure tt)
      set_owner pfn 0
      pure 0)
      t

unfoldable pub new_testforshrinkpage_modify : Cmd Table ℕ
new_testforshrinkpage_modify = printk shrink_test >> pure 0

-- ===== src/Hook/Session.antt =====
-- src/SecureVM/hookcr32.c: the hooks that my_init installs, in its order, and what my_exit
-- restores. `target` and `mock` give, by site, the function that is hooked and its replacement.
use hyper_mi.Base.{ℕ, zero, suc, List, [], ◌∷◌, Cmd, ◌>>◌}
use hyper_mi.Hook.Data.{Site, Kernel}
use hyper_mi.Hook.Install.{store_bytes, set_hook_pte, set_hook_pmd, set_hook_pagefault}
use hyper_mi.Hook.Vmcs.{set_hook_vmcs_readl, set_hook_vmcs_writel, set_hook_vmcs_clear}
use hyper_mi.Hook.Page.{
  set_hook_handle_pfn_modify, set_hook_handle_pfn_map, set_hook_clean_page_modify,
  set_hook_testforshrinkpage_modify, set_hook_ksm_page_modify, set_hook_inflate_page_modify,
  set_hook_deflate_page_modify,
}

-- An array of `n` bytes, of which those that are not set are 0.
abbrev pub array : ℕ → List ℕ → List ℕ
array zero l = []
array (suc n) [] = 0 ∷ array n []
array (suc n) (b ∷ bs) = b ∷ array n bs

module _ (lookup_address : ℕ → ℕ) where
  -- `memcpy(mem_X, orig_code_X, sizeof(orig_code_X))`, of twelve bytes.
  unfoldable pub restore : Site → Cmd Kernel (Unit {0})
  unfolding store_bytes
  restore s k = store_bytes lookup_address (k.mem s) (array 12 (k.orig_code s)) k

  unfoldable pub my_exit : Cmd Kernel (Unit {0})
  unfolding restore
  my_exit =
      restore Site.pte
      >> restore Site.pmd
      >> restore Site.pagefault
      >> restore Site.vmcs_writel
      >> restore Site.vmcs_readl
      >> restore Site.vmcs_clear
      >> restore Site.handle_pfn_modify
      >> restore Site.handle_pfn_map
      >> restore Site.ksm_page_modify
      >> restore Site.clean_page_modify
      >> restore Site.testforshrinkpage_modify
      >> restore Site.inflate_page_modify
      >> restore Site.deflate_page_modify

  module _ (target mock : Site → ℕ) where
    unfoldable pub install_hooks : Cmd Kernel (Unit {0})
    unfolding set_hook_pte set_hook_pmd set_hook_pagefault set_hook_vmcs_readl set_hook_vmcs_writel
        set_hook_vmcs_clear set_hook_handle_pfn_modify set_hook_handle_pfn_map
        set_hook_clean_page_modify set_hook_testforshrinkpage_modify set_hook_ksm_page_modify
        set_hook_inflate_page_modify set_hook_deflate_page_modify
    install_hooks =
        set_hook_pte lookup_address (target Site.pte) (mock Site.pte)
        >> set_hook_pmd lookup_address (target Site.pmd) (mock Site.pmd)
        >> set_hook_pagefault lookup_address (target Site.pagefault) (mock Site.pagefault)
        >> set_hook_vmcs_readl lookup_address (target Site.vmcs_readl) (mock Site.vmcs_readl)
        >> set_hook_vmcs_writel lookup_address (target Site.vmcs_writel) (mock Site.vmcs_writel)
        >> set_hook_vmcs_clear lookup_address (target Site.vmcs_clear) (mock Site.vmcs_clear)
        >> set_hook_handle_pfn_modify lookup_address (target Site.handle_pfn_modify)
            (mock Site.handle_pfn_modify)
        >> set_hook_handle_pfn_map lookup_address (target Site.handle_pfn_map)
            (mock Site.handle_pfn_map)
        >> set_hook_clean_page_modify lookup_address (target Site.clean_page_modify)
            (mock Site.clean_page_modify)
        >> set_hook_testforshrinkpage_modify lookup_address (target Site.testforshrinkpage_modify)
            (mock Site.testforshrinkpage_modify)
        >> set_hook_ksm_page_modify lookup_address (target Site.ksm_page_modify)
            (mock Site.ksm_page_modify)
        >> set_hook_inflate_page_modify lookup_address (target Site.inflate_page_modify)
            (mock Site.inflate_page_modify)
        >> set_hook_deflate_page_modify lookup_address (target Site.deflate_page_modify)
            (mock Site.deflate_page_modify)

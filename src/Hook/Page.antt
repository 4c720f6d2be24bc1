-- ===== src/Hook/Page.antt =====
-- src/SecureVM/set_hook.h: the hook installers of page tracking and device memory.
use hyper_mi.Base.{ℕ}
use hyper_mi.Base.{Cmd}
use hyper_mi.Hook.Data.{Kernel, Site}
use hyper_mi.Hook.Install.{set_hook_at}

module _ (lookup_address : ℕ → ℕ) (to_mock_func mock_func : ℕ) where
  unfoldable pub set_hook_handle_pfn_modify : Cmd Kernel (Unit {0})
  unfolding set_hook_at
  set_hook_handle_pfn_modify =
      set_hook_at lookup_address Site.handle_pfn_modify to_mock_func mock_func

  unfoldable pub set_hook_handle_pfn_map : Cmd Kernel (Unit {0})
  unfolding set_hook_at
  set_hook_handle_pfn_map = set_hook_at lookup_address Site.handle_pfn_map to_mock_func mock_func

  unfoldable pub set_hook_ioremap : Cmd Kernel (Unit {0})
  unfolding set_hook_at
  set_hook_ioremap = set_hook_at lookup_address Site.ioremap to_mock_func mock_func

  unfoldable pub set_hook_memcpy_fromio : Cmd Kernel (Unit {0})
  unfolding set_hook_at
  set_hook_memcpy_fromio = set_hook_at lookup_address Site.memcpy_fromio to_mock_func mock_func

  unfoldable pub set_hook_memset_io : Cmd Kernel (Unit {0})
  unfolding set_hook_at
  set_hook_memset_io = set_hook_at lookup_address Site.memset_io to_mock_func mock_func

  unfoldable pub set_hook_memcpy_toio : Cmd Kernel (Unit {0})
  unfolding set_hook_at
  set_hook_memcpy_toio = set_hook_at lookup_address Site.memcpy_toio to_mock_func mock_func

  unfoldable pub set_hook_ksm_page_modify : Cmd Kernel (Unit {0})
  unfolding set_hook_at
  set_hook_ksm_page_modify = set_hook_at lookup_address Site.ksm_page_modify to_mock_func mock_func

  unfoldable pub set_hook_clean_page_modify : Cmd Kernel (Unit {0})
  unfolding set_hook_at
  set_hook_clean_page_modify =
      set_hook_at lookup_address Site.clean_page_modify to_mock_func mock_func

  unfoldable pub set_hook_testforshrinkpage_modify : Cmd Kernel (Unit {0})
  unfolding set_hook_at
  set_hook_testforshrinkpage_modify =
      set_hook_at lookup_address Site.testforshrinkpage_modify to_mock_func mock_func

  unfoldable pub set_hook_inflate_page_modify : Cmd Kernel (Unit {0})
  unfolding set_hook_at
  set_hook_inflate_page_modify =
      set_hook_at lookup_address Site.inflate_page_modify to_mock_func mock_func

  unfoldable pub set_hook_deflate_page_modify : Cmd Kernel (Unit {0})
  unfolding set_hook_at
  set_hook_deflate_page_modify =
      set_hook_at lookup_address Site.deflate_page_modify to_mock_func mock_func

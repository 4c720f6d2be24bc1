-- ===== src/Hook/Vmcs.antt =====
-- src/SecureVM/set_hook.h: the hook installers of the functions that handle a VMCS.
use hyper_mi.Base.{ℕ}
use hyper_mi.Base.{Cmd}
use hyper_mi.Hook.Data.{Kernel, Site}
use hyper_mi.Hook.Install.{set_hook_at}

module _ (lookup_address : ℕ → ℕ) (to_mock_func mock_func : ℕ) where
  unfoldable pub set_hook_vmcs_write64 : Cmd Kernel (Unit {0})
  unfolding set_hook_at
  set_hook_vmcs_write64 = set_hook_at lookup_address Site.vmcs_write64 to_mock_func mock_func

  unfoldable pub set_hook_vmcs_writel : Cmd Kernel (Unit {0})
  unfolding set_hook_at
  set_hook_vmcs_writel = set_hook_at lookup_address Site.vmcs_writel to_mock_func mock_func

  unfoldable pub set_hook_vmcs_readl : Cmd Kernel (Unit {0})
  unfolding set_hook_at
  set_hook_vmcs_readl = set_hook_at lookup_address Site.vmcs_readl to_mock_func mock_func

  unfoldable pub set_hook_vmcs_clear : Cmd Kernel (Unit {0})
  unfolding set_hook_at
  set_hook_vmcs_clear = set_hook_at lookup_address Site.vmcs_clear to_mock_func mock_func

  unfoldable pub set_hook_alloc_vmcs_sec : Cmd Kernel (Unit {0})
  unfolding set_hook_at
  set_hook_alloc_vmcs_sec = set_hook_at lookup_address Site.alloc_vmcs_sec to_mock_func mock_func

  unfoldable pub set_hook_loaded_vmcs_init : Cmd Kernel (Unit {0})
  unfolding set_hook_at
  set_hook_loaded_vmcs_init =
      set_hook_at lookup_address Site.loaded_vmcs_init to_mock_func mock_func

  unfoldable pub set_hook_free_loaded_vmcs : Cmd Kernel (Unit {0})
  unfolding set_hook_at
  set_hook_free_loaded_vmcs =
      set_hook_at lookup_address Site.free_loaded_vmcs to_mock_func mock_func

  unfoldable pub set_hook_alloc_vmcs_modify : Cmd Kernel (Unit {0})
  unfolding set_hook_at
  set_hook_alloc_vmcs_modify =
      set_hook_at lookup_address Site.alloc_vmcs_modify to_mock_func mock_func

  unfoldable pub set_hook_free_loaded_vmcs_modify : Cmd Kernel (Unit {0})
  unfolding set_hook_at
  set_hook_free_loaded_vmcs_modify =
      set_hook_at lookup_address Site.free_loaded_vmcs_modify to_mock_func mock_func

  unfoldable pub set_hook_loaded_vmcs_init_modify : Cmd Kernel (Unit {0})
  unfolding set_hook_at
  set_hook_loaded_vmcs_init_modify =
      set_hook_at lookup_address Site.loaded_vmcs_init_modify to_mock_func mock_func

  unfoldable pub set_hook_handle_vmcs_addr : Cmd Kernel (Unit {0})
  unfolding set_hook_at
  set_hook_handle_vmcs_addr =
      set_hook_at lookup_address Site.handle_vmcs_addr to_mock_func mock_func

  unfoldable pub set_hook_loaded_vmcs_clear : Cmd Kernel (Unit {0})
  unfolding set_hook_at
  set_hook_loaded_vmcs_clear =
      set_hook_at lookup_address Site.loaded_vmcs_clear to_mock_func mock_func

  unfoldable pub set_hook_free_vmcs : Cmd Kernel (Unit {0})
  unfolding set_hook_at
  set_hook_free_vmcs = set_hook_at lookup_address Site.free_vmcs to_mock_func mock_func

  unfoldable pub set_hook_vmcs_load : Cmd Kernel (Unit {0})
  unfolding set_hook_at
  set_hook_vmcs_load = set_hook_at lookup_address Site.vmcs_load to_mock_func mock_func

-- ===== src/Hook/Effect.antt =====
-- One call of a hook installer, and the installation and removal of all hooks of a session.
use hyper_mi.Base.{
  ℕ, ◌^◌, ◌<◌, ◌≡◌, ◌≢◌, arith, true, false, some, within, read, overlay-outside, ok, Returns,
  ==_refl,
}
use hyper_mi.Hook.Data.{Site, index, Kernel}
use hyper_mi.Hook.Install.{jump_to, set_hook_at}
use hyper_mi.Hook.Install.Closed.{hooked, hook_with-hooked}
use hyper_mi.Hook.Jump.{jump_target, jump_target-jump_to}

module _ (lookup_address : ℕ → ℕ) where
  -- The twelve bytes of a function stand on one mapped page.
  pub record OnePage (to : ℕ) : Type 0 where
    pub mapped : lookup_address to ≢ 0
    pub same : (x : ℕ) → within to 12 x ≡ true → lookup_address x ≡ lookup_address to

  pub set_hook_at-hooked :
      (s : Site) (to m : ℕ) (k : Kernel)
      → OnePage to
      → set_hook_at lookup_address s to m k ≡ ok tt (hooked lookup_address s to k (jump_to m))
  unfolding set_hook_at jump_to
  set_hook_at-hooked s to m k p =
      hook_with-hooked lookup_address s to k (jump_to m) (omega arith) p.mapped p.same

  -- A hook installed at site `s` on a function whose first twelve bytes stand on one mapped page
  -- makes the function jump to its replacement, saves its bytes under the site, and changes no
  -- other byte of text.
  pub set_hook_at-redirects :
      (s : Site) (to m : ℕ) (k : Kernel)
      → OnePage to
      → m < 2 ^ 64
      → Returns (set_hook_at lookup_address s to m k) λ _ k'.
        (jump_target k'.text to ≡ some m)
        × (k'.mem s ≡ to)
        × (k'.orig_code s ≡ read k.text to 12)
        × ((x : ℕ) → within to 12 x ≡ false → k'.text x ≡ k.text x)
  unfolding jump_to
  set_hook_at-redirects s to m k p small = (
    tt,
    hooked lookup_address s to k (jump_to m),
    set_hook_at-hooked s to m k p,
    (
      jump_target-jump_to k.text to m small,
      rw (==_refl (index s)),
      rw (==_refl (index s)),
      overlay-outside k.text to (jump_to m),
    ),
  )

-- ===== src/Hook/Order.antt =====
-- The sites of a session in the order of src/SecureVM/hookcr32.c, and one induction over the hooks
-- that my_init installs.
use hyper_mi.Base.{
  ℕ, ◌≡◌, refl, arith, Bool, true, List, [], ◌∷◌, ◌&&◌, Cmd, ◌>>◌, Returns, Returns-and_then,
}
use hyper_mi.Hook.Data.{Site, index, Kernel}
use hyper_mi.Hook.Install.{set_hook_at}
use hyper_mi.Hook.Effect.{OnePage}
use hyper_mi.Hook.RoundTrip.{All, fresh}
use hyper_mi.Hook.Session.{install_hooks}

abbrev fits : List Site → List Site → Bool
fits [] earlier = true
fits (s ∷ ss) earlier = fresh s earlier && fits ss (s ∷ earlier)

abbrev pub tail : List Site → List Site
tail [] = []
tail (s ∷ ss) = ss

abbrev pub rev_onto : List Site → List Site → List Site
rev_onto [] ss = ss
rev_onto (t ∷ ts) ss = rev_onto ts (t ∷ ss)

-- The sites in the order of my_init, and in that of my_exit.
abbrev pub init_sites : List Site
init_sites =
    Site.pte ∷ Site.pmd ∷ Site.pagefault ∷ Site.vmcs_readl ∷ Site.vmcs_writel ∷ Site.vmcs_clear
    ∷ Site.handle_pfn_modify ∷ Site.handle_pfn_map ∷ Site.clean_page_modify
    ∷ Site.testforshrinkpage_modify ∷ Site.ksm_page_modify ∷ Site.inflate_page_modify
    ∷ Site.deflate_page_modify ∷ []

abbrev pub exit_sites : List Site
exit_sites =
    Site.pte ∷ Site.pmd ∷ Site.pagefault ∷ Site.vmcs_writel ∷ Site.vmcs_readl ∷ Site.vmcs_clear
    ∷ Site.handle_pfn_modify ∷ Site.handle_pfn_map ∷ Site.ksm_page_modify ∷ Site.clean_page_modify
    ∷ Site.testforshrinkpage_modify ∷ Site.inflate_page_modify ∷ Site.deflate_page_modify ∷ []

pub All-rev_onto :
    (P : Site → Type 0) (ss ts : List Site) → All P (rev_onto ss ts) → All P ss × All P ts
All-rev_onto P [] ts h = (tt, h)
All-rev_onto P (s ∷ ss) ts h =
    let (rest, both) = All-rev_onto P ss (s ∷ ts) h in ((both.0, rest), both.1)

module _ (lookup_address : ℕ → ℕ) (target mock : Site → ℕ) where
  installing : Cmd Kernel (Unit {0}) → List Site → Cmd Kernel (Unit {0})
  installing first [] = first
  installing first (s ∷ ss) =
      installing (first >> set_hook_at lookup_address s (target s) (mock s)) ss

  module _ (P : List Site → Kernel → Type 0)
      (one_more : (s : Site) (earlier : List Site) (k : Kernel)
        → OnePage lookup_address (target s)
        → fresh s earlier ≡ true
        → P earlier k
        → Returns (set_hook_at lookup_address s (target s) (mock s) k) λ _. P (s ∷ earlier)) where
    installing-keeps :
        (k : Kernel) (first : Cmd Kernel (Unit {0})) (ss earlier : List Site)
        → All (λ s. OnePage lookup_address (target s)) ss
        → fits ss earlier ≡ true
        → Returns (first k) (λ _. P earlier)
        → Returns (installing first ss k) λ _. P (rev_onto ss earlier)
    unfolding installing
    installing-keeps k first [] earlier pages new h = h
    installing-keeps k first (s ∷ ss) earlier pages new h =
        installing-keeps k (first >> set_hook_at lookup_address s (target s) (mock s)) ss
          (s ∷ earlier) pages.1 (ground arith)
          (Returns-and_then h λ _ k'. one_more s earlier k' pages.0 (ground arith))

    -- What one hook more keeps, all hooks of my_init keep.
    pub install_hooks-keeps :
        (k : Kernel)
        → All (λ s. OnePage lookup_address (target s)) init_sites
        → P [] k
        → Returns (install_hooks lookup_address target mock k) λ _. P (rev_onto init_sites [])
    unfolding install_hooks installing index
    install_hooks-keeps k pages h =
        installing-keeps k (set_hook_at lookup_address Site.pte (target Site.pte) (mock Site.pte))
          (tail init_sites) (Site.pte ∷ []) pages.1 refl (one_more Site.pte [] k pages.0 refl h)

-- ===== src/Hook/Mediation.antt =====
-- Once my_init of src/SecureVM/hookcr32.c has installed its hooks, every call of a hooked function
-- reaches its replacement.
use hyper_mi.Base.{
  ℕ, ◌+◌, ◌^◌, ◌<◌, ◌≡◌, refl, ◌∙◌, arith, true, false, some, List, [], ◌∷◌, within, read-same,
  Bool-cases, inl, inr, overlay, overlay-outside, Returns,
}
use hyper_mi.Hook.Data.{Site, same_site, Kernel}
use hyper_mi.Hook.Install.{jump_to, set_hook_at}
use hyper_mi.Hook.Install.Closed.{hooked}
use hyper_mi.Hook.Jump.{jump_target, jump_target-jump_to}
use hyper_mi.Hook.Effect.{OnePage, set_hook_at-hooked}
use hyper_mi.Hook.RoundTrip.{All, fresh, covered, Apart}
use hyper_mi.Hook.Session.{install_hooks}
use hyper_mi.Hook.Order.{init_sites, rev_onto, All-rev_onto, install_hooks-keeps}

-- Where code jumps to is told by its twelve bytes.
jump_target-same :
    (f g : ℕ → ℕ) (a : ℕ)
    → ((x : ℕ) → within a 12 x ≡ true → f x ≡ g x)
    → jump_target f a ≡ jump_target g a
unfolding jump_target
jump_target-same f g a same = rw (
  same (a + 0) (ground arith),
  same (a + 1) (ground arith),
  same (a + 10) (ground arith),
  same (a + 11) (ground arith),
  read-same f g (a + 2) 8 (λ x e. same x (ground arith)),
)

module _ (lookup_address : ℕ → ℕ) (target mock : Site → ℕ) where
  abbrev pub Jumps : Kernel → Site → Type 0
  Jumps k s = jump_target k.text (target s) ≡ some (mock s)

  -- The functions at the sites jump to their replacements, and no other byte of `f` has changed.
  pub record Mediated (f : ℕ → ℕ) (ss : List Site) (k : Kernel) : Type 0 where
    pub jumps : All (Jumps k) ss
    pub rest : (x : ℕ) → covered lookup_address target ss x ≡ false → k.text x ≡ f x

  Jumps-hooked :
      (s t : Site) (k : Kernel)
      → Apart lookup_address target
      → same_site s t ≡ false
      → Jumps k t
      → Jumps (hooked lookup_address s (target s) k (jump_to (mock s))) t
  unfolding jump_to
  Jumps-hooked s t k apart other h =
      let not_inside : (x : ℕ) → within (target t) 12 x ≡ true → within (target s) 12 x ≡ false =
        λ x e. elim (Bool-cases (within (target s) 12 x)) [
          | inl inside ↦ let out = apart s t x other inside in absurd (cc)
          | inr out ↦ out
        ] in
      jump_target-same (overlay k.text (target s) (jump_to (mock s))) k.text (target t)
        (λ x e. overlay-outside k.text (target s) (jump_to (mock s)) x (not_inside x e))
      ∙ h

  All-hooked :
      (s : Site) (k : Kernel) (ss : List Site)
      → Apart lookup_address target
      → fresh s ss ≡ true
      → All (Jumps k) ss
      → All (Jumps (hooked lookup_address s (target s) k (jump_to (mock s)))) ss
  All-hooked s k [] apart new h = tt
  All-hooked s k (t ∷ ts) apart new h =
      (Jumps-hooked s t k apart (ground arith) h.0, All-hooked s k ts apart (ground arith) h.1)

  set_hook_at-Mediated :
      (f : ℕ → ℕ) (s : Site) (ss : List Site) (k : Kernel)
      → Apart lookup_address target
      → mock s < 2 ^ 64
      → OnePage lookup_address (target s)
      → fresh s ss ≡ true
      → Mediated f ss k
      → Returns (set_hook_at lookup_address s (target s) (mock s) k) λ _. Mediated f (s ∷ ss)
  unfolding jump_to
  set_hook_at-Mediated f s ss k apart small page new h = (
    tt,
    hooked lookup_address s (target s) k (jump_to (mock s)),
    set_hook_at-hooked lookup_address s (target s) (mock s) k page,
    record {
      jumps = (
        jump_target-jump_to k.text (target s) (mock s) small,
        All-hooked s k ss apart new h.jumps,
      );
      rest = λ x e.
          overlay-outside k.text (target s) (jump_to (mock s)) x (ground arith)
          ∙ h.rest x (ground arith);
    },
  )

  covered-rev_onto :
      (ss ts : List Site) (x : ℕ)
      → covered lookup_address target ss x ≡ false
      → covered lookup_address target ts x ≡ false
      → covered lookup_address target (rev_onto ss ts) x ≡ false
  covered-rev_onto [] ts x h out = out
  covered-rev_onto (s ∷ ss) ts x h out =
      covered-rev_onto ss (s ∷ ts) x (ground arith) (ground arith)

  -- Complete mediation: if the thirteen functions each stand on one mapped page and do not overlap,
  -- and the replacements have addresses of 64 bits, the hooks of my_init return; afterwards every
  -- one of the thirteen functions jumps to its replacement, and no other byte of text has changed.
  pub install_hooks-mediates :
      (k : Kernel)
      → All (λ s. OnePage lookup_address (target s)) init_sites
      → Apart lookup_address target
      → ((s : Site) → mock s < 2 ^ 64)
      → Returns (install_hooks lookup_address target mock k) λ _ k'.
        All (Jumps k') init_sites
        × ((x : ℕ) → covered lookup_address target init_sites x ≡ false → k'.text x ≡ k.text x)
  install_hooks-mediates k pages apart small =
      let (u, k', run, h) =
        install_hooks-keeps lookup_address target mock (Mediated k.text)
          (λ s earlier j page new. set_hook_at-Mediated k.text s earlier j apart (small s) page new)
          k pages (record { jumps = tt; rest = λ x e. refl }) in
      (
        u,
        k',
        run,
        (
          (All-rev_onto (Jumps k') init_sites [] h.jumps).0,
          λ x out. h.rest x (covered-rev_onto init_sites [] x out refl),
        ),
      )

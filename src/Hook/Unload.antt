-- ===== src/Hook/Unload.antt =====
-- my_init's hooks followed by my_exit, as src/SecureVM/hookcr32.c orders them.
use hyper_mi.Base.{
  ℕ, ◌≡◌, refl, ap, ◌∙◌, arith, true, false, List, [], ◌∷◌, within, Cmd, ◌>>◌, Returns,
  Returns-and_then,
}
use hyper_mi.Hook.Data.{Site, Kernel}
use hyper_mi.Hook.Install.{writable}
use hyper_mi.Hook.Effect.{OnePage}
use hyper_mi.Hook.RoundTrip.{
  All, All-map, covered, Apart, Saved, Agrees, Patched, install-Patched, restore-Agrees,
}
use hyper_mi.Hook.Session.{restore, my_exit, install_hooks}
use hyper_mi.Hook.Order.{init_sites, exit_sites, tail, rev_onto, install_hooks-keeps}

module _ (lookup_address : ℕ → ℕ) where
  -- `first`, and then the sites `ss` are restored.
  restoring : Cmd Kernel (Unit {0}) → List Site → Cmd Kernel (Unit {0})
  restoring first [] = first
  restoring first (s ∷ ss) = restoring (first >> restore lookup_address s) ss

  module _ (target mock : Site → ℕ) where
    module _ (f : ℕ → ℕ) (k : Kernel) where
      Saved-text :
          {k k' : Kernel} (s : Site)
          → k' ≡ record k { text = k'.text }
          → Saved lookup_address target f k s
          → Saved lookup_address target f k' s
      Saved-text s e h = record {
        where_is = ap (λ (j : Kernel). j.mem s) e ∙ h.where_is;
        code = ap (λ (j : Kernel). j.orig_code s) e ∙ h.code;
        open_page = λ x w. rw e (h.open_page x w);
      }

      -- `ss` are still to be restored, and from `k` on only text has changed.
      record Undoing (ss : List Site) (k' : Kernel) : Type 0 where
        saved : All (Saved lookup_address target f k') ss
        agrees : Agrees lookup_address target f ss k'
        only : k' ≡ record k { text = k'.text }

      restore-step :
          (k' : Kernel) (s : Site) (ss : List Site)
          → All (Saved lookup_address target f k') (s ∷ ss)
          → Agrees lookup_address target f (s ∷ ss) k'
          → k' ≡ record k { text = k'.text }
          → Returns (restore lookup_address s k') λ _. Undoing ss
      restore-step k' s ss saved agrees only =
          let (u, k2, e, p) = restore-Agrees lookup_address target f s ss k' saved.0 agrees in
          (
            u,
            k2,
            e,
            record {
              saved = All-map ss (λ t. Saved-text t p.1) saved.1;
              agrees = p.0;
              only = p.1 ∙ ap (λ (j : Kernel). record j { text = k2.text }) only;
            },
          )

      restoring-Agrees :
          (first : Cmd Kernel (Unit {0})) (ss : List Site)
          → Returns (first k) (λ _. Undoing ss)
          → Returns (restoring first ss k) λ _. Undoing []
      unfolding restoring
      restoring-Agrees first [] (a, k', e, h) = (a, k', e, h)
      restoring-Agrees first (s ∷ ss) h =
          restoring-Agrees (first >> restore lookup_address s) ss
            (Returns-and_then h λ _ k' u. restore-step k' s ss u.saved u.agrees u.only)

    reorder : (P : Site → Type 0) → All P (rev_onto init_sites []) → All P exit_sites
    reorder P
          (
            defl,
            (
              infl,
              (
                ksm,
                (shrink, (clean, (map, (pfn, (clear, (writel, (readl, (pf, (pmd, (pte, u)))))))))),
              ),
            ),
          ) =
        (
          pte,
          (
            pmd,
            (
              pf,
              (writel, (readl, (clear, (pfn, (map, (ksm, (clean, (shrink, (infl, (defl, u)))))))))),
            ),
          ),
        )

    back : (P : Site → Type 0) → All P exit_sites → All P (rev_onto init_sites [])
    back P
          (
            pte,
            (
              pmd,
              (
                pf,
                (
                  writel,
                  (readl, (clear, (pfn, (map, (ksm, (clean, (shrink, (infl, (defl, u))))))))),
                ),
              ),
            ),
          ) =
        (
          defl,
          (
            infl,
            (
              ksm,
              (shrink, (clean, (map, (pfn, (clear, (writel, (readl, (pf, (pmd, (pte, u)))))))))),
            ),
          ),
        )

    Outside : ℕ → Site → Type 0
    Outside x s = within (target s) 12 x ≡ false

    All-Outside :
        (x : ℕ) (ss : List Site) → covered lookup_address target ss x ≡ false → All (Outside x) ss
    unfolding Outside
    All-Outside x [] h = tt
    All-Outside x (s ∷ ss) h = (ground arith, All-Outside x ss (ground arith))

    covered-Outside :
        (x : ℕ) (ss : List Site) → All (Outside x) ss → covered lookup_address target ss x ≡ false
    unfolding Outside
    covered-Outside x [] h = refl
    covered-Outside x (s ∷ ss) h = rw (h.0, covered-Outside x ss h.1)

    covered-exit :
        (x : ℕ)
        → covered lookup_address target exit_sites x ≡ false
        → covered lookup_address target (rev_onto init_sites []) x ≡ false
    covered-exit x h =
        covered-Outside x (rev_onto init_sites []) (back (Outside x) (All-Outside x exit_sites h))

    install_hooks-Patched :
        (k : Kernel)
        → All (λ s. OnePage lookup_address (target s)) init_sites
        → Apart lookup_address target
        → Returns
            (install_hooks lookup_address target mock k)
            λ _. Patched lookup_address target k.text (rev_onto init_sites [])
    install_hooks-Patched k pages apart =
        install_hooks-keeps lookup_address target mock (Patched lookup_address target k.text)
          (λ s earlier k' page new h.
            install-Patched lookup_address target k.text s (mock s) k' earlier page apart new h)
          k pages (record { agrees = λ x e. refl; saved = tt })

    my_exit-Agrees :
        (f : ℕ → ℕ) (k : Kernel)
        → All (Saved lookup_address target f k) exit_sites
        → Agrees lookup_address target f exit_sites k
        → Returns (my_exit lookup_address k) λ _. Undoing f k []
    unfolding my_exit restoring
    my_exit-Agrees f k saved agrees =
        restoring-Agrees f k (restore lookup_address Site.pte) (tail exit_sites)
          (restore-step f k k Site.pte (tail exit_sites) saved agrees refl)

    -- Every byte of the hooked functions can be written.
    abbrev pub AreOpen : Kernel → Type 0
    AreOpen k =
        All (λ s. (x : ℕ) → within (target s) 12 x ≡ true → writable lookup_address k x ≡ true)
          exit_sites

    pub install_hooks-unloads :
        (k : Kernel)
        → All (λ s. OnePage lookup_address (target s)) init_sites
        → Apart lookup_address target
        → Returns (install_hooks lookup_address target mock k) λ _ k'.
          Returns (my_exit lookup_address k') λ _ j. ((x : ℕ) → j.text x ≡ k.text x) × AreOpen j
    install_hooks-unloads k pages apart =
        let (u, k', run, h) = install_hooks-Patched k pages apart in
        let saved = reorder (Saved lookup_address target k.text k') h.saved in
        let (v, j, run', g) =
          my_exit-Agrees k.text k' saved (λ x e. h.agrees x (covered-exit x e)) in
        let still =
          All-map exit_sites (λ s t. (Saved-text k.text k {k = k'} {k' = j} s g.only t).open_page)
            saved in
        (u, k', run, (v, j, run', (λ x. g.agrees x refl, still)))

    -- Unloading undoes loading: if the thirteen functions each stand on one mapped page and do not
    -- overlap, my_init's hooks and then my_exit return, and leave the kernel text as it was.
    pub install_hooks-my_exit :
        (k : Kernel)
        → All (λ s. OnePage lookup_address (target s)) init_sites
        → Apart lookup_address target
        → Returns
            ((install_hooks lookup_address target mock >> my_exit lookup_address) k)
            λ _ k'. (x : ℕ) → k'.text x ≡ k.text x
    install_hooks-my_exit k pages apart =
        Returns-and_then (install_hooks-unloads k pages apart)
          λ _ k' (v, j, run, h). (v, j, run, h.0)

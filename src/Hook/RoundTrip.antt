-- ===== src/Hook/RoundTrip.antt =====
-- What a session of hooks keeps: every byte outside the hooked functions, and under each site the
-- original bytes of its function. `target` gives the function that each site hooks.
use hyper_mi.Base.{
  ℕ, zero, suc, ◌+◌, ap, ◌≡◌, refl, ◌∙◌, arith, Bool, true, false, not, List, [], ◌∷◌, ◌&&◌, ◌||◌,
  within, read, length-read, read-same, overlay, overlay-read, overlay-outside, Returns, ==_refl,
}
use hyper_mi.Hook.Data.{Site, index, same_site, Kernel}
use hyper_mi.Hook.Install.{writable, jump_to, set_hook_at}
use hyper_mi.Hook.Install.Closed.{hooked, writable-opened, store_bytes-overlay, writable-target}
use hyper_mi.Hook.Effect.{OnePage, set_hook_at-hooked}
use hyper_mi.Hook.Session.{array, restore}

abbrev pub All : (Site → Type 0) → List Site → Type 0
All P [] = Unit
All P (s ∷ ss) = P s × All P ss

abbrev pub fresh : Site → List Site → Bool
fresh s [] = true
fresh s (t ∷ ts) = not (same_site s t) && fresh s ts

abbrev pub distinct : List Site → Bool
distinct [] = true
distinct (s ∷ ss) = fresh s ss && distinct ss

pub All-map :
    {P Q : Site → Type 0} (ss : List Site) → ((s : Site) → P s → Q s) → All P ss → All Q ss
All-map [] f h = tt
All-map (s ∷ ss) f h = (f s h.0, All-map ss f h.1)

module _ (lookup_address : ℕ → ℕ) (target : Site → ℕ) where
  -- `x` is a byte of a function hooked at one of these sites.
  abbrev pub covered : List Site → ℕ → Bool
  covered [] x = false
  covered (s ∷ ss) x = within (target s) 12 x || covered ss x

  -- The functions hooked at two different sites do not overlap.
  abbrev pub Apart : Type 0
  Apart =
      (s t : Site) (x : ℕ)
      → same_site s t ≡ false
      → within (target s) 12 x ≡ true
      → within (target t) 12 x ≡ false

  covered-false :
      (s : Site) (ss : List Site) (x : ℕ)
      → Apart
      → fresh s ss ≡ true
      → within (target s) 12 x ≡ true
      → covered ss x ≡ false
  covered-false s [] x apart new h = refl
  covered-false s (t ∷ ts) x apart new h = ground (arith, apart s t x, covered-false s ts x apart)

  -- The function of site `s` can be given back the bytes that it has in `f`.
  pub record Saved (f : ℕ → ℕ) (k : Kernel) (s : Site) : Type 0 where
    pub where_is : k.mem s ≡ target s
    pub code : k.orig_code s ≡ read f (target s) 12
    pub open_page : (x : ℕ) → within (target s) 12 x ≡ true → writable lookup_address k x ≡ true

  abbrev pub Agrees : (ℕ → ℕ) → List Site → Kernel → Type 0
  Agrees f ss k = (x : ℕ) → covered ss x ≡ false → k.text x ≡ f x

  -- One more hook.
  install-Saved :
      (f : ℕ → ℕ) (s : Site) (m : ℕ) (k : Kernel) (ss : List Site)
      → fresh s ss ≡ true
      → All (Saved f k) ss
      → All (Saved f (hooked lookup_address s (target s) k (jump_to m))) ss
  install-Saved f s m k [] new h = tt
  install-Saved f s m k (t ∷ ts) new h =
      let other : same_site s t ≡ false = ground arith in
      (
        record {
          where_is = rw other h.0.where_is;
          code = rw other h.0.code;
          open_page = λ x e.
              writable-opened lookup_address k (hooked lookup_address s (target s) k (jump_to m))
                (target s) x refl (h.0.open_page x e);
        },
        install-Saved f s m k ts (ground arith) h.1,
      )

  -- The state of a session: `ss` are the sites hooked so far, `f` is the original text.
  pub record Patched (f : ℕ → ℕ) (ss : List Site) (k : Kernel) : Type 0 where
    pub agrees : Agrees f ss k
    pub saved : All (Saved f k) ss

  pub install-Patched :
      (f : ℕ → ℕ) (s : Site) (m : ℕ) (k : Kernel) (ss : List Site)
      → OnePage lookup_address (target s)
      → Apart
      → fresh s ss ≡ true
      → Patched f ss k
      → Returns (set_hook_at lookup_address s (target s) m k) λ _. Patched f (s ∷ ss)
  unfolding jump_to
  install-Patched f s m k ss p apart new h = (
    tt,
    hooked lookup_address s (target s) k (jump_to m),
    set_hook_at-hooked lookup_address s (target s) m k p,
    record {
      agrees = λ x e.
          overlay-outside k.text (target s) (jump_to m) x (ground arith)
          ∙ h.agrees x (ground arith);
      saved = (
        record {
          where_is = rw (==_refl (index s));
          code = rw (==_refl (index s)) (
              read-same k.text f (target s) 12
                (λ x e. h.agrees x (covered-false s ss x apart new e)));
          open_page = λ x e.
              writable-target lookup_address k (hooked lookup_address s (target s) k (jump_to m))
                (target s) x refl p.mapped (p.same x e);
        },
        install-Saved f s m k ss new h.saved,
      );
    },
  )

  -- An array that was filled is restored whole.
  array-read : (f : ℕ → ℕ) (n a : ℕ) → array n (read f a n) ≡ read f a n
  unfolding read
  array-read f zero a = refl
  array-read f (suc n) a = ap (λ l. f a ∷ l) (array-read f n (a + 1))

  -- One site less to restore.
  pub restore-Agrees :
      (f : ℕ → ℕ) (s : Site) (ss : List Site) (k : Kernel)
      → Saved f k s
      → Agrees f (s ∷ ss) k
      → Returns
          (restore lookup_address s k)
          λ _ k'. Agrees f ss k' × (k' ≡ record k { text = k'.text })
  unfolding restore
  restore-Agrees f s ss k h a = (
    tt,
    record k { text = overlay k.text (target s) (read f (target s) 12) },
    rw (h.where_is, h.code, array-read f 12 (target s))
        (store_bytes-overlay lookup_address (read f (target s) 12) (target s) k
          (λ x e. h.open_page x (rw length-read at e))),
    (λ x e. overlay-read k.text f (target s) 12 x ∙ ground (arith, a x), refl),
  )

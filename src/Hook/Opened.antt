-- ===== src/Hook/Opened.antt =====
-- What the hooks of src/SecureVM/set_hook.h do to the protection of kernel text: `make_rw` opens the
-- page of the first byte only, and nothing closes it again.
use hyper_mi.Base.{
  ℕ, ◌+◌, ◌≡◌, ◌≢◌, ◌⊎◌, subst, refl, arith, true, false, List, [], ◌∷◌, ◌==◌, ==_refl, ==_of_ne,
  Bool-cases, inl, inr, update, within, length, read, fault, ◌>>◌, Returns, Returns-and_then,
}
use hyper_mi.Hook.Data.{Site, index, Kernel}
use hyper_mi.Hook.Install.{
  put_site, writable, store_bytes, make_rw, jump_to, hook_with, set_hook_at,
}
use hyper_mi.Hook.Install.Closed.{opened}
use hyper_mi.Hook.Effect.{OnePage}
use hyper_mi.Hook.RoundTrip.{All, Apart}
use hyper_mi.Hook.Session.{my_exit, install_hooks}
use hyper_mi.Hook.Order.{init_sites}
use hyper_mi.Hook.Unload.{AreOpen, install_hooks-unloads}

module _ (lookup_address : ℕ → ℕ) (target mock : Site → ℕ) where
  -- Unloading leaves kernel text open: if the thirteen functions each stand on one mapped page and
  -- do not overlap, my_init's hooks and then my_exit return, and whatever the protection of before,
  -- every byte of the thirteen functions is writable afterwards.
  pub install_hooks-AreOpen :
      (k : Kernel)
      → All (λ s. OnePage lookup_address (target s)) init_sites
      → Apart lookup_address target
      → Returns
          ((install_hooks lookup_address target mock >> my_exit lookup_address) k)
          λ _. AreOpen lookup_address target mock
  install_hooks-AreOpen k pages apart =
      Returns-and_then (install_hooks-unloads lookup_address target mock k pages apart)
        λ _ k' (v, j, run, h). (v, j, run, h.1)

module _ (lookup_address : ℕ → ℕ) where
  -- A store that meets a closed page is refused.
  store_bytes-fault :
      (vs : List ℕ) (a x : ℕ) (k : Kernel)
      → within a (length vs) x ≡ true
      → writable lookup_address k x ≡ false
      → store_bytes lookup_address a vs k ≡ fault
  unfolding store_bytes
  store_bytes-fault [] a x k inside closed = ground arith
  store_bytes-fault (v ∷ vs) a x k inside closed = elim (Bool-cases (x == a)) [
    | inl here ↦
        let e : x ≡ a = ground arith in
        let c : writable lookup_address k a ≡ false =
          subst (λ y. writable lookup_address k y ≡ false) e closed in
        rw c refl
    | inr there ↦
        let e =
          store_bytes-fault vs (a + 1) x (record k { text = update k.text a v }) (ground arith)
            closed in
        elim (Bool-cases (writable lookup_address k a)) [
          | inl y ↦ rw (y, e) refl
          | inr n ↦ rw n refl
        ]
  ]

  -- A hook on a function that is not mapped faults, and so does one on a function of which some
  -- of the first twelve bytes stand on another page that is read-only or not mapped: make_rw opens
  -- the page of the first byte alone.
  pub set_hook_at-faults :
      (s : Site) (to m : ℕ) (k : Kernel)
      → (lookup_address to ≡ 0)
        ⊎ ((x : ℕ) × (within to 12 x ≡ true)
            × (lookup_address x ≢ lookup_address to)
            × (writable lookup_address k x ≡ false))
      → set_hook_at lookup_address s to m k ≡ fault
  unfolding set_hook_at hook_with make_rw jump_to
  set_hook_at-faults s to m k (inl unmapped) = rw (unmapped) refl
  set_hook_at-faults s to m k (inr (x, inside, other, closed)) =
      elim (Bool-cases (lookup_address to == 0)) [
        | inl unmapped ↦ rw unmapped refl
        | inr mapped ↦
            rw (mapped, ==_refl (index s))
              (store_bytes-fault (jump_to m) to x
                (record k {
                  entry = opened lookup_address k to;
                  mem = put_site k.mem s to;
                  orig_code = put_site k.orig_code s (read k.text to 12);
                })
                inside (rw (==_of_ne (lookup_address x) (lookup_address to) other) closed))
      ]

-- ===== src/Hook/Install/Closed.antt =====
-- One hook in closed form: where the target's page is mapped, the code is saved and replaced.
use hyper_mi.Base.{
  ℕ, ◌+◌, ◌≤◌, ◌≡◌, ◌≢◌, refl, arith, true, List, [], ◌∷◌, bit_and, bit_or, ==_refl, ==_of_ne,
  update, within, length, read, overlay, ok,
}
use hyper_mi.Base.Mask.{and_field, or_bit}
use hyper_mi.Base.Page.{page_rw}
use hyper_mi.Hook.Data.{Site, index, Kernel}
use hyper_mi.Hook.Install.{put_site, make_rw, writable, store_bytes, hook_with}

-- Setting the bit makes an entry writable, and a writable one keeps the bit.
pub rw-set : (e : ℕ) → bit_and (bit_or e page_rw) page_rw ≡ page_rw
rw-set e = omega (arith, and_field 1 1 (bit_or e 2), or_bit 1 e)

module _ (lookup_address : ℕ → ℕ) where
  pub store_bytes-overlay :
      (vs : List ℕ) (a : ℕ) (k : Kernel)
      → ((x : ℕ) → within a (length vs) x ≡ true → writable lookup_address k x ≡ true)
      → store_bytes lookup_address a vs k ≡ ok tt (record k { text = overlay k.text a vs })
  unfolding store_bytes overlay
  store_bytes-overlay [] a k h = refl
  store_bytes-overlay (v ∷ vs) a k h = rw (h a (ground arith)) (
      store_bytes-overlay vs (a + 1) (record k { text = update k.text a v })
        (λ x e. h x (ground arith)))

  -- What `make_rw` leaves of the page-table entries.
  abbrev pub opened : Kernel → ℕ → ℕ → ℕ
  opened k to = update k.entry (lookup_address to) (bit_or (k.entry (lookup_address to)) page_rw)

  -- Pages that were writable stay so, and the page of `to` becomes writable.
  pub writable-opened :
      (k k' : Kernel) (to x : ℕ)
      → k'.entry ≡ opened k to
      → writable lookup_address k x ≡ true
      → writable lookup_address k' x ≡ true
  writable-opened k k' to x e h = rw e (ground (arith, rw-set (k.entry (lookup_address to))))

  pub writable-target :
      (k k' : Kernel) (to x : ℕ)
      → k'.entry ≡ opened k to
      → lookup_address to ≢ 0
      → lookup_address x ≡ lookup_address to
      → writable lookup_address k' x ≡ true
  writable-target k k' to x e mapped same =
      rw (e, same) (ground (arith, rw-set (k.entry (lookup_address to))))

  module _ (s : Site) (to : ℕ) (k : Kernel) where
    abbrev pub hooked : List ℕ → Kernel
    hooked code = record {
      text = overlay k.text to code;
      entry = opened k to;
      mem = put_site k.mem s to;
      orig_code = put_site k.orig_code s (read k.text to 12);
      log = k.log;
    }

    pub hook_with-hooked :
        (code : List ℕ)
        → length code ≤ 12
        → lookup_address to ≢ 0
        → ((x : ℕ) → within to 12 x ≡ true → lookup_address x ≡ lookup_address to)
        → hook_with lookup_address code s to k ≡ ok tt (hooked code)
    unfolding hook_with make_rw
    hook_with-hooked code short mapped page =
        rw (==_of_ne (lookup_address to) 0 mapped, ==_refl (index s))
          (store_bytes-overlay code to
            (record k {
              entry = opened k to;
              mem = put_site k.mem s to;
              orig_code = put_site k.orig_code s (read k.text to 12);
            })
            (λ x e.
              writable-target k
                (record k {
                  entry = opened k to;
                  mem = put_site k.mem s to;
                  orig_code = put_site k.orig_code s (read k.text to 12);
                })
                to x refl mapped (page x (ground arith))))

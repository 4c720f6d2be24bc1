-- ===== src/Base/Memory.antt =====
-- Memory as a function of the address, changed at one place, and arrays of bytes in it.
use Prim.Native.Nat.{ℕ, zero, suc, ◌+◌, ◌≤◌, ◌<◌}
use mathlib.Core.Path.{◌≡◌, refl, ap₂}
use mathlib.Core.Bool.{Bool, true, false, ◌&&◌}
use mathlib.Core.List.{List, [], ◌∷◌}
use native.Mathlib.Omega.{arith}
use hyper_mi.Base.Tests.{ltb, leb, ◌==◌, if◌then◌else◌}

-- `x` is one of the `n` places from `a` on.
abbrev pub within : ℕ → ℕ → ℕ → Bool
within a n x = leb a x && ltb x (a + n)

module _ {ℓ} {A : Type ℓ} where
  abbrev pub update : (ℕ → A) → ℕ → A → ℕ → A
  update f a v x = if x == a then v else f x

  abbrev pub length : List A → ℕ
  length [] = 0
  length (x ∷ xs) = suc (length xs)

  abbrev pub get_or : List A → ℕ → A → A
  get_or [] i d = d
  get_or (x ∷ xs) zero d = x
  get_or (x ∷ xs) (suc i) d = get_or xs i d

  -- `memcpy` into memory from address `a` on.
  unfoldable pub overlay : (ℕ → A) → ℕ → List A → ℕ → A
  overlay f a [] = f
  overlay f a (v ∷ vs) = overlay (update f a v) (a + 1) vs

  -- `memcpy` of `n` places from memory.
  unfoldable pub read : (ℕ → A) → ℕ → ℕ → List A
  read f a zero = []
  read f a (suc n) = f a ∷ read f (a + 1) n

  pub overlay-below : (f : ℕ → A) (a : ℕ) (vs : List A) (x : ℕ) → x < a → overlay f a vs x ≡ f x
  unfolding overlay
  overlay-below f a [] x h = refl
  overlay-below f a (v ∷ vs) x h =
      ground (arith, overlay-below (update f a v) (a + 1) vs x (omega arith))

  pub overlay-above :
      (f : ℕ → A) (a : ℕ) (vs : List A) (x : ℕ) → a + length vs ≤ x → overlay f a vs x ≡ f x
  unfolding overlay
  overlay-above f a [] x h = refl
  overlay-above f a (v ∷ vs) x h =
      ground (arith, overlay-above (update f a v) (a + 1) vs x (omega arith))

  pub overlay-outside :
      (f : ℕ → A) (a : ℕ) (vs : List A) (x : ℕ)
      → within a (length vs) x ≡ false
      → overlay f a vs x ≡ f x
  overlay-outside f a vs x h = ground (arith, overlay-below f a vs x, overlay-above f a vs x)

  pub overlay-inside :
      (f : ℕ → A) (a : ℕ) (vs : List A) (i : ℕ) (d : A)
      → i < length vs
      → overlay f a vs (a + i) ≡ get_or vs i d
  unfolding overlay
  overlay-inside f a [] i d h = absurd (omega arith)
  overlay-inside f a (v ∷ vs) zero d h =
      ground (arith, overlay-below (update f a v) (a + 1) vs (a + 0) (omega arith))
  overlay-inside f a (v ∷ vs) (suc i) d h =
      let e : a + suc i ≡ a + 1 + i = omega arith in
      rw e (overlay-inside (update f a v) (a + 1) vs i d (omega arith))

  pub length-read : (f : ℕ → A) (a n : ℕ) → length (read f a n) ≡ n
  unfolding read
  length-read f a zero = refl
  length-read f a (suc n) = omega (arith, length-read f (a + 1) n)

  pub read-same :
      (f g : ℕ → A) (a n : ℕ)
      → ((x : ℕ) → within a n x ≡ true → f x ≡ g x)
      → read f a n ≡ read g a n
  unfolding read
  read-same f g a zero h = refl
  read-same f g a (suc n) h =
      ap₂ ◌∷◌ (h a (ground arith)) (read-same f g (a + 1) n (λ x e. h x (ground arith)))

  -- Writing back what was read from `g` makes that range as in `g`.
  pub overlay-read :
      (f g : ℕ → A) (a n x : ℕ) → overlay f a (read g a n) x ≡ (if within a n x then g x else f x)
  unfolding overlay read
  overlay-read f g a zero x = ground arith
  overlay-read f g a (suc n) x = ground (arith, overlay-read (update f a (g a)) g (a + 1) n x)

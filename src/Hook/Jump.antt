-- ===== src/Hook/Jump.antt =====
-- What the processor runs at a hooked function: `movabs $imm64, %rax; jmp *%rax`, decoded from the
-- bytes independently of how the hook writes them.
use hyper_mi.Base.{
  ℕ, zero, suc, ◌+◌, ◌*◌, ◌/◌, ◌^◌, ◌<◌, ◌≡◌, refl, ap₂, ◌∙◌, arith, Option, none, some, List, [],
  ◌∷◌, ◌++◌, ◌&&◌, ◌==◌, if◌then◌else◌, update, length, get_or, read, overlay, overlay-below,
  overlay-inside,
}
use native.Mathlib.Nat.{pow-suc}
use hyper_mi.Hook.Install.{bytes_of, jump_to}

unfoldable pub number_of : List ℕ → ℕ
number_of [] = 0
number_of (b ∷ bs) = b + 256 * number_of bs

-- The address to which the code at `a` jumps, if it is such a jump.
unfoldable pub jump_target : (ℕ → ℕ) → ℕ → Option ℕ
unfolding number_of
jump_target text a =
    if (text (a + 0) == 0x48)
      && (text (a + 1) == 0xb8)
      && (text (a + 10) == 0xff)
      && (text (a + 11) == 0xe0)
    then some (number_of (read text (a + 2) 8))
    else none

number_of-bytes_of : (k n : ℕ) → n < 256 ^ k → number_of (bytes_of k n) ≡ n
unfolding number_of bytes_of
number_of-bytes_of zero n h = omega arith
number_of-bytes_of (suc k) n h =
    omega (arith, pow-suc 256 k, number_of-bytes_of k (n / 256) (omega (arith, pow-suc 256 k)))

read-overlay :
    (f : ℕ → ℕ) (a : ℕ) (vs ws : List ℕ) → read (overlay f a (vs ++ ws)) a (length vs) ≡ vs
unfolding read overlay
read-overlay f a [] ws = refl
read-overlay f a (v ∷ vs) ws =
    ap₂ ◌∷◌ (overlay-below (update f a v) (a + 1) (vs ++ ws) a (omega arith) ∙ ground arith)
      (read-overlay (update f a v) (a + 1) vs ws)

module _ (f : ℕ → ℕ) (a m : ℕ) where
  middle : read (overlay f a (jump_to m)) (a + 2) 8 ≡ bytes_of 8 m
  unfolding overlay jump_to bytes_of
  middle =
      let e : a + 2 ≡ a + 1 + 1 = omega arith in
      rw e (
        read-overlay (update (update f a 0x48) (a + 1) 0xb8) (a + 1 + 1) (bytes_of 8 m)
          (0xff ∷ 0xe0 ∷ []))

  byte_at : (i : ℕ) → i < 12 → overlay f a (jump_to m) (a + i) ≡ get_or (jump_to m) i 0
  unfolding jump_to
  byte_at i h = overlay-inside f a (jump_to m) i 0 h

  pub jump_target-jump_to : m < 2 ^ 64 → jump_target (overlay f a (jump_to m)) a ≡ some m
  unfolding jump_target jump_to
  jump_target-jump_to h = rw (
    byte_at 0 (omega arith),
    byte_at 1 (omega arith),
    byte_at 10 (omega arith),
    byte_at 11 (omega arith),
    middle,
    number_of-bytes_of 8 m h,
  )

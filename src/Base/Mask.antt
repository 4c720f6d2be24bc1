-- ===== src/Base/Mask.antt =====
-- Words under the masks of the module: low bits, a field of bits, one bit.
use Prim.Native.Nat.{
  ℕ, zero, suc, ◌+◌, ◌-◌, ◌*◌, ◌/◌, ◌%◌, ◌^◌, ◌<◌, bit_and, bit_or, bit_xor, differ,
}
use mathlib.Core.Path.{◌≡◌, refl}
use native.Mathlib.Nat.{
  pow-suc, mul-div_left, mul-mod_left, div-eq_of_lt, mod-eq_of_lt, div_self, mod_self,
}
use native.Mathlib.Omega.{arith}
use hyper_mi.Base.Digits.{
  pow_pos, halve-mod, and_step, or_step, xor_step, and_split, or_split, xor_split, zero-bit_or,
  bit_and-zero, bit_or-zero, bit_xor-zero,
}

-- `&` with ones in the `k` low places is the remainder.
pub and_low : (k a : ℕ) → bit_and a (2 ^ k - 1) ≡ a % 2 ^ k
and_low zero a = omega (arith, bit_and-zero a)
and_low (suc k) a =
    let half : (2 ^ suc k - 1) / 2 ≡ 2 ^ k - 1 = omega (arith, pow-suc 2 k, pow_pos k) in
    let odd : (2 ^ suc k - 1) % 2 ≡ 1 = omega (arith, pow-suc 2 k, pow_pos k) in
    rw
      (
        and_step a (2 ^ suc k - 1),
        half,
        odd,
        and_low k (a / 2),
        pow-suc 2 k,
        halve-mod (2 ^ k) a (pow_pos k),
      )
      (omega arith)

-- `&` with `n` ones above `k` zeros reads that field, in its place.
pub and_field : (n k a : ℕ) → bit_and a ((2 ^ n - 1) * 2 ^ k) ≡ a / 2 ^ k % 2 ^ n * 2 ^ k
and_field n k a =
    rw
      (
        and_split k a ((2 ^ n - 1) * 2 ^ k),
        mul-div_left (2 ^ n - 1) (pow_pos k),
        mul-mod_left (2 ^ n - 1) (2 ^ k),
        and_low n (a / 2 ^ k),
        bit_and-zero (a % 2 ^ k),
      )
      (omega arith)

bit_or-one : (a : ℕ) → bit_or a 1 ≡ a / 2 * 2 + 1
bit_or-one a = omega (arith, or_step a 1, bit_or-zero (a / 2))

differ-one : (x : ℕ) → x < 2 → differ x 1 ≡ 1 - x
differ-one zero h = refl
differ-one (suc zero) h = refl
differ-one (suc (suc x)) h = absurd (omega arith)

bit_xor-one : (a : ℕ) → bit_xor a 1 ≡ a / 2 * 2 + (1 - a % 2)
bit_xor-one a = omega (arith, xor_step a 1, bit_xor-zero (a / 2), differ-one (a % 2) (omega arith))

-- `| 2 ^ k` sets one bit and keeps the others.
pub or_bit : (k a : ℕ) → bit_or a (2 ^ k) ≡ (a / 2 ^ k / 2 * 2 + 1) * 2 ^ k + a % 2 ^ k
or_bit k a = rw (
  or_split k a (2 ^ k),
  div_self (pow_pos k),
  mod_self (2 ^ k),
  bit_or-one (a / 2 ^ k),
  bit_or-zero (a % 2 ^ k),
)

-- `^ 2 ^ k` flips one bit and keeps the others.
pub xor_bit :
    (k a : ℕ) → bit_xor a (2 ^ k) ≡ (a / 2 ^ k / 2 * 2 + (1 - a / 2 ^ k % 2)) * 2 ^ k + a % 2 ^ k
xor_bit k a = rw (
  xor_split k a (2 ^ k),
  div_self (pow_pos k),
  mod_self (2 ^ k),
  bit_xor-one (a / 2 ^ k),
  bit_xor-zero (a % 2 ^ k),
)

-- `|` of a number of pages and an offset below the page size is their sum.
pub or_fields : (k q r : ℕ) → r < 2 ^ k → bit_or (q * 2 ^ k) r ≡ q * 2 ^ k + r
or_fields k q r h = rw (
  or_split k (q * 2 ^ k) r,
  mul-div_left q (pow_pos k),
  mul-mod_left q (2 ^ k),
  div-eq_of_lt h,
  mod-eq_of_lt h,
  bit_or-zero q,
  zero-bit_or r,
)

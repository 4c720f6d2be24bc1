-- ===== src/Base/Digits.antt =====
-- Binary operations at variables: each splits at any bit position into its high and low parts.
use Prim.Native.Nat.{
  ℕ, zero, suc, ◌+◌, ◌*◌, ◌/◌, ◌%◌, ◌^◌, ◌≤◌, ◌<◌, min, max, digits, bitwise, differ, bit_and,
  bit_or, bit_xor, bit_and-bitwise, bit_or-bitwise, bit_xor-bitwise,
}
use mathlib.Core.Path.{◌≡◌, refl, ◌∙◌}
use native.Mathlib.Nat.{pow-suc, one-le-pow, div-one, mod-one}
use native.Mathlib.Omega.{arith}

-- One digit is taken off, whatever count of digits serves as fuel, and the count is dropped.
module _ (z : ℕ → ℕ) (f : ℕ → ℕ → ℕ) (stop : (b : ℕ) → z b ≡ z (b / 2) * 2 + f 0 (b % 2)) where
  digits_enough : (n m a b : ℕ) → a ≤ n → a ≤ m → digits z f n a b ≡ digits z f m a b
  digits_enough zero zero zero b p q = refl
  digits_enough zero (suc m) zero b p q = refl
  digits_enough (suc n) zero zero b p q = refl
  digits_enough (suc n) (suc m) zero b p q = refl
  digits_enough zero m (suc a) b p q = absurd (omega arith)
  digits_enough (suc n) zero (suc a) b p q = absurd (omega arith)
  digits_enough (suc n) (suc m) (suc a) b p q =
      rw (digits_enough n m (suc a / 2) (b / 2) (omega arith) (omega arith))

  bitwise_step : (a b : ℕ) → bitwise z f a b ≡ bitwise z f (a / 2) (b / 2) * 2 + f (a % 2) (b % 2)
  bitwise_step zero b = stop b
  bitwise_step (suc a) b =
      rw (digits_enough a (suc a / 2) (suc a / 2) (b / 2) (omega arith) (omega arith))

module _ (q a : ℕ) (pos : 0 < q) where
  halve-div : a / (q * 2) ≡ a / 2 / q
  halve-div = grind arith

  pub halve-mod : a % (q * 2) ≡ a / 2 % q * 2 + a % 2
  halve-mod = grind arith

pub pow_pos : (k : ℕ) → 0 < 2 ^ k
pow_pos k = one-le-pow k 2 (omega arith)

-- A digitwise operation that gives 0 on zeros acts on the high and the low digits separately.
module _ (op f : ℕ → ℕ → ℕ) (step : (a b : ℕ) → op a b ≡ op (a / 2) (b / 2) * 2 + f (a % 2) (b % 2))
    (zeros : op 0 0 ≡ 0) where
  lower : (x y c d : ℕ) → c < 2 → d < 2 → op (x * 2 + c) (y * 2 + d) ≡ op x y * 2 + f c d
  lower x y c d p q = rw (step (x * 2 + c) (y * 2 + d)) (ground arith)

  op_split : (k a b : ℕ) → op a b ≡ op (a / 2 ^ k) (b / 2 ^ k) * 2 ^ k + op (a % 2 ^ k) (b % 2 ^ k)
  op_split zero a b = rw (div-one a, div-one b, mod-one a, mod-one b, zeros) (omega arith)
  op_split (suc k) a b =
      rw
        (
          pow-suc 2 k,
          halve-div (2 ^ k) a (pow_pos k),
          halve-div (2 ^ k) b (pow_pos k),
          halve-mod (2 ^ k) a (pow_pos k),
          halve-mod (2 ^ k) b (pow_pos k),
          lower (a / 2 % 2 ^ k) (b / 2 % 2 ^ k) (a % 2) (b % 2) (omega arith) (omega arith),
          step a b,
        )
        (omega (arith, op_split k (a / 2) (b / 2)))

pub and_step : (a b : ℕ) → bit_and a b ≡ bit_and (a / 2) (b / 2) * 2 + min (a % 2) (b % 2)
and_step a b =
    bit_and-bitwise a b
    ∙ bitwise_step (λ _. 0) min (λ b. omega arith) a b
    ∙ rw (← bit_and-bitwise (a / 2) (b / 2))

pub or_step : (a b : ℕ) → bit_or a b ≡ bit_or (a / 2) (b / 2) * 2 + max (a % 2) (b % 2)
or_step a b =
    bit_or-bitwise a b
    ∙ bitwise_step (λ b. b) max (λ b. omega arith) a b
    ∙ rw (← bit_or-bitwise (a / 2) (b / 2))

pub xor_step : (a b : ℕ) → bit_xor a b ≡ bit_xor (a / 2) (b / 2) * 2 + differ (a % 2) (b % 2)
xor_step a b =
    bit_xor-bitwise a b
    ∙ bitwise_step (λ b. b) differ (λ b. omega arith) a b
    ∙ rw (← bit_xor-bitwise (a / 2) (b / 2))

module _ (k a b : ℕ) where
  pub and_split :
      bit_and a b ≡ bit_and (a / 2 ^ k) (b / 2 ^ k) * 2 ^ k + bit_and (a % 2 ^ k) (b % 2 ^ k)
  and_split = op_split bit_and min and_step refl k a b

  pub or_split :
      bit_or a b ≡ bit_or (a / 2 ^ k) (b / 2 ^ k) * 2 ^ k + bit_or (a % 2 ^ k) (b % 2 ^ k)
  or_split = op_split bit_or max or_step refl k a b

  pub xor_split :
      bit_xor a b ≡ bit_xor (a / 2 ^ k) (b / 2 ^ k) * 2 ^ k + bit_xor (a % 2 ^ k) (b % 2 ^ k)
  xor_split = op_split bit_xor differ xor_step refl k a b

-- One number is 0.
and_digits-zero : (n a : ℕ) → digits (λ _. 0) min n a 0 ≡ 0
and_digits-zero zero a = refl
and_digits-zero (suc n) zero = refl
and_digits-zero (suc n) (suc a) = omega (arith, and_digits-zero n (suc a / 2))

or_digits-zero : (n a : ℕ) → a ≤ n → digits (λ b. b) max n a 0 ≡ a
or_digits-zero zero zero h = refl
or_digits-zero zero (suc a) h = absurd (omega arith)
or_digits-zero (suc n) zero h = refl
or_digits-zero (suc n) (suc a) h = omega (arith, or_digits-zero n (suc a / 2))

differ-zero : (x : ℕ) → differ x 0 ≡ x
differ-zero zero = refl
differ-zero (suc x) = refl

xor_digits-zero : (n a : ℕ) → a ≤ n → digits (λ b. b) differ n a 0 ≡ a
xor_digits-zero zero zero h = refl
xor_digits-zero zero (suc a) h = absurd (omega arith)
xor_digits-zero (suc n) zero h = refl
xor_digits-zero (suc n) (suc a) h =
    omega (arith, xor_digits-zero n (suc a / 2), differ-zero (suc a % 2))

module _ (a : ℕ) where
  pub zero-bit_and : bit_and 0 a ≡ 0
  zero-bit_and = bit_and-bitwise 0 a

  pub zero-bit_or : bit_or 0 a ≡ a
  zero-bit_or = bit_or-bitwise 0 a

  pub zero-bit_xor : bit_xor 0 a ≡ a
  zero-bit_xor = bit_xor-bitwise 0 a

  pub bit_and-zero : bit_and a 0 ≡ 0
  bit_and-zero = bit_and-bitwise a 0 ∙ and_digits-zero a a

  pub bit_or-zero : bit_or a 0 ≡ a
  bit_or-zero = bit_or-bitwise a 0 ∙ or_digits-zero a a (omega arith)

  pub bit_xor-zero : bit_xor a 0 ≡ a
  bit_xor-zero = bit_xor-bitwise a 0 ∙ xor_digits-zero a a (omega arith)

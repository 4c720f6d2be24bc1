-- ===== src/Paging/Bits.antt =====
-- One entry: its R/W bit, which is bit 1, and the rest.
use hyper_mi.Base.{
  ℕ, ◌+◌, ◌*◌, ◌/◌, ◌%◌, ◌^◌, ◌≡◌, ◌⊎◌, inl, inr, refl, arith, true, bit_and, bit_or, ◌==◌,
  Bool-cases,
}
use hyper_mi.Base.Mask.{and_field, or_bit, xor_bit}
use hyper_mi.Base.Page.{page_rw, page_mask}
use hyper_mi.Paging.Loop.{Memory, IsChange}
use hyper_mi.Paging.Protect.{lock, unlock}

-- `b` is `a`, or `a` without the R/W bit that it had.
abbrev pub IsLocked : ℕ → ℕ → Type 0
IsLocked a b = (b ≡ a) ⊎ ((a / 2 % 2 ≡ 1) × (b + 2 ≡ a))

abbrev pub Locks : Memory → Memory → Type 0
Locks f g = (x : ℕ) → IsLocked (f x) (g x)

pub Locks-IsChange : IsChange Locks
Locks-IsChange = record { same = λ f x. inl refl; trans = λ f g h p q x. join (p x) (q x) }
  where
    join : {a b c : ℕ} → IsLocked a b → IsLocked b c → IsLocked a c
    join (inl e) q = rw (← e) q
    join (inr p) (inl e) = rw e (inr p)
    join (inr p) (inr q) = absurd (omega arith)

pub rw_bit : (e : ℕ) → bit_and e page_rw ≡ e / 2 % 2 * 2
rw_bit e = and_field 1 1 e

frame_bits : (e : ℕ) → bit_and e page_mask ≡ e / 2 ^ 12 % 2 ^ 36 * 2 ^ 12
frame_bits e = and_field 36 12 e

-- The frame does not depend on the R/W bit.
pub frame-IsLocked : {a b : ℕ} → IsLocked a b → bit_and b page_mask ≡ bit_and a page_mask
frame-IsLocked {a} {b} (inl e) = rw e
frame-IsLocked {a} {b} (inr p) =
    let q : b / 2 ^ 12 ≡ a / 2 ^ 12 = omega arith in rw (frame_bits b, q, frame_bits a)

pub lock-Locks : (a : ℕ) (f : Memory) → Locks f (lock a f)
unfolding lock
lock-Locks a f x = elim (Bool-cases (bit_and (f a) page_rw == page_rw)) [
  | inr off ↦ rw off (inl refl)
  | inl on ↦ rw on (elim (Bool-cases (x == a)) [
    | inr other ↦ rw other (inl refl)
    | inl here ↦
        let e : x ≡ a = ground arith in
        rw here (
          inr (
            rw e (ground (arith, rw_bit (f a))),
            rw e (ground (arith, rw_bit (f a), xor_bit 1 (f a))),
          ))
  ])
]

-- The entry cannot be written through.
abbrev pub IsReadOnly : ℕ → Type 0
IsReadOnly e = e / 2 % 2 ≡ 0

pub lock-IsReadOnly : (a : ℕ) (f : Memory) → IsReadOnly (lock a f a)
unfolding lock
lock-IsReadOnly a f = elim (Bool-cases (bit_and (f a) page_rw == page_rw)) [
  | inr off ↦ rw off (ground (arith, rw_bit (f a)))
  | inl on ↦ rw on (ground (arith, rw_bit (f a), xor_bit 1 (f a)))
]

pub IsReadOnly-IsLocked : {a b : ℕ} → IsLocked a b → IsReadOnly a → IsReadOnly b
IsReadOnly-IsLocked (inl e) h = rw e h
IsReadOnly-IsLocked (inr p) h = absurd (omega arith)

-- `b` is `a`, or `a` with the R/W bit that it had not.
abbrev pub IsUnlocked : ℕ → ℕ → Type 0
IsUnlocked a b = (b ≡ a) ⊎ ((a / 2 % 2 ≡ 0) × (b ≡ a + 2))

abbrev pub Unlocks : Memory → Memory → Type 0
Unlocks f g = (x : ℕ) → IsUnlocked (f x) (g x)

pub Unlocks-IsChange : IsChange Unlocks
Unlocks-IsChange = record { same = λ f x. inl refl; trans = λ f g h p q x. join (p x) (q x) }
  where
    join : {a b c : ℕ} → IsUnlocked a b → IsUnlocked b c → IsUnlocked a c
    join (inl e) q = rw (← e) q
    join (inr p) (inl e) = rw e (inr p)
    join (inr p) (inr q) = absurd (omega arith)

pub frame-IsUnlocked : {a b : ℕ} → IsUnlocked a b → bit_and b page_mask ≡ bit_and a page_mask
frame-IsUnlocked {a} {b} (inl e) = rw e
frame-IsUnlocked {a} {b} (inr p) =
    let q : b / 2 ^ 12 ≡ a / 2 ^ 12 = omega arith in rw (frame_bits b, q, frame_bits a)

pub present-IsUnlocked : {a b : ℕ} → IsUnlocked a b → b % 2 ≡ a % 2
present-IsUnlocked (inl e) = rw e
present-IsUnlocked (inr p) = omega arith

abbrev pub IsWritable : ℕ → Type 0
IsWritable e = e / 2 % 2 ≡ 1

pub IsWritable-IsUnlocked : {a b : ℕ} → IsUnlocked a b → IsWritable a → IsWritable b
IsWritable-IsUnlocked (inl e) h = rw e h
IsWritable-IsUnlocked (inr p) h = absurd (omega arith)

pub rw_bit-IsWritable : (e : ℕ) → IsWritable e → (bit_and e page_rw == page_rw) ≡ true
rw_bit-IsWritable e h = ground (arith, rw_bit e)

or_cases : (e : ℕ) → IsUnlocked e (bit_or e page_rw)
or_cases e = elim (Bool-cases (e / 2 % 2 == 0)) [
  | inl off ↦ inr (ground arith, ground (arith, or_bit 1 e))
  | inr on ↦ inl (ground (arith, or_bit 1 e))
]

pub unlock-Unlocks : (a : ℕ) (f : Memory) → Unlocks f (unlock a f)
unfolding unlock
unlock-Unlocks a f x = elim (Bool-cases (x == a)) [
  | inl hit ↦ let e : x ≡ a = ground arith in rw (hit, e) (or_cases (f a))
  | inr miss ↦ rw miss (inl refl)
]

pub unlock-IsWritable : (a : ℕ) (f : Memory) → IsWritable (unlock a f a)
unfolding unlock
unlock-IsWritable a f = ground (arith, or_bit 1 (f a))

-- ===== src/Paging/Zeroed.antt =====
-- set_pgtable_prot and set_pgtable_prot2, which use `&=` where set_pgtable_prot4 uses `&`.
use hyper_mi.Base.{
  ℕ, ◌≤◌, ◌<◌, ◌≡◌, ◌⊎◌, inl, inr, refl, ap, sym, ◌∙◌, arith, Bool, true, false, bit_and, ◌==◌,
  if◌then◌else◌, Bool-cases,
}
use hyper_mi.Base.Mask.{xor_bit}
use hyper_mi.Base.Page.{page_mask, page_rw}
use hyper_mi.Paging.Loop.{Memory, IsChange, for_each-keeps, for_each-achieves}
use hyper_mi.Paging.Protect.{
  at, below, strip, prot_pte, prot_pmd, prot_pud, prot_pgd, set_pgtable_prot, prot2_pgd,
  set_pgtable_prot2,
}
use hyper_mi.Paging.Bits.{rw_bit}
use hyper_mi.Paging.Locked.{Present}

-- Every word is as it was, or is 0.
abbrev pub Zeroes : Memory → Memory → Type 0
Zeroes f g = (x : ℕ) → (g x ≡ f x) ⊎ (g x ≡ 0)

join : {a b c : ℕ} → (b ≡ a) ⊎ (b ≡ 0) → (c ≡ b) ⊎ (c ≡ 0) → (c ≡ a) ⊎ (c ≡ 0)
join p q = ground arith

Zeroes-IsChange : IsChange Zeroes
Zeroes-IsChange = record { same = λ f x. inl refl; trans = λ f g h p q x. join (p x) (q x) }

strip-zero : (a : ℕ) (f : Memory) → strip a f a ≡ 0
unfolding strip
strip-zero a f = ground (arith, rw_bit (f a), xor_bit 1 (bit_and (f a) page_rw))

strip-elsewhere : (a : ℕ) (f : Memory) (x : ℕ) → (x == a) ≡ false → strip a f x ≡ f x
unfolding strip
strip-elsewhere a f x miss = ground arith

strip-Zeroes : (a : ℕ) (f : Memory) → Zeroes f (strip a f)
strip-Zeroes a f x = elim (Bool-cases (x == a)) [
  | inl hit ↦ inr (let e : x ≡ a = ground arith in rw e (strip-zero a f))
  | inr miss ↦ inl (strip-elsewhere a f x miss)
]

Zeroes-if : (skip : Bool) (f g : Memory) → Zeroes f g → Zeroes f (if skip then f else g)
Zeroes-if true f g h = λ x. inl refl
Zeroes-if false f g h = h

either :
    (first : Bool) (f g h : Memory) → Zeroes f g → Zeroes f h → Zeroes f (if first then g else h)
either true f g h p q = p
either false f g h p q = q

gone_on :
    (skip also : Bool) (f g : Memory) (x : ℕ)
    → skip ≡ false
    → also ≡ false
    → g x ≡ 0
    → (if skip then f else (if also then f else g)) x ≡ 0
gone_on skip also f g x p q h = rw (p, q) h

gone_or : (skip : Bool) (f g : Memory) (x : ℕ) → f x ≡ 0 → g x ≡ 0 → (if skip then f else g) x ≡ 0
gone_or true f g x p q = p
gone_or false f g x p q = q

module _ (va : ℕ → ℕ) (pud_large pmd_large : ℕ → Bool) where
  pte-Zeroes : (pte i : ℕ) (f : Memory) → Zeroes f (prot_pte va pud_large pmd_large pte i f)
  unfolding prot_pte
  pte-Zeroes pte i f = Zeroes-if _ f (strip (at pte i) f) (strip-Zeroes (at pte i) f)

  pmd-Zeroes : (pmd i : ℕ) (f : Memory) → Zeroes f (prot_pmd va pud_large pmd_large pmd i f)
  unfolding prot_pmd
  pmd-Zeroes pmd i f = Zeroes-if _ f _ (
      either _ f (strip (at pmd i) f) _ (strip-Zeroes (at pmd i) f)
        (for_each-keeps Zeroes Zeroes-IsChange _ (pte-Zeroes (below va (f (at pmd i)))) 512 0 f))

  pud-Zeroes : (pud i : ℕ) (f : Memory) → Zeroes f (prot_pud va pud_large pmd_large pud i f)
  unfolding prot_pud
  pud-Zeroes pud i f = Zeroes-if _ f _ (
      either _ f (strip (at pud i) f) _ (strip-Zeroes (at pud i) f)
        (for_each-keeps Zeroes Zeroes-IsChange _ (pmd-Zeroes (below va (f (at pud i)))) 512 0 f))

  pgd-Zeroes : (pgd i : ℕ) (f : Memory) → Zeroes f (prot_pgd va pud_large pmd_large pgd i f)
  unfolding prot_pgd
  pgd-Zeroes pgd i f =
      Zeroes-if _ f _
        (for_each-keeps Zeroes Zeroes-IsChange _ (pud-Zeroes (below va (f (at pgd i)))) 512 0 f)

  -- The walk of set_pgtable_prot never clears a single bit: each word of memory is afterwards as
  -- it was, or 0 as a whole.
  set_pgtable_prot-Zeroes :
      (addr : ℕ) (f : Memory) → Zeroes f (set_pgtable_prot va pud_large pmd_large addr f)
  unfolding set_pgtable_prot
  set_pgtable_prot-Zeroes addr f =
      for_each-keeps Zeroes Zeroes-IsChange _ (pgd-Zeroes addr) 256 256 f

module _ (pgd_none : ℕ → Bool) (addr : ℕ) (f : Memory) where
  top-Zeroes : (i : ℕ) (g : Memory) → Zeroes g (prot2_pgd pgd_none addr i g)
  unfolding prot2_pgd
  top-Zeroes i g = Zeroes-if _ g _ (Zeroes-if _ g _ (strip-Zeroes (at addr i) g))

  top_turn :
      (i : ℕ)
      → Present (f (at addr i))
      → pgd_none (f (at addr i)) ≡ false
      → (g : Memory) → Zeroes f g
      → prot2_pgd pgd_none addr i g (at addr i) ≡ 0
  unfolding prot2_pgd
  top_turn i present some_entry g q =
      let place = at addr i in
      elim (q place) [
        | inl same ↦ elim (Bool-cases (bit_and (g place) page_mask == 0)) [
          | inl none ↦ absurd (present (ap (λ e. bit_and e page_mask) (sym same) ∙ ground arith))
          | inr here ↦
              gone_on (bit_and (g place) page_mask == 0) (pgd_none (g place)) g (strip place g)
                place here (ap pgd_none same ∙ some_entry) (strip-zero place g)
        ]
        | inr gone ↦
            gone_or (bit_and (g place) page_mask == 0) g
              (if pgd_none (g place) then g else strip place g) place gone
              (gone_or (pgd_none (g place)) g (strip place g) place gone (strip-zero place g))
      ]

  -- set_pgtable_prot2 makes every present entry of the kernel's half of the top table 0, and so
  -- unmaps all below it; every other word is as it was or 0.
  pub set_pgtable_prot2-unmaps :
      (i : ℕ)
      → 256 ≤ i
      → i < 512
      → Present (f (at addr i))
      → pgd_none (f (at addr i)) ≡ false
      → (set_pgtable_prot2 pgd_none addr f (at addr i) ≡ 0)
        × Zeroes f (set_pgtable_prot2 pgd_none addr f)
  unfolding set_pgtable_prot2
  set_pgtable_prot2-unmaps i half low present some_entry = (
    for_each-achieves Zeroes Zeroes-IsChange _ (λ g. g (at addr i) ≡ 0) top-Zeroes
        (λ g h q p. elim (q (at addr i)) [ inl same ↦ same ∙ p | inr gone ↦ gone ]) 256 256 i f half
        (omega arith) (top_turn i present some_entry),
    for_each-keeps Zeroes Zeroes-IsChange _ top-Zeroes 256 256 f,
  )

-- ===== src/Paging/Locked.antt =====
-- set_pgtable_prot4: the middle level of the kernel's half of a page table becomes read-only.
use hyper_mi.Base.{
  ℕ, ◌≤◌, ◌<◌, ◌≡◌, ◌≢◌, inl, refl, ◌∙◌, arith, Bool, true, false, bit_and, ◌==◌, if◌then◌else◌,
  ==_of_ne,
}
use hyper_mi.Base.Page.{page_mask}
use hyper_mi.Paging.Loop.{Memory, for_each-keeps, for_each-achieves}
use hyper_mi.Paging.Protect.{at, below, lock, prot4_pmd, prot4_pud, prot4_pgd, set_pgtable_prot4}
use hyper_mi.Paging.Bits.{
  IsLocked, Locks, Locks-IsChange, frame-IsLocked, lock-Locks, IsReadOnly, lock-IsReadOnly,
  IsReadOnly-IsLocked,
}

-- The entry holds a frame.
abbrev pub Present : ℕ → Type 0
Present e = bit_and e page_mask ≢ 0

keeps_if : (skip : Bool) (f g : Memory) → Locks f g → Locks f (if skip then f else g)
keeps_if true f g h = λ x. inl refl
keeps_if false f g h = h

goes_on :
    (P : Memory → Type 0) {skip : Bool} (f g : Memory)
    → skip ≡ false
    → P g
    → P (if skip then f else g)
goes_on P f g e h = rw e h

still-Present : {a b : ℕ} → IsLocked a b → Present a → (bit_and b page_mask == 0) ≡ false
still-Present {a} {b} q h = ==_of_ne (bit_and b page_mask) 0 (rw (frame-IsLocked q) h)

module _ (va : ℕ → ℕ) (pud_large : ℕ → Bool) where
  pmd-Locks : (pmd i : ℕ) (f : Memory) → Locks f (prot4_pmd va pud_large pmd i f)
  unfolding prot4_pmd
  pmd-Locks pmd i f = keeps_if _ f (lock (at pmd i) f) (lock-Locks (at pmd i) f)

  pud-Locks : (pud i : ℕ) (f : Memory) → Locks f (prot4_pud va pud_large pud i f)
  unfolding prot4_pud
  pud-Locks pud i f = keeps_if _ f _ (
      keeps_if _ f _
        (for_each-keeps Locks Locks-IsChange _ (pmd-Locks (below va (f (at pud i)))) 512 0 f))

  pgd-Locks : (pgd i : ℕ) (f : Memory) → Locks f (prot4_pgd va pud_large pgd i f)
  unfolding prot4_pgd
  pgd-Locks pgd i f =
      keeps_if _ f _
        (for_each-keeps Locks Locks-IsChange _ (pud-Locks (below va (f (at pgd i)))) 512 0 f)

  -- Whatever the tables are, also if they overlap, the walk changes a word of memory only by
  -- clearing a R/W bit that was set.
  pub set_pgtable_prot4-Locks :
      (addr : ℕ) (f : Memory) → Locks f (set_pgtable_prot4 va pud_large addr f)
  unfolding set_pgtable_prot4
  set_pgtable_prot4-Locks addr f = for_each-keeps Locks Locks-IsChange _ (pgd-Locks addr) 256 256 f

  -- The test for a large page does not look at the R/W bit.
  module _ (steady : (a b : ℕ) → IsLocked a b → pud_large b ≡ pud_large a) where
    module _ (f : Memory) (place : ℕ) where
      abbrev Done : Memory → Type 0
      Done g = IsReadOnly (g place)

      stays : (g h : Memory) → Locks g h → Done g → Done h
      stays g h q p = IsReadOnly-IsLocked (q place) p

      turn_pmd :
          (pmd i : ℕ)
          → place ≡ at pmd i
          → Present (f place)
          → (g : Memory) → Locks f g
          → Done (prot4_pmd va pud_large pmd i g)
      unfolding prot4_pmd
      turn_pmd pmd i e present g q =
          goes_on Done g (lock (at pmd i) g) (still-Present (q (at pmd i)) (rw (← e) present))
            (rw e (lock-IsReadOnly (at pmd i) g))

      turn_pud :
          (pud i2 i3 : ℕ)
          → i3 < 512
          → Present (f (at pud i2))
          → pud_large (f (at pud i2)) ≡ false
          → place ≡ at (below va (f (at pud i2))) i3
          → Present (f place)
          → (g : Memory) → Locks f g
          → Done (prot4_pud va pud_large pud i2 g)
      unfolding prot4_pud
      turn_pud pud i2 i3 low present small e leaf g q =
          let now = q (at pud i2) in
          let pmd = below va (g (at pud i2)) in
          let here : place ≡ at pmd i3 = rw (frame-IsLocked now) e in
          goes_on Done g _ (still-Present now present) (
            goes_on Done g _ (steady (f (at pud i2)) (g (at pud i2)) now ∙ small) (
              for_each-achieves Locks Locks-IsChange _ Done (pmd-Locks pmd) stays 512 0 i3 g
                (omega arith) low
                (λ h r. turn_pmd pmd i3 here leaf h (Locks-IsChange.trans f g h q r))))

      turn_pgd :
          (pgd i1 i2 i3 : ℕ)
          → i2 < 512
          → i3 < 512
          → Present (f (at pgd i1))
          → Present (f (at (below va (f (at pgd i1))) i2))
          → pud_large (f (at (below va (f (at pgd i1))) i2)) ≡ false
          → place ≡ at (below va (f (at (below va (f (at pgd i1))) i2))) i3
          → Present (f place)
          → (g : Memory) → Locks f g
          → Done (prot4_pgd va pud_large pgd i1 g)
      unfolding prot4_pgd
      turn_pgd pgd i1 i2 i3 low2 low3 top middle small e leaf g q =
          let now = frame-IsLocked (q (at pgd i1)) in
          let pud = below va (g (at pgd i1)) in
          let middle_now : Present (f (at pud i2)) = rw now middle in
          let small_now : pud_large (f (at pud i2)) ≡ false = rw now small in
          let here : place ≡ at (below va (f (at pud i2))) i3 = rw now e in
          goes_on Done g _ (still-Present (q (at pgd i1)) top) (
            for_each-achieves Locks Locks-IsChange _ Done (pud-Locks pud) stays 512 0 i2 g
              (omega arith) low2
              (λ h r.
                turn_pud pud i2 i3 low3 middle_now small_now here leaf h
                  (Locks-IsChange.trans f g h q r)))

    -- If the test for a large page does not look at the R/W bit, every entry of the middle level
    -- that the kernel's half of the table reaches is read-only afterwards, wherever the tables
    -- stand.
    pub set_pgtable_prot4-IsReadOnly :
        (f : Memory) (addr i1 i2 i3 : ℕ)
        → 256 ≤ i1
        → i1 < 512
        → i2 < 512
        → i3 < 512
        → Present (f (at addr i1))
        → Present (f (at (below va (f (at addr i1))) i2))
        → pud_large (f (at (below va (f (at addr i1))) i2)) ≡ false
        → Present (f (at (below va (f (at (below va (f (at addr i1))) i2))) i3))
        → IsReadOnly (
            set_pgtable_prot4 va pud_large addr f
              (at (below va (f (at (below va (f (at addr i1))) i2))) i3))
    unfolding set_pgtable_prot4
    set_pgtable_prot4-IsReadOnly f addr i1 i2 i3 half low1 low2 low3 top middle small leaf =
        let place = at (below va (f (at (below va (f (at addr i1))) i2))) i3 in
        for_each-achieves Locks Locks-IsChange _ (Done f place) (pgd-Locks addr) (stays f place) 256
          256 i1 f half (omega arith)
          (λ g q. turn_pgd f place addr i1 i2 i3 low2 low3 top middle small refl leaf g q)

-- ===== src/Paging/Unlocked.antt =====
-- set_pgtable_prot5 and set_pgtable_prot6: the middle level becomes writable again.
use hyper_mi.Base.{
  ℕ, ◌≤◌, ◌<◌, ◌≡◌, inl, refl, ◌∙◌, arith, Bool, true, false, bit_and, ◌==◌, if◌then◌else◌,
  ==_of_ne,
}
use hyper_mi.Base.Page.{page_mask}
use hyper_mi.Paging.Loop.{Memory, for_each-keeps, for_each-achieves}
use hyper_mi.Paging.Protect.{at, below, unlock, prot5_pmd, prot5_pud, prot5_pgd, set_pgtable_prot5}
use hyper_mi.Paging.Bits.{
  IsUnlocked, Unlocks, Unlocks-IsChange, frame-IsUnlocked, unlock-Unlocks, IsWritable,
  unlock-IsWritable, IsWritable-IsUnlocked, rw_bit-IsWritable,
}
use hyper_mi.Paging.Locked.{Present}

keeps_if : (skip : Bool) (f g : Memory) → Unlocks f g → Unlocks f (if skip then f else g)
keeps_if true f g h = λ x. inl refl
keeps_if false f g h = h

keeps_then : (go : Bool) (f g : Memory) → Unlocks f g → Unlocks f (if go then g else f)
keeps_then true f g h = h
keeps_then false f g h = λ x. inl refl

goes_then :
    (P : Memory → Type 0) {go : Bool} (f g : Memory) → go ≡ true → P g → P (if go then g else f)
goes_then P f g e h = rw e h

goes_on :
    (P : Memory → Type 0) {skip : Bool} (f g : Memory)
    → skip ≡ false
    → P g
    → P (if skip then f else g)
goes_on P f g e h = rw e h

pub still-Present : {a b : ℕ} → IsUnlocked a b → Present a → (bit_and b page_mask == 0) ≡ false
still-Present {a} {b} q h = ==_of_ne (bit_and b page_mask) 0 (rw (frame-IsUnlocked q) h)

module _ (va : ℕ → ℕ) (pud_large : ℕ → Bool) where
  pmd-Unlocks : (above pmd i : ℕ) (f : Memory) → Unlocks f (prot5_pmd va pud_large above pmd i f)
  unfolding prot5_pmd
  pmd-Unlocks above pmd i f =
      keeps_if _ f _ (keeps_then _ f (unlock (at pmd i) f) (unlock-Unlocks (at pmd i) f))

  pud-Unlocks : (pud i : ℕ) (f : Memory) → Unlocks f (prot5_pud va pud_large pud i f)
  unfolding prot5_pud
  pud-Unlocks pud i f = keeps_if _ f _ (
      keeps_if _ f _ (
        for_each-keeps Unlocks Unlocks-IsChange _ (pmd-Unlocks (at pud i) (below va (f (at pud i))))
          512 0 f))

  pgd-Unlocks : (pgd i : ℕ) (f : Memory) → Unlocks f (prot5_pgd va pud_large pgd i f)
  unfolding prot5_pgd
  pgd-Unlocks pgd i f =
      keeps_if _ f _
        (for_each-keeps Unlocks Unlocks-IsChange _ (pud-Unlocks (below va (f (at pgd i)))) 512 0 f)

  -- Whatever the tables are, also if they overlap, the walk changes a word of memory only by
  -- setting a R/W bit that was clear.
  set_pgtable_prot5-Unlocks :
      (addr : ℕ) (f : Memory) → Unlocks f (set_pgtable_prot5 va pud_large addr f)
  unfolding set_pgtable_prot5
  set_pgtable_prot5-Unlocks addr f =
      for_each-keeps Unlocks Unlocks-IsChange _ (pgd-Unlocks addr) 256 256 f

  -- The test for a large page does not look at the R/W bit.
  module _ (steady : (a b : ℕ) → IsUnlocked a b → pud_large b ≡ pud_large a) where
    module _ (f : Memory) (place : ℕ) where
      abbrev Done : Memory → Type 0
      Done g = IsWritable (g place)

      stays : (g h : Memory) → Unlocks g h → Done g → Done h
      stays g h q p = IsWritable-IsUnlocked (q place) p

      turn_pmd :
          (above pmd i : ℕ)
          → place ≡ at pmd i
          → Present (f place)
          → IsWritable (f above)
          → (g : Memory) → Unlocks f g
          → Done (prot5_pmd va pud_large above pmd i g)
      unfolding prot5_pmd
      turn_pmd above pmd i e present open_above g q =
          goes_on Done g _ (still-Present (q (at pmd i)) (rw (← e) present)) (
            goes_then Done g (unlock (at pmd i) g)
              (rw_bit-IsWritable (g above) (IsWritable-IsUnlocked (q above) open_above))
              (rw e (unlock-IsWritable (at pmd i) g)))

      turn_pud :
          (pud i2 i3 : ℕ)
          → i3 < 512
          → Present (f (at pud i2))
          → pud_large (f (at pud i2)) ≡ false
          → IsWritable (f (at pud i2))
          → place ≡ at (below va (f (at pud i2))) i3
          → Present (f place)
          → (g : Memory) → Unlocks f g
          → Done (prot5_pud va pud_large pud i2 g)
      unfolding prot5_pud
      turn_pud pud i2 i3 low present small open_pud e leaf g q =
          let now = q (at pud i2) in
          let pmd = below va (g (at pud i2)) in
          let here : place ≡ at pmd i3 = rw (frame-IsUnlocked now) e in
          goes_on Done g _ (still-Present now present) (
            goes_on Done g _ (steady (f (at pud i2)) (g (at pud i2)) now ∙ small) (
              for_each-achieves Unlocks Unlocks-IsChange _ Done (pmd-Unlocks (at pud i2) pmd) stays
                512 0 i3 g (omega arith) low
                (λ h r.
                  turn_pmd (at pud i2) pmd i3 here leaf open_pud h
                    (Unlocks-IsChange.trans f g h q r))))

      turn_pgd :
          (pgd i1 i2 i3 : ℕ)
          → i2 < 512
          → i3 < 512
          → Present (f (at pgd i1))
          → Present (f (at (below va (f (at pgd i1))) i2))
          → pud_large (f (at (below va (f (at pgd i1))) i2)) ≡ false
          → IsWritable (f (at (below va (f (at pgd i1))) i2))
          → place ≡ at (below va (f (at (below va (f (at pgd i1))) i2))) i3
          → Present (f place)
          → (g : Memory) → Unlocks f g
          → Done (prot5_pgd va pud_large pgd i1 g)
      unfolding prot5_pgd
      turn_pgd pgd i1 i2 i3 low2 low3 top middle small open_pud e leaf g q =
          let now = frame-IsUnlocked (q (at pgd i1)) in
          let pud = below va (g (at pgd i1)) in
          let middle_now : Present (f (at pud i2)) = rw now middle in
          let small_now : pud_large (f (at pud i2)) ≡ false = rw now small in
          let open_now : IsWritable (f (at pud i2)) = rw now open_pud in
          let here : place ≡ at (below va (f (at pud i2))) i3 = rw now e in
          goes_on Done g _ (still-Present (q (at pgd i1)) top) (
            for_each-achieves Unlocks Unlocks-IsChange _ Done (pud-Unlocks pud) stays 512 0 i2 g
              (omega arith) low2
              (λ h r.
                turn_pud pud i2 i3 low3 middle_now small_now open_now here leaf h
                  (Unlocks-IsChange.trans f g h q r)))

    -- If the test for a large page does not look at the R/W bit, every entry of the middle level
    -- that the kernel's half of the table reaches through a writable entry is writable
    -- afterwards, wherever the tables stand.
    pub set_pgtable_prot5-IsWritable :
        (f : Memory) (addr i1 i2 i3 : ℕ)
        → 256 ≤ i1
        → i1 < 512
        → i2 < 512
        → i3 < 512
        → Present (f (at addr i1))
        → Present (f (at (below va (f (at addr i1))) i2))
        → pud_large (f (at (below va (f (at addr i1))) i2)) ≡ false
        → IsWritable (f (at (below va (f (at addr i1))) i2))
        → Present (f (at (below va (f (at (below va (f (at addr i1))) i2))) i3))
        → IsWritable (
            set_pgtable_prot5 va pud_large addr f
              (at (below va (f (at (below va (f (at addr i1))) i2))) i3))
    unfolding set_pgtable_prot5
    set_pgtable_prot5-IsWritable f addr i1 i2 i3 half low1 low2 low3 top middle small open_pud
          leaf =
        let place = at (below va (f (at (below va (f (at addr i1))) i2))) i3 in
        for_each-achieves Unlocks Unlocks-IsChange _ (Done f place) (pgd-Unlocks addr)
          (stays f place) 256 256 i1 f half (omega arith)
          (λ g q. turn_pgd f place addr i1 i2 i3 low2 low3 top middle small open_pud refl leaf g q)

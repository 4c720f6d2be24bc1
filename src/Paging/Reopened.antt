-- ===== src/Paging/Reopened.antt =====
-- A lookup by `find` of src/SecureVM/find.h against the write protection of set_pgtable_prot4 of
-- src/SecureVM/set_pgprot.h.
use hyper_mi.Base.{
  ℕ, ◌+◌, ◌*◌, ◌^◌, ◌≤◌, ◌<◌, ◌≡◌, ◌∙◌, ap, sym, subst, arith, Bool, false, bit_and, ◌==◌, ==_of_ne,
}
use hyper_mi.Base.Mask.{and_field}
use hyper_mi.Base.Page.{page_mask}
use hyper_mi.Paging.Loop.{Memory}
use hyper_mi.Paging.Protect.{at, below, unlock, set_pgtable_prot4}
use hyper_mi.Paging.Bits.{
  IsLocked, IsUnlocked, Unlocks, Unlocks-IsChange, unlock-Unlocks, frame-IsLocked, frame-IsUnlocked,
  IsReadOnly, IsWritable, unlock-IsWritable, IsWritable-IsUnlocked,
}
use hyper_mi.Paging.Locked.{Present, set_pgtable_prot4-Locks, set_pgtable_prot4-IsReadOnly}
use hyper_mi.Paging.Find.{Pt, indices, toggle_twice, find_pte, find_pmd, find_pud, find}
use hyper_mi.Paging.Finds.{chosen, toggle_twice-same, find_pte-Unlocks}
use hyper_mi.Paging.Found.{goes_else}

-- Two memories whose entries point to the same frames.
SameFrames : Memory → Memory → Type 0
SameFrames b f = (x : ℕ) → bit_and (f x) page_mask ≡ bit_and (b x) page_mask

SameFrames-Unlocks : (b f g : Memory) → SameFrames b f → Unlocks f g → SameFrames b g
unfolding SameFrames
SameFrames-Unlocks b f g h q x = frame-IsUnlocked (q x) ∙ h x

still-Present :
    (b g : Memory) (x : ℕ) → SameFrames b g → Present (b x) → (bit_and (g x) page_mask == 0) ≡ false
unfolding SameFrames
still-Present b g x h present = ==_of_ne (bit_and (g x) page_mask) 0 (rw (h x) present)

index_small :
    (address : ℕ) (old : Pt)
    → ((indices address old).index_pgd < 512)
      × ((indices address old).index_pud < 512)
      × ((indices address old).index_pmd < 512)
unfolding indices
index_small address old =
    omega (arith, and_field 9 39 address, and_field 9 30 address, and_field 9 21 address)

-- Where the entries for an address stand in the tables `b`.
module _ (va : ℕ → ℕ) (b : Memory) (address current_pgd : ℕ) (old : Pt) where
  abbrev pub pgd_place : ℕ
  pgd_place = at current_pgd (indices address old).index_pgd

  abbrev pub pud_place : ℕ
  pud_place = at (below va (b pgd_place)) (indices address old).index_pud

  abbrev pub pmd_place : ℕ
  pmd_place = at (below va (b pud_place)) (indices address old).index_pmd

-- After a walk the entry at a place can be written through.
record Opens (place : ℕ) (r : Memory × Pt) : Type 0 where
  writable : IsWritable (r.0 place)

module _ (va : ℕ → ℕ) (pud_large pmd_large : ℕ → Bool)
    (steady : (a b : ℕ) → IsUnlocked a b → pud_large b ≡ pud_large a) (b f : Memory)
    (frames : SameFrames b f) where
  same_table : (g : Memory) (x : ℕ) → Unlocks f g → below va (g x) ≡ below va (b x)
  unfolding SameFrames
  same_table g x q = ap va (frame-IsUnlocked (q x) ∙ frames x)

  -- The entry that the walk meets at this level can be written through afterwards.
  find_pmd-Opens :
      (t : ℕ) (g : Memory) (it : Pt)
      → Unlocks f g
      → Present (b (at t it.index_pmd))
      → Opens (at t it.index_pmd) (find_pmd va pud_large pmd_large t g it)
  unfolding find_pmd
  find_pmd-Opens t g it q present =
      let place = at t it.index_pmd in
      let h = unlock place g in
      let found : Pt = record it { pmd = g place; pmd_addr = place; level = 2 } in
      let toggled : IsWritable (toggle_twice place h place) =
        rw (toggle_twice-same place h place) (unlock-IsWritable place g) in
      let kept =
        find_pte-Unlocks va h (below va (h place)) h found (Unlocks-IsChange.same h) place in
      let large : Pt = record found {
        value = h (below va (h place) + it.index_pte * 2 ^ 12 + it.index_offset);
        flag_valid = 1;
      } in
      goes_else (Opens place) _ _
        (still-Present b g place (SameFrames-Unlocks b f g frames q) present)
        (chosen (Opens place) (pmd_large (h place)) (toggle_twice place h, large)
          (find_pte va (below va (h place)) h found) (record { writable = toggled })
          (record { writable = IsWritable-IsUnlocked kept (unlock-IsWritable place g) }))

  find_pud-Opens :
      (t : ℕ) (g : Memory) (it : Pt)
      → Unlocks f g
      → Present (b (at t it.index_pud))
      → pud_large (f (at t it.index_pud)) ≡ false
      → Present (b (at (below va (b (at t it.index_pud))) it.index_pmd))
      → Opens
          (at (below va (b (at t it.index_pud))) it.index_pmd)
          (find_pud va pud_large pmd_large t g it)
  unfolding find_pud
  find_pud-Opens t g it q present small leaf =
      let place = at t it.index_pud in
      let h = unlock place g in
      let r = Unlocks-IsChange.trans f g h q (unlock-Unlocks place g) in
      let found : Pt = record it { pud = h place; pud_addr = place; level = 3 } in
      let e = same_table g place q in
      let P = Opens (at (below va (b place)) it.index_pmd) in
      goes_else P _ _ (still-Present b g place (SameFrames-Unlocks b f g frames q) present) (
        goes_else P _ _ (steady (f place) (h place) (r place) ∙ small) (
          subst
            (λ n.
              Opens (at n it.index_pmd)
                (find_pmd va pud_large pmd_large (below va (g place)) h found))
            e
            (find_pmd-Opens (below va (g place)) h found r
              (subst (λ n. Present (b (at n it.index_pmd))) (sym e) leaf))))

  module _ (address current_pgd : ℕ) (old : Pt) where
    find-Opens :
        Present (b (pgd_place va b address current_pgd old))
        → Present (b (pud_place va b address current_pgd old))
        → pud_large (f (pud_place va b address current_pgd old)) ≡ false
        → Present (b (pmd_place va b address current_pgd old))
        → Opens
            (pmd_place va b address current_pgd old)
            (find va pud_large pmd_large address current_pgd f old)
    unfolding find
    find-Opens top middle small leaf =
        let place = pgd_place va b address current_pgd old in
        let g = unlock place f in
        let found : Pt = record (indices address old) {
          pgd = f place;
          pgd_addr = place;
          level = 4;
        } in
        let P = Opens (pmd_place va b address current_pgd old) in
        let e : below va (f place) ≡ below va (b place) =
          same_table f place (Unlocks-IsChange.same f) in
        goes_else P _ _ (still-Present b f place frames top) (
          subst (λ n. P (find_pud va pud_large pmd_large n g found)) (sym e)
            (find_pud-Opens (below va (b place)) g found (unlock-Unlocks place f) middle small
              leaf))

module _ (va : ℕ → ℕ) (pud_large pmd_large : ℕ → Bool) where
  -- If the test for a large page does not look at the R/W bit, and the entry of the middle level for
  -- an address in the kernel's half is reached through present entries that are not large, then
  -- set_pgtable_prot4 makes that entry read-only, and a `find` of the address makes it writable.
  pub find-reopens :
      ((a b : ℕ) → IsLocked a b → pud_large b ≡ pud_large a)
      → ((a b : ℕ) → IsUnlocked a b → pud_large b ≡ pud_large a)
      → (b : Memory) (address current_pgd : ℕ) (old : Pt) → 256 ≤ (indices address old).index_pgd
      → Present (b (pgd_place va b address current_pgd old))
      → Present (b (pud_place va b address current_pgd old))
      → pud_large (b (pud_place va b address current_pgd old)) ≡ false
      → Present (b (pmd_place va b address current_pgd old))
      → IsReadOnly
          (set_pgtable_prot4 va pud_large current_pgd b (pmd_place va b address current_pgd old))
        × IsWritable (
            (find va pud_large pmd_large address current_pgd
                (set_pgtable_prot4 va pud_large current_pgd b)
                old).0
              (pmd_place va b address current_pgd old))
  unfolding SameFrames
  find-reopens locked unlocked b address current_pgd old half top middle small leaf =
      let f = set_pgtable_prot4 va pud_large current_pgd b in
      let locks = set_pgtable_prot4-Locks va pud_large current_pgd b in
      let pud = pud_place va b address current_pgd old in
      let small_now : pud_large (f pud) ≡ false = locked (b pud) (f pud) (locks pud) ∙ small in
      let sizes = index_small address old in
      (
        set_pgtable_prot4-IsReadOnly va pud_large locked b current_pgd
            (indices address old).index_pgd (indices address old).index_pud
            (indices address old).index_pmd half sizes.0 sizes.1 sizes.2 top middle small leaf,
        (find-Opens va pud_large pmd_large unlocked b f (λ x. frame-IsLocked (locks x)) address
            current_pgd old top middle small_now leaf).writable,
      )

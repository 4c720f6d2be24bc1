-- ===== src/Paging/Found.antt =====
-- What `find` of src/SecureVM/find.h finds at an address that a page of four kilobytes maps.
use hyper_mi.Base.{ℕ, ◌≡◌, refl, ap, ◌∙◌, Bool, false, if◌then◌else◌}
use hyper_mi.Paging.Loop.{Memory}
use hyper_mi.Paging.Protect.{at, below, unlock}
use hyper_mi.Paging.Bits.{IsUnlocked, Unlocks, Unlocks-IsChange, unlock-Unlocks, frame-IsUnlocked}
use hyper_mi.Paging.Locked.{Present}
use hyper_mi.Paging.Unlocked.{still-Present}
use hyper_mi.Paging.Find.{Pt, indices, find_pte, find_pmd, find_pud, find}
use hyper_mi.Paging.Finds.{toggle_twice-Unlocks}

pub goes_else :
    {A : Type 0} (P : A → Type 0) {skip : Bool} (x y : A)
    → skip ≡ false
    → P y
    → P (if skip then x else y)
goes_else P x y e h = rw e h

-- The walk came to the last level, at this entry.
abbrev pub IsFound : ℕ → Memory × Pt → Type 0
IsFound entry r = (r.1.flag_valid ≡ 1) × (r.1.level ≡ 1) × (r.1.pte_addr ≡ entry)

module _ (va : ℕ → ℕ) (f : Memory) where
  set : (a : ℕ) (g : Memory) → Unlocks f g → Unlocks f (unlock a g)
  set a g q = Unlocks-IsChange.trans f g (unlock a g) q (unlock-Unlocks a g)

  -- The table under an entry is the one of the start.
  same_table : {a b : ℕ} → IsUnlocked a b → below va b ≡ below va a
  same_table q = ap va (frame-IsUnlocked q)

  find_pte-IsFound :
      (table t : ℕ) (g : Memory) (it : Pt)
      → t ≡ table
      → Unlocks f g
      → Present (f (at table it.index_pte))
      → IsFound (at table it.index_pte) (find_pte va t g it)
  unfolding find_pte
  find_pte-IsFound table t g it e q present =
      let place = at t it.index_pte in
      let now = toggle_twice-Unlocks place f (unlock place g) (set place g q) place in
      goes_else (IsFound (at table it.index_pte)) _ _ (still-Present now (rw e present))
        (refl, refl, ap (λ n. at n it.index_pte) e)

  module _ (pud_large pmd_large : ℕ → Bool)
      (pud_steady : (a b : ℕ) → IsUnlocked a b → pud_large b ≡ pud_large a)
      (pmd_steady : (a b : ℕ) → IsUnlocked a b → pmd_large b ≡ pmd_large a) where
    find_pmd-IsFound :
        (table t : ℕ) (g : Memory) (it : Pt)
        → t ≡ table
        → Unlocks f g
        → Present (f (at table it.index_pmd))
        → pmd_large (f (at table it.index_pmd)) ≡ false
        → Present (f (at (below va (f (at table it.index_pmd))) it.index_pte))
        → IsFound
            (at (below va (f (at table it.index_pmd))) it.index_pte)
            (find_pmd va pud_large pmd_large t g it)
    unfolding find_pmd
    find_pmd-IsFound table t g it e q present small last =
        let place = at t it.index_pmd in
        let old : place ≡ at table it.index_pmd = ap (λ n. at n it.index_pmd) e in
        let now = set place g q place in
        let found : Pt = record it { pmd = g place; pmd_addr = place; level = 2 } in
        let Goal = IsFound (at (below va (f (at table it.index_pmd))) it.index_pte) in
        goes_else Goal _ _ (still-Present (q place) (rw e present)) (
          goes_else Goal _ _ (pmd_steady (f place) (unlock place g place) now ∙ rw old small) (
            find_pte-IsFound (below va (f (at table it.index_pmd)))
              (below va (unlock place g place)) (unlock place g) found
              (same_table now ∙ ap (λ n. below va (f n)) old) (set place g q) last))

    find_pud-IsFound :
        (table t : ℕ) (g : Memory) (it : Pt)
        → t ≡ table
        → Unlocks f g
        → Present (f (at table it.index_pud))
        → pud_large (f (at table it.index_pud)) ≡ false
        → Present (f (at (below va (f (at table it.index_pud))) it.index_pmd))
        → pmd_large (f (at (below va (f (at table it.index_pud))) it.index_pmd)) ≡ false
        → Present (
            f (
              at
                (below va (f (at (below va (f (at table it.index_pud))) it.index_pmd)))
                it.index_pte))
        → IsFound
            (at
              (below va (f (at (below va (f (at table it.index_pud))) it.index_pmd)))
              it.index_pte)
            (find_pud va pud_large pmd_large t g it)
    unfolding find_pud
    find_pud-IsFound table t g it e q present small middle small_too last =
        let place = at t it.index_pud in
        let old : place ≡ at table it.index_pud = ap (λ n. at n it.index_pud) e in
        let now = set place g q place in
        let found : Pt = record it { pud = unlock place g place; pud_addr = place; level = 3 } in
        let Goal = IsFound (
          at (below va (f (at (below va (f (at table it.index_pud))) it.index_pmd)))
            it.index_pte) in
        goes_else Goal _ _ (still-Present (q place) (rw e present)) (
          goes_else Goal _ _ (pud_steady (f place) (unlock place g place) now ∙ rw old small) (
            find_pmd-IsFound (below va (f (at table it.index_pud))) (below va (g place))
              (unlock place g) found (same_table (q place) ∙ ap (λ n. below va (f n)) old)
              (set place g q) middle small_too last))

    module _ (address current_pgd : ℕ) (old : Pt) where
      -- Where the entries for the address stand before the walk.
      abbrev pub pgd_place : ℕ
      pgd_place = at current_pgd (indices address old).index_pgd

      abbrev pub pud_place : ℕ
      pud_place = at (below va (f pgd_place)) (indices address old).index_pud

      abbrev pub pmd_place : ℕ
      pmd_place = at (below va (f pud_place)) (indices address old).index_pmd

      abbrev pub pte_place : ℕ
      pte_place = at (below va (f pmd_place)) (indices address old).index_pte

      -- If at each level the entry for the address is present and not large, and the tests for
      -- large pages do not look at the R/W bit, the walk succeeds: it is valid, at level 1, and
      -- the entry is that of the tables as they stood before the walk, although the walk changes
      -- them.
      pub find-IsFound :
          Present (f pgd_place)
          → Present (f pud_place)
          → pud_large (f pud_place) ≡ false
          → Present (f pmd_place)
          → pmd_large (f pmd_place) ≡ false
          → Present (f pte_place)
          → IsFound pte_place (find va pud_large pmd_large address current_pgd f old)
      unfolding find
      find-IsFound top high small middle small_too last =
          goes_else (IsFound pte_place) _ _ (still-Present (Unlocks-IsChange.same f pgd_place) top)
            (find_pud-IsFound (below va (f pgd_place)) (below va (f pgd_place)) (unlock pgd_place f)
              (record (indices address old) { pgd = f pgd_place; pgd_addr = pgd_place; level = 4 })
              refl (unlock-Unlocks pgd_place f) high small middle small_too last)

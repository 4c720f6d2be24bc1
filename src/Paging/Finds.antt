-- ===== src/Paging/Finds.antt =====
-- What `find` of src/SecureVM/find.h does to memory, and how it takes an address apart.
use hyper_mi.Base.{
  ℕ, ◌+◌, ◌*◌, ◌^◌, ◌<◌, ◌≡◌, inl, inr, arith, Bool, true, false, bit_xor, ◌==◌, if◌then◌else◌,
  Bool-cases,
}
use hyper_mi.Base.Mask.{and_field, and_low, xor_bit}
use hyper_mi.Base.Page.{page_rw}
use hyper_mi.Paging.Loop.{Memory}
use hyper_mi.Paging.Protect.{at, below, unlock}
use hyper_mi.Paging.Bits.{Unlocks, Unlocks-IsChange, unlock-Unlocks}
use hyper_mi.Paging.Find.{Pt, indices, toggle_twice, find_pte, find_pmd, find_pud, find}

-- The indices and the offset are in range, and the address is put together from them.
abbrev pub IsSplit : ℕ → Pt → Type 0
IsSplit address it =
    (address
      ≡ it.index_pgd * 2 ^ 39
        + it.index_pud * 2 ^ 30
        + it.index_pmd * 2 ^ 21
        + it.index_pte * 2 ^ 12
        + it.index_offset)
    × (it.index_pgd < 512)
    × (it.index_pud < 512)
    × (it.index_pmd < 512)
    × (it.index_pte < 512)
    × (it.index_offset < 4096)

-- An address below 2^48 is taken apart into four indices below 512 and an offset below 4096, from
-- which it is put together again.
indices-IsSplit :
    (address : ℕ) (old : Pt) → address < 2 ^ 48 → IsSplit address (indices address old)
unfolding indices
indices-IsSplit address old small = omega (
  arith,
  and_field 9 39 address,
  and_field 9 30 address,
  and_field 9 21 address,
  and_field 9 12 address,
  and_low 12 address,
)

pub toggle_twice-same : (a : ℕ) (f : Memory) (x : ℕ) → toggle_twice a f x ≡ f x
unfolding toggle_twice
toggle_twice-same a f x = elim (Bool-cases (x == a)) [
  | inl hit ↦
      let e : x ≡ a = ground arith in
      rw (hit, e) (ground (arith, xor_bit 1 (f a), xor_bit 1 (bit_xor (f a) page_rw)))
  | inr miss ↦ rw miss
]

pub toggle_twice-Unlocks : (a : ℕ) (f g : Memory) → Unlocks f g → Unlocks f (toggle_twice a g)
toggle_twice-Unlocks a f g h x = rw (toggle_twice-same a g x) (h x)

pub chosen :
    {A : Type 0} (P : A → Type 0) (first : Bool) (x y : A) → P x → P y → P (if first then x else y)
chosen P true x y p q = p
chosen P false x y p q = q

module _ (va : ℕ → ℕ) where
  abbrev FromMemory : Memory → Memory × Pt → Type 0
  FromMemory f r = Unlocks f r.0

  pub find_pte-Unlocks :
      (f : Memory) (pte1 : ℕ) (g : Memory) (it : Pt)
      → Unlocks f g
      → FromMemory f (find_pte va pte1 g it)
  unfolding find_pte
  find_pte-Unlocks f pte1 g it h =
      let place = at pte1 it.index_pte in
      let all_set =
        toggle_twice-Unlocks place f (unlock place g)
          (Unlocks-IsChange.trans f g (unlock place g) h (unlock-Unlocks place g)) in
      chosen (FromMemory f) _ _ _ all_set all_set

  module _ (pud_large pmd_large : ℕ → Bool) where
    find_pmd-Unlocks :
        (f : Memory) (pmd : ℕ) (g : Memory) (it : Pt)
        → Unlocks f g
        → FromMemory f (find_pmd va pud_large pmd_large pmd g it)
    unfolding find_pmd
    find_pmd-Unlocks f pmd g it h =
        let place = at pmd it.index_pmd in
        let found : Pt = record it { pmd = g place; pmd_addr = place; level = 2 } in
        let set = Unlocks-IsChange.trans f g (unlock place g) h (unlock-Unlocks place g) in
        chosen (FromMemory f) _ _ _ h (
          chosen (FromMemory f) _ _ _ (toggle_twice-Unlocks place f (unlock place g) set)
            (find_pte-Unlocks f (below va (unlock place g place)) (unlock place g) found set))

    find_pud-Unlocks :
        (f : Memory) (pud : ℕ) (g : Memory) (it : Pt)
        → Unlocks f g
        → FromMemory f (find_pud va pud_large pmd_large pud g it)
    unfolding find_pud
    find_pud-Unlocks f pud g it h =
        let place = at pud it.index_pud in
        let found : Pt = record it { pud = unlock place g place; pud_addr = place; level = 3 } in
        let set = Unlocks-IsChange.trans f g (unlock place g) h (unlock-Unlocks place g) in
        chosen (FromMemory f) _ _ _ h (
          chosen (FromMemory f) _ _ _ set
            (find_pmd-Unlocks f (below va (g place)) (unlock place g) found set))

    -- The walk is no mere lookup, but all that it does to memory, whatever the tables are, is to
    -- set R/W bits that were clear.
    pub find-Unlocks :
        (address current_pgd : ℕ) (f : Memory) (old : Pt)
        → Unlocks f (find va pud_large pmd_large address current_pgd f old).0
    unfolding find
    find-Unlocks address current_pgd f old =
        let place = at current_pgd (indices address old).index_pgd in
        chosen (FromMemory f) _ _ _ (Unlocks-IsChange.same f) (
          find_pud-Unlocks f (below va (f place)) (unlock place f)
            (record (indices address old) { pgd = f place; pgd_addr = place; level = 4 })
            (unlock-Unlocks place f))

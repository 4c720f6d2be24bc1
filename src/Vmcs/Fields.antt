-- ===== src/Vmcs/Fields.antt =====
-- `in_array_writel` and `in_array_readl`: is a VMCS field one of those that the guard knows?
use hyper_mi.Base.{
  ℕ, zero, suc, ◌<◌, ◌≡◌, refl, arith, List, [], ◌∷◌, length, get_or, ◌==◌, if◌then◌else◌,
  Bool-cases, inl, inr, Cmd, pure, ◌>>◌, ◌>>=◌, Returns,
}
use hyper_mi.Gate.Machine.{Machine}
use hyper_mi.Gate.Switch.{open_gate, close_gate}
use hyper_mi.Gate.Writes.{Restored}

abbrev pub written_fields : List ℕ
written_fields =
    0 ∷ 0 ∷ 0x2400 ∷ 0x2401 ∷ 0 ∷ 0 ∷ 0x6008 ∷ 0x600a ∷ 0x600c ∷ 0x600e ∷ 0 ∷ 0 ∷ 0 ∷ 0 ∷ 0 ∷ 0
    ∷ 0x6c14 ∷ 0 ∷ 0 ∷ []

abbrev pub read_fields : List ℕ
read_fields =
    0 ∷ 0 ∷ 0 ∷ 0 ∷ 0x2800 ∷ 0x400a ∷ 0x6008 ∷ 0x600a ∷ 0x600c ∷ 0x600e ∷ 0 ∷ 0 ∷ 0 ∷ 0x6c02
    ∷ 0x6c10 ∷ 0x6c12 ∷ 0x6c14 ∷ 0x6c16 ∷ 0 ∷ []

-- The loop: `r` becomes 1 at the first match, and stays as it was without one.
unfoldable pub search_array : List ℕ → ℕ → ℕ → ℕ
search_array [] field r = r
search_array (f ∷ fs) field r = let rest = search_array fs field r in if field == f then 1 else rest

module _ (pa va : ℕ → ℕ) where
  unfoldable pub in_array_writel : ℕ → ℕ → Cmd Machine ℕ
  unfolding open_gate close_gate search_array
  in_array_writel field r =
      open_gate pa va >> pure (search_array written_fields field r) >>= λ s. close_gate >> pure s

  unfoldable pub in_array_readl : ℕ → ℕ → Cmd Machine ℕ
  unfolding open_gate close_gate search_array
  in_array_readl field r = open_gate pa va >> close_gate >> pure (search_array read_fields field r)

-- Some place of the array holds the field.
abbrev pub Holds : List ℕ → ℕ → Type 0
Holds fs field = (i : ℕ) × (i < length fs) × (get_or fs i 0 ≡ field)

search_array-finds : (fs : List ℕ) (field : ℕ) → search_array fs field 0 ≡ 1 → Holds fs field
unfolding search_array
search_array-finds [] field e = absurd (omega arith)
search_array-finds (f ∷ fs) field e = elim (Bool-cases (field == f)) [
  | inl hit ↦ (0, omega arith, ground arith)
  | inr miss ↦
      let (i, low, same) = search_array-finds fs field (ground arith) in (suc i, omega arith, same)
]

search_array-hits :
    (fs : List ℕ) (field i : ℕ)
    → i < length fs
    → get_or fs i 0 ≡ field
    → search_array fs field 0 ≡ 1
unfolding search_array
search_array-hits [] field i low same = absurd (omega arith)
search_array-hits (f ∷ fs) field zero low same = ground arith
search_array-hits (f ∷ fs) field (suc i) low same = elim (Bool-cases (field == f)) [
  | inl hit ↦ rw hit
  | inr miss ↦ rw miss (search_array-hits fs field i (omega arith) same)
]

module _ (pa va : ℕ → ℕ) (field : ℕ) (m : Machine) where
  -- The search for a written field returns; it answers 1 if and only if some place of its array
  -- holds the field, and it restores cr3, the interrupt flag and the stack.
  in_array_writel_lem : Returns (in_array_writel pa va field 0 m) λ r u.
      Restored m u × (r ≡ 1 → Holds written_fields field) × (Holds written_fields field → r ≡ 1)
  unfolding in_array_writel
  in_array_writel_lem = (
    search_array written_fields field 0,
    _,
    refl,
    (
      record { cr3 = refl; interrupts = refl; stack = refl },
      search_array-finds written_fields field,
      λ (i, low, same). search_array-hits written_fields field i low same,
    ),
  )

  -- The search for a field that is read returns; it answers 1 if and only if some place of its
  -- array holds the field, and it restores cr3, the interrupt flag and the stack.
  in_array_readl_lem :
      Returns
        (in_array_readl pa va field 0 m)
        λ r u. Restored m u × (r ≡ 1 → Holds read_fields field) × (Holds read_fields field → r ≡ 1)
  unfolding in_array_readl
  in_array_readl_lem = (
    search_array read_fields field 0,
    _,
    refl,
    (
      record { cr3 = refl; interrupts = refl; stack = refl },
      search_array-finds read_fields field,
      λ (i, low, same). search_array-hits read_fields field i low same,
    ),
  )

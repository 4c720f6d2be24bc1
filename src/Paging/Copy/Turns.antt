-- ===== src/Paging/Copy/Turns.antt =====
-- The loop over the top level in src/SecureVM/copy_pg.h.
use hyper_mi.Base.{
  ℕ, zero, suc, ◌+◌, ◌*◌, ◌≤◌, ◌<◌, ◌≡◌, ◌≢◌, refl, ◌∙◌, arith, Bool, true, false, ◌==◌, Bool-cases,
  inl, inr, ==_refl, Returns, Returns-and_then, within, if◌then◌else◌,
}
use hyper_mi.Paging.Protect.{at}
use hyper_mi.Paging.Store.{Store, PageKernel, for_steps}
use hyper_mi.Paging.Copy.{is_invalid, copy_pgd}
use hyper_mi.Paging.Copy.Spec.{IsStoring, good, covered, IsSeparate, AllFresh}
use hyper_mi.Paging.Copy.Turn.{IsCopied, Turn, copy_pgd-Turn}

-- The entries from `first` up to `last` are copied; that at `i`, if it is valid, has the page `b i`,
-- which the allocator gave. It overlaps neither `taken` nor the page of another entry.
pub record AreCopied (k : PageKernel) (old new : ℕ) (taken : ℕ → Bool) (first last : ℕ) (b : ℕ → ℕ)
    (s u : Store) : Type 0 where
  pub copied :
      (i : ℕ) → first ≤ i → i < last → IsCopied k (b i) (s.memory (at old i)) (u.memory (at new i))
  pub given :
      (i : ℕ)
      → first ≤ i
      → i < last
      → is_invalid (s.memory (at old i)) ≡ false
      → (x : ℕ) → within (b i) 4096 x ≡ true
      → (covered s.pages x ≡ true) × (taken x ≡ false)
  pub apart :
      (i j : ℕ)
      → first ≤ i
      → i < j
      → j < last
      → is_invalid (s.memory (at old i)) ≡ false
      → is_invalid (s.memory (at old j)) ≡ false
      → (x : ℕ) → within (b i) 4096 x ≡ true
      → within (b j) 4096 x ≡ false

module _ (k : PageKernel) (storing : IsStoring k) (fresh : ℕ → Bool) (new old : ℕ) where
  module _ (old_stale : (i : ℕ) → i < 512 → fresh (at old i) ≡ false)
      (new_stale : (i : ℕ) → i < 512 → fresh (at new i) ≡ false)
      (apart : (i j : ℕ) → i < 512 → j < 512 → at old i ≢ at new j) where
    -- A turn at `first` before those that follow.
    abbrev joined : ℕ → ℕ → (ℕ → ℕ) → ℕ → ℕ
    joined first page b i = if i == first then page else b i

    module _ (n first : ℕ) (s t u : Store) {more : ℕ}
        (turn : Turn k storing fresh new old first s more t)
        (kept : u.memory (at new first) ≡ t.memory (at new first)) (low : first + suc n ≤ 512)
        (b : ℕ → ℕ) (c : AreCopied k old new (λ x. false) (first + 1) (first + 1 + n) b t u) where
      same : (i : ℕ) → first < i → i < 512 → t.memory (at old i) ≡ s.memory (at old i)
      same i h high = turn.others (at old i) (old_stale i high) (apart i first high (omega arith))

      still_covered : (x : ℕ) → covered t.pages x ≡ true → covered s.pages x ≡ true
      still_covered x h = elim (Bool-cases (covered s.pages x)) [
        | inl e ↦ e
        | inr e ↦ let out = turn.rest.fewer x e in absurd (cc)
      ]

      at_first : (i : ℕ) → (i == first) ≡ true → i ≡ first
      at_first i h = ground arith

      join : AreCopied k old new (λ x. false) first (first + suc n) (joined first turn.page b) s u
      join = record {
        copied = λ i p h. elim (Bool-cases (i == first)) [
          | inl now ↦ rw (at_first i now, ==_refl first, kept) turn.copied
          | inr later ↦
              let e = same i (ground arith) (omega arith) in
              rw (later, ← e) (c.copied i (ground arith) (omega arith))
        ];
        given = λ i p h valid x. elim (Bool-cases (i == first)) [
          | inl now ↦
              rw now (λ inside. ((turn.gone (rw (← at_first i now) valid) x inside).0, refl))
          | inr later ↦ rw later (λ inside.
              let e = same i (ground arith) (omega arith) in
              (
                still_covered x (c.given i (ground arith) (omega arith) (rw e valid) x inside).0,
                refl,
              ))
        ];
        apart = λ i j p h r valid valid2 x.
            let later : (j == first) ≡ false = ground arith in
            let e2 = same j (omega arith) (omega arith) in
            elim (Bool-cases (i == first)) [
              | inl now ↦
                  rw (now, later)
                    (λ inside.
                      let out = (turn.gone (rw (← at_first i now) valid) x inside).1 in
                      elim (Bool-cases (within (b j) 4096 x)) [
                        | inl both ↦
                            let there =
                              (c.given j (omega arith) (omega arith) (rw e2 valid2) x both).0 in
                            absurd (cc)
                        | inr only ↦ only
                      ])
              | inr after ↦
                  let e = same i (ground arith) (omega arith) in
                  rw (after, later)
                    (c.apart i j (ground arith) h (omega arith) (rw e valid) (rw e2 valid2) x)
            ];
      }

    pub half-Turns :
        (n first : ℕ) (s : Store) (more : ℕ)
        → first + n ≤ 512
        → AllFresh fresh s.pages
        → IsSeparate s.pages
        → n * 262657 + more ≤ good s.pages
        → Returns (for_steps n first (copy_pgd k new old) s) λ _ u.
          ((b : ℕ → ℕ) × AreCopied k old new (λ x. false) first (first + n) b s u)
          × ((x : ℕ)
              → fresh x ≡ false
              → ((i : ℕ) → first ≤ i → i < first + n → x ≢ at new i)
              → u.memory x ≡ s.memory x)
    unfolding for_steps
    half-Turns zero first s more low pages separate enough = (
      tt,
      s,
      refl,
      (
        (
          λ i. 0,
          record {
            copied = λ i p q. absurd (omega arith);
            given = λ i p q. absurd (omega arith);
            apart = λ i j p q r. absurd (omega arith);
          },
        ),
        λ x stale out. refl,
      ),
    )
    half-Turns (suc n) first s more low pages separate enough =
        Returns-and_then
          (copy_pgd-Turn k storing fresh new old old_stale new_stale apart first s
            (n * 262657 + more) (omega arith) pages separate (omega arith))
          λ _ t turn.
            let (v, u, run, q) =
              half-Turns n (first + 1) t more (omega arith) turn.pages (turn.rest.separate separate)
                turn.left in
            let kept : u.memory (at new first) ≡ t.memory (at new first) =
              q.1 (at new first) (new_stale first (omega arith))
                (λ j a b same. absurd (omega arith)) in
            (
              v,
              u,
              run,
              (
                (_, join n first s t u turn kept low q.0.0 q.0.1),
                λ x stale out.
                    q.1 x stale (λ i p h. out i (omega arith) (omega arith))
                    ∙ turn.others x stale (out first (omega arith) (omega arith)),
              ),
            )

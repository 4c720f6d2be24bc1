-- ===== src/Paging/Loop.antt =====
-- The counting loops of the walks, and what a loop keeps and achieves.
use hyper_mi.Base.{ℕ, zero, suc, ◌+◌, ◌≤◌, ◌<◌, ◌≡◌, ◌⊎◌, inl, inr, arith}

abbrev pub Memory : Type 0
Memory = ℕ → ℕ

-- `for (i = first; i < first + n; i++) body`.
unfoldable pub for_each : ℕ → ℕ → (ℕ → Memory → Memory) → Memory → Memory
for_each zero first body f = f
for_each (suc n) first body f = for_each n (first + 1) body (body first f)

-- A way in which memory may change, step after step.
pub record IsChange (Q : Memory → Memory → Type 0) : Type 0 where
  pub same : (f : Memory) → Q f f
  pub trans : (f g h : Memory) → Q f g → Q g h → Q f h

module _ (Q : Memory → Memory → Type 0) (change : IsChange Q) (body : ℕ → Memory → Memory) where
  pub for_each-keeps :
      ((i : ℕ) (f : Memory) → Q f (body i f))
      → (n first : ℕ) (f : Memory) → Q f (for_each n first body f)
  unfolding for_each
  for_each-keeps step zero first f = change.same f
  for_each-keeps step (suc n) first f =
      change.trans f (body first f) (for_each n (first + 1) body (body first f)) (step first f)
        (for_each-keeps step n (first + 1) (body first f))

  split : (first j : ℕ) → first ≤ j → (j ≡ first) ⊎ (first + 1 ≤ j)
  split first j low = grind arith

  -- What one turn achieves in every memory reached from `f`, and every change keeps, the loop
  -- achieves.
  pub for_each-achieves :
      (P : Memory → Type 0)
      → ((i : ℕ) (f : Memory) → Q f (body i f))
      → ((g h : Memory) → Q g h → P g → P h)
      → (n first j : ℕ) (f : Memory) → first ≤ j
      → j < first + n
      → ((g : Memory) → Q f g → P (body j g))
      → P (for_each n first body f)
  unfolding for_each
  for_each-achieves P step stable zero first j f low high turn = absurd (omega arith)
  for_each-achieves P step stable (suc n) first j f low high turn = elim (split first j low) [
    | inl now ↦
        stable (body first f) (for_each n (first + 1) body (body first f))
          (for_each-keeps step n (first + 1) (body first f)) (rw (← now) (turn f (change.same f)))
    | inr later ↦
        for_each-achieves P step stable n (first + 1) j (body first f) later (omega arith)
          (λ g q. turn g (change.trans f (body first f) g (step first f) q))
  ]

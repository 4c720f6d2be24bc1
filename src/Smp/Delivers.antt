-- ===== src/Smp/Delivers.antt =====
-- What a handler writes stays written, where no other processor writes to the same place.
use hyper_mi.Base.{
  ℕ, ◌≡◌, refl, ◌∙◌, ap, subst, arith, Bool, true, false, ◌==◌, ==_refl, Bool-cases, inl, inr,
  Returns, Returns-unique,
}
use hyper_mi.Smp.{
  Point, outside, has_table, has_cr3, masked, switched, flushed_once, inside, written, unmasked,
  flushed_twice, closed, following, Cpu, Smp, seen, moved, statement, Step, pick, enter, Reach,
  start, later,
}
use hyper_mi.Smp.Calls.{Call, set_pte, set_pmd, write_cr0, write_cr4, write_cr8, put}
use hyper_mi.Smp.Effects.{is_write, after, statement-Does}
use hyper_mi.Smp.Calm.{IsCalm, AreCalm, Reach-AreCalm, outside-AreCalm, update-All}

-- The call writes to another place.
abbrev pub Misses : ℕ → Call → Type 0
Misses x (set_pte ptep pte) = x == ptep ≡ false
Misses x (set_pmd pmdp pmd) = x == pmdp ≡ false
Misses x c = Unit

put-Misses : (x : ℕ) (c : Call) (f : ℕ → ℕ) → Misses x c → put c f x ≡ f x
put-Misses x (set_pte ptep pte) f h = rw h refl
put-Misses x (set_pmd pmdp pmd) f h = rw h refl
put-Misses x (write_cr0 val) f h = refl
put-Misses x (write_cr4 val) f h = refl
put-Misses x (write_cr8 val) f h = refl

-- After the write, and before the handler is left.
abbrev pub has_written : Point → Bool
has_written written = true
has_written unmasked = true
has_written flushed_twice = true
has_written closed = true
has_written p = false

-- The call writes `v` there.
abbrev pub Writes : ℕ → ℕ → Call → Type 0
Writes x v (set_pte ptep pte) = (x ≡ ptep) × (pte ≡ v)
Writes x v (set_pmd pmdp pmd) = (x ≡ pmdp) × (pmd ≡ v)
Writes x v c = ⊥

put-Writes : (x v : ℕ) (c : Call) (f : ℕ → ℕ) → Writes x v c → put c f x ≡ v
put-Writes x v (set_pte ptep pte) f h = rw (h.0, ==_refl ptep) (h.1)
put-Writes x v (set_pmd pmdp pmd) f h = rw (h.0, ==_refl pmdp) (h.1)
put-Writes x v (write_cr0 val) f h = absurd h
put-Writes x v (write_cr4 val) f h = absurd h
put-Writes x v (write_cr8 val) f h = absurd h

after-Misses : (x : ℕ) (c : Call) (p : Point) (f : ℕ → ℕ) → Misses x c → after c p f x ≡ f x
after-Misses x c p f h = elim (Bool-cases (is_write p)) [
  | inl hit ↦ rw hit (put-Misses x c f h)
  | inr miss ↦ rw miss refl
]

after-Writes :
    (x v : ℕ) (c : Call) (p : Point) (f : ℕ → ℕ)
    → Writes x v c
    → (has_written p ≡ true → f x ≡ v)
    → has_written (following p) ≡ true
    → after c p f x ≡ v
after-Writes x v c outside f w h e = cc
after-Writes x v c has_table f w h e = cc
after-Writes x v c has_cr3 f w h e = cc
after-Writes x v c masked f w h e = cc
after-Writes x v c switched f w h e = cc
after-Writes x v c flushed_once f w h e = cc
after-Writes x v c inside f w h e = put-Writes x v c f w
after-Writes x v c written f w h e = h refl
after-Writes x v c unmasked f w h e = h refl
after-Writes x v c flushed_twice f w h e = h refl
after-Writes x v c closed f w h e = cc

module _ (pa va : ℕ → ℕ) where
  -- Every call that a run hands out satisfies `Q`.
  abbrev pub StepOnly : (Q : ℕ → Call → Type 0) {s t : Smp} → Step pa va s t → Type 0
  StepOnly Q (pick i run) = Unit
  StepOnly Q (enter i c out) = Q i c

  abbrev pub Only : (Q : ℕ → Call → Type 0) {s t : Smp} → Reach pa va s t → Type 0
  Only Q start = Unit
  Only Q (later r step) = Only Q r × StepOnly Q step

  module _ (i x v : ℕ) where
    -- The others write to other places, and what processor `i` has written is there.
    record Delivered (s : Smp) : Type 0 where
      others : (j : ℕ) → j == i ≡ false → Misses x (s.cpu j).call
      there : Writes x v (s.cpu i).call → has_written (s.cpu i).point ≡ true → s.shared.memory x ≡ v

    -- Each call handed to another processor misses the place.
    abbrev pub Avoids : ℕ → Call → Type 0
    Avoids j c = j == i ≡ false → Misses x c

    Step-Delivered :
        (first : ℕ → Cpu) {s t : Smp} (step : Step pa va s t)
        → StepOnly Avoids step
        → AreCalm pa va first s
        → Delivered s
        → Delivered t
    Step-Delivered first {s} (pick j {m} run) only calm d =
        let c = s.cpu j in
        let done =
          (Returns-unique _
            (statement-Does pa va (first j) c.call c.point (seen s.shared c) (calm j))
            run).memory in
        record {
          others =
              update-All (λ k e. k == i ≡ false → Misses x e.call) s.cpu j (moved m c) (d.others j)
                d.others;
          there = elim (Bool-cases (i == j)) [
            | inl mine ↦
                let e : i ≡ j = ground arith in
                let there =
                  subst
                    (λ k.
                      Writes x v (s.cpu k).call
                      → has_written (s.cpu k).point ≡ true
                      → s.shared.memory x ≡ v)
                    e d.there in
                rw mine (λ w h.
                  ap (λ f. f x) done
                  ∙ after-Writes x v c.call c.point s.shared.memory w (there w) h)
            | inr other ↦ rw other (λ w h.
                let far : j == i ≡ false = ground arith in
                ap (λ f. f x) done
                ∙ after-Misses x c.call c.point s.shared.memory (d.others j far)
                ∙ d.there w h)
          ];
        }
    Step-Delivered first {s} (enter j c out) only calm d = record {
      others =
          update-All (λ k e. k == i ≡ false → Misses x e.call) s.cpu j
            (record (s.cpu j) { call = c }) only d.others;
      there = elim (Bool-cases (i == j)) [
        | inl mine ↦
            rw mine
              (λ w h. let not_yet : has_written (s.cpu j).point ≡ false = ap has_written out in cc)
        | inr other ↦ rw other d.there
      ];
    }

    Reach-Delivered :
        {s t : Smp}
        → ((j : ℕ) → (s.cpu j).point ≡ outside)
        → (r : Reach pa va s t) → Only Avoids r
        → Delivered s
        → Delivered t
    Reach-Delivered out start only d = d
    Reach-Delivered {s} out (later r step) only d =
        Step-Delivered s.cpu step only.1 (Reach-AreCalm pa va s.cpu r (outside-AreCalm pa va s out))
          (Reach-Delivered out r only.0 d)

    -- When every processor starts outside the handlers, and the calls of all processors but `i`
    -- write to other places than `x`, then however the statements interleave, `x` holds `v` from the
    -- write of a call of `i` that writes `v` to `x` up to the last statement of that call, which
    -- leaves `v` there.
    pub Reach-delivers :
        {s t : Smp}
        → ((j : ℕ) → (s.cpu j).point ≡ outside)
        → ((j : ℕ) → j == i ≡ false → Misses x (s.cpu j).call)
        → (r : Reach pa va s t) → Only Avoids r
        → Writes x v (t.cpu i).call
        → (has_written (t.cpu i).point ≡ true → t.shared.memory x ≡ v)
          × ((t.cpu i).point ≡ closed
              → Returns
                  (statement pa va (t.cpu i).call closed (seen t.shared (t.cpu i)))
                  λ _ n. n.memory x ≡ v)
    Reach-delivers {s} {t} out others r only w =
        let first : Delivered s = record {
          others = others;
          there = λ w h.
              let not_yet : has_written (s.cpu i).point ≡ false = ap has_written (out i) in cc;
        } in
        let calm = Reach-AreCalm pa va s.cpu r (outside-AreCalm pa va s out) i in
        let c = t.cpu i in
        (
          (Reach-Delivered out r only first).there w,
          λ last.
              let (u, n, run, does) =
                statement-Does pa va (s.cpu i) c.call closed (seen t.shared c)
                  (subst (λ p. IsCalm (s.cpu i) p (seen t.shared c)) last calm) in
              (u, n, run, ap (λ f. f x) does.memory ∙ put-Writes x v c.call t.shared.memory w),
        )

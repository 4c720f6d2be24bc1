-- ===== src/Smp/Finish.antt =====
-- Nothing a processor does in the handlers waits for another.
use hyper_mi.Base.{
  ℕ, zero, suc, Returns, ok, true, subst, ◌≡◌, refl, ◌∙◌, arith, false, ◌==◌, ==_refl, update,
}
use hyper_mi.Smp.{
  Point, outside, has_table, has_cr3, masked, switched, flushed_once, inside, written, unmasked,
  flushed_twice, closed, following, Cpu, Smp, seen, moved, statement, Step, pick, Reach, start,
  later,
}
use hyper_mi.Gate.Machine.{Machine}
use hyper_mi.Smp.Calls.{Call}
use hyper_mi.Smp.Calm.{
  IsCalm, statement-IsCalm, AreCalm, Step-AreCalm, Reach-AreCalm, outside-AreCalm,
}
use hyper_mi.Smp.Safe.{knows_table}

-- The statements left.
abbrev left : Point → ℕ
left outside = 0
left has_table = 10
left has_cr3 = 9
left masked = 8
left switched = 7
left flushed_once = 6
left inside = 5
left written = 4
left unmasked = 3
left flushed_twice = 2
left closed = 1

left_zero : (p : Point) → left p ≡ 0 → p ≡ outside
left_zero outside e = refl
left_zero has_table e = ground arith
left_zero has_cr3 e = ground arith
left_zero masked e = ground arith
left_zero switched e = ground arith
left_zero flushed_once e = ground arith
left_zero inside e = ground arith
left_zero written e = ground arith
left_zero unmasked e = ground arith
left_zero flushed_twice e = ground arith
left_zero closed e = ground arith

left-following : (n : ℕ) (p : Point) → left p ≡ suc n → left (following p) ≡ n
left-following n outside e = ground arith
left-following n has_table e = ground arith
left-following n has_cr3 e = ground arith
left-following n masked e = ground arith
left-following n switched e = ground arith
left-following n flushed_once e = ground arith
left-following n inside e = ground arith
left-following n written e = ground arith
left-following n unmasked e = ground arith
left-following n flushed_twice e = ground arith
left-following n closed e = ground arith

left_inside : (n : ℕ) (p : Point) → left p ≡ suc n → knows_table p ≡ true
left_inside n outside e = ground arith
left_inside n has_table e = refl
left_inside n has_cr3 e = refl
left_inside n masked e = refl
left_inside n switched e = refl
left_inside n flushed_once e = refl
left_inside n inside e = refl
left_inside n written e = refl
left_inside n unmasked e = refl
left_inside n flushed_twice e = refl
left_inside n closed e = refl

module _ (pa va : ℕ → ℕ) where
  pub Reach-trans : {s t u : Smp} → Reach pa va s t → Reach pa va t u → Reach pa va s u
  Reach-trans r start = r
  Reach-trans r (later q step) = later (Reach-trans r q) step

  -- Statements of processor `i` alone.
  pub data Own (i : ℕ) (s : Smp) : Smp → Type 0 where
    still : Own i s s
    further :
        {t : Smp} {m : Machine}
        → Own i s t
        → statement pa va (t.cpu i).call (t.cpu i).point (seen t.shared (t.cpu i)) ≡ ok tt m
        → Own i s (record { shared = m; cpu = update t.cpu i (moved m (t.cpu i)) })

  Own-trans : {i : ℕ} {s t u : Smp} → Own i s t → Own i t u → Own i s u
  Own-trans r still = r
  Own-trans r (further q run) = further (Own-trans r q) run

  pub Own-Reach : {i : ℕ} {s t : Smp} → Own i s t → Reach pa va s t
  Own-Reach still = start
  Own-Reach {i} (further q run) = later (Own-Reach q) (pick i run)

  -- A property of what a processor sees, which its own statements inside the function keep.
  abbrev pub Keeps : (Point → Machine → Type 0) → Type 0
  Keeps P =
      (c : Cpu) (a : Call) (p : Point) (m : Machine)
      → IsCalm c p m
      → knows_table p ≡ true
      → P p m
      → Returns (statement pa va a p m) λ _ n. P (following p) n

  -- Processor `i` is through, and the others stand where they stood.
  pub record IsThrough (P : Point → Machine → Type 0) (i : ℕ) (s t : Smp) : Type 0 where
    pub own : Own i s t
    pub out : (t.cpu i).point ≡ outside
    pub others : (j : ℕ) → j == i ≡ false → t.cpu j ≡ s.cpu j
    pub sees : P outside (seen t.shared (t.cpu i))

  module _ (P : Point → Machine → Type 0) (keeps : Keeps P) where
    AreCalm-IsThrough_in :
        (first : ℕ → Cpu) (i n : ℕ) (s : Smp)
        → AreCalm pa va first s
        → left (s.cpu i).point ≡ n
        → P (s.cpu i).point (seen s.shared (s.cpu i))
        → (t : Smp) × IsThrough P i s t
    AreCalm-IsThrough_in first i zero s calm e h =
        let out = left_zero (s.cpu i).point e in
        (
          s,
          record {
            own = still;
            out = out;
            others = λ j d. refl;
            sees = subst (λ p. P p (seen s.shared (s.cpu i))) out h;
          },
        )
    AreCalm-IsThrough_in first i (suc n) s calm e h =
        let p = (s.cpu i).point in
        let (u, m, run, good) =
          keeps (first i) (s.cpu i).call p (seen s.shared (s.cpu i)) (calm i) (left_inside n p e)
            h in
        let next : Smp = record { shared = m; cpu = update s.cpu i (moved m (s.cpu i)) } in
        let step : Step pa va s next = pick i run in
        let e' : left (next.cpu i).point ≡ n = rw (==_refl i) (left-following n p e) in
        let h' : P (next.cpu i).point (seen m (next.cpu i)) = rw (==_refl i) good in
        let (t, through) =
          AreCalm-IsThrough_in first i n next (Step-AreCalm pa va first step calm) e' h' in
        (
          t,
          record {
            own = Own-trans (further still run) through.own;
            out = through.out;
            others = λ j d. through.others j d ∙ rw d refl;
            sees = through.sees;
          },
        )

    pub AreCalm-IsThrough :
        (first : ℕ → Cpu) (i : ℕ) (s : Smp)
        → AreCalm pa va first s
        → P (s.cpu i).point (seen s.shared (s.cpu i))
        → (t : Smp) × IsThrough P i s t
    AreCalm-IsThrough first i s calm h =
        AreCalm-IsThrough_in first i (left (s.cpu i).point) s calm refl h

  Keeps-anything : Keeps (λ p m. Unit {0})
  Keeps-anything c a p m calm k h =
      let (u, n, run, _) = statement-IsCalm pa va c a p m calm in (u, n, run, tt)

  -- When every processor starts outside the handlers, then in each state they can reach any one of
  -- them can leave its handler by its own statements alone, which leave the registers, flags, stacks
  -- and places of the others alone; it then has its own flag and stack back.
  pub Reach-finishes :
      {s t : Smp}
      → ((i : ℕ) → (s.cpu i).point ≡ outside)
      → Reach pa va s t
      → (i : ℕ)
      → (u : Smp) × Own i t u
        × (u.cpu i).point ≡ outside
        × (u.cpu i).interrupts ≡ (s.cpu i).interrupts
        × (u.cpu i).stack ≡ (s.cpu i).stack
        × ((j : ℕ) → j == i ≡ false → u.cpu j ≡ t.cpu j)
  Reach-finishes {s} {t} out r i =
      let calm = Reach-AreCalm pa va s.cpu r (outside-AreCalm pa va s out) in
      let (u, through) = AreCalm-IsThrough (λ p m. Unit {0}) Keeps-anything s.cpu i t calm tt in
      let c = Reach-AreCalm pa va s.cpu (Own-Reach through.own) calm i in
      let o = through.out in
      (u, through.own, o, c.flag ∙ rw o refl, c.stack ∙ rw o refl, through.others)

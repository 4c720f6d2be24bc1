-- ===== src/PageFlag/Release/Ends.antt =====
-- The report of releases ends when the random numbers serve it, and it changes no entry.
use hyper_mi.Base.{
  ℕ, ◌+◌, ◌-◌, ◌%◌, ◌^◌, ◌≤◌, ◌≡◌, refl, ap, ◌∙◌, arith, true, false, List, [], ◌∷◌, ltb, ◌==◌,
  if◌then◌else◌, Bool-cases, inl, inr, length, Returns,
}
use hyper_mi.PageFlag.Table.{Table, Host, Message, release_banner, released}
use hyper_mi.PageFlag.Release.{drawn, report, release_loop, new_clean_page_modify1}

-- The draws that are above 1000 whatever the stack held.
abbrev pub large : List ℕ → ℕ
large [] = 0
large (r ∷ rs) = (if ltb 1000 (r % 2 ^ 32) then 1 else 0) + large rs

-- Only the random numbers and the log differ.
pub record SameFlags (t u : Table) : Type 0 where
  pub pageflag : u.pageflag ≡ t.pageflag
  pub couhandle : u.couhandle ≡ t.couhandle
  pub pfnusedmark : u.pfnusedmark ≡ t.pfnusedmark
  pub ksm_used_mark : u.ksm_used_mark ≡ t.ksm_used_mark
  pub balloon_inflate_mark : u.balloon_inflate_mark ≡ t.balloon_inflate_mark
  pub balloon_deflate_mark : u.balloon_deflate_mark ≡ t.balloon_deflate_mark

-- The log after the releases of some frames are printed, the first frame first.
abbrev pub releases : List ℕ → List Message → List Message
releases [] log = log
releases (v ∷ vs) log = releases vs (released v ∷ log)

-- The heading is printed before the first.
abbrev headed : ℕ → List Message → List Message
headed i log = if i == 0 then release_banner ∷ log else log

-- The releases of `n` frames are printed.
abbrev pub Prints : ℕ → List Message → List Message → Type 0
Prints n before after = (vs : List ℕ) × (length vs ≡ n) × (after ≡ releases vs before)

module _ (host : Host) where
  report-log : (i v : ℕ) (t : Table) → (report i v t).log ≡ released (v % 50000) ∷ headed i t.log
  unfolding report
  report-log i v t = elim (Bool-cases (i == 0)) [
    | inl first ↦ rw first refl
    | inr after ↦ rw after refl
  ]

  report-SameFlags : (i v : ℕ) (t u : Table) → SameFlags (report i v t) u → SameFlags t u
  unfolding report
  report-SameFlags i v t u h = ground arith

  -- What a draw makes is at least what it stores.
  drawn-ge : (i r : ℕ) → r % 2 ^ 32 ≤ drawn host i r
  unfolding drawn
  drawn-ge i r = omega arith

  -- No heading is printed after the first.
  none : (i : ℕ) (log : List Message) → (i == 6) ≡ true → log ≡ headed i log
  none i log last = let e : (i == 0) ≡ false = ground arith in rw e refl

  below_first :
      (i v : ℕ) (t : Table)
      → headed (i + 1) (report i v t).log ≡ released (v % 50000) ∷ headed i t.log
  below_first i v t = let e : (i + 1 == 0) ≡ false = ground arith in rw e (report-log i v t)

  release_loop-ends :
      (rs : List ℕ) (i : ℕ) (t : Table)
      → i ≤ 6
      → 6 ≤ i + large rs
      → Returns
          (release_loop host rs i t)
          λ _ u. SameFlags t u × Prints (6 - i) (headed i t.log) u.log
  unfolding release_loop
  release_loop-ends [] i t low enough =
      let last : (i == 6) ≡ true = ground arith in
      rw last
        (tt, record t { random = [] }, refl, (ground arith, ([], ground arith, none i t.log last)))
  release_loop-ends (r ∷ rs) i t low enough = elim (Bool-cases (i == 6)) [
    | inl done ↦ rw done (
      tt,
      record t { random = r ∷ rs },
      refl,
      (ground arith, ([], ground arith, none i t.log done)),
    )
    | inr more ↦ rw more (elim (Bool-cases (ltb 1000 (drawn host i r))) [
      | inl hit ↦ rw hit (
          let (u, s, e, p) =
            release_loop-ends rs (i + 1) (report i (drawn host i r) t) (ground arith)
              (ground arith) in
          (
            u,
            s,
            e,
            (
              report-SameFlags i (drawn host i r) t s p.0,
              (
                drawn host i r % 50000 ∷ p.1.0,
                ground (arith, p.1.1),
                p.1.2 ∙ ap (releases p.1.0) (below_first i (drawn host i r) t),
              ),
            ),
          ))
      | inr miss ↦ rw miss (release_loop-ends rs i t low (ground (arith, drawn-ge i r)))
    ])
  ]

  -- With six draws above 1000 to come, the report ends. It prints a heading and then six releases,
  -- and it leaves every entry of the table and every counter as it was.
  pub new_clean_page_modify1-ends :
      (t : Table)
      → 6 ≤ large t.random
      → Returns
          (new_clean_page_modify1 host t)
          λ _ u. SameFlags t u × Prints 6 (release_banner ∷ t.log) u.log
  unfolding new_clean_page_modify1
  new_clean_page_modify1-ends t enough = release_loop-ends t.random 0 t (omega arith) (omega arith)

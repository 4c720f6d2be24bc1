-- ===== src/Paging/Copy/Drawn.antt =====
-- A page that src/SecureVM/copy_pg.h draws from the allocator, among those that are left.
use hyper_mi.Base.{
  ℕ, ◌+◌, ◌≤◌, ◌≡◌, ◌≢◌, refl, arith, true, false, ◌==◌, Bool, Bool-cases, inl, inr, within,
  Returns, Returns-unique, List, [], ◌∷◌,
}
use hyper_mi.Paging.Loop.{Memory}
use hyper_mi.Paging.Store.{Store, PageKernel, draw_page, page_is_null}
use hyper_mi.Paging.Copy.Spec.{
  IsStoring, good, covered, IsSeparate, IsFreshPage, AllFresh, Kept, draw_page-Costs,
}

module _ (k : PageKernel) (storing : IsStoring k) where
  -- A page `a` was drawn from `pages`, and memory is `f` outside of the pages.
  pub record Drawn (pages : List ℕ) (f : Memory) (more a : ℕ) (u : Store) : Type 0 where
    pub given : a ≢ 0
    pub apart_page : (x : ℕ) → within a 4096 x ≡ true → covered u.pages x ≡ false
    pub fewer : (x : ℕ) → covered pages x ≡ false → covered u.pages x ≡ false
    pub not_inside : (x : ℕ) → covered pages x ≡ false → within a 4096 x ≡ false
    pub memory : (x : ℕ) → covered pages x ≡ false → u.memory x ≡ f x
    pub still_separate : IsSeparate u.pages
    pub left : more ≤ good u.pages

  pub draw_page-Drawn :
      (pages : List ℕ) (s : Store) (more : ℕ)
      → IsSeparate pages
      → 1 + more ≤ good pages
      → Returns (draw_page k.clear_page pages s) (Drawn pages s.memory more)
  unfolding draw_page
  draw_page-Drawn [] s more separate enough = absurd (omega arith)
  draw_page-Drawn (a ∷ rest) s more separate enough = elim (Bool-cases (a == 0)) [
    | inl null ↦ rw null (
        let (b, u, run, p) =
          draw_page-Drawn rest (record s { trace = page_is_null ∷ s.trace }) more separate.1
            (ground arith) in
        (
          b,
          u,
          run,
          record {
            given = p.given;
            apart_page = p.apart_page;
            fewer = λ x h. p.fewer x (ground arith);
            not_inside = λ x h. p.not_inside x (ground arith);
            memory = λ x h. p.memory x (ground arith);
            still_separate = p.still_separate;
            left = p.left;
          },
        ))
    | inr given ↦ rw given (
      a,
      _,
      refl,
      record {
        given = ground arith;
        apart_page = separate.0 (ground arith);
        fewer = λ x h. ground arith;
        not_inside = λ x h. ground arith;
        memory = λ x h. ground (arith, storing.clear_page_clears a s.memory x);
        still_separate = separate.1;
        left = ground arith;
      },
    )
  ]

  -- Both what the draw keeps and what the page is.
  pub draw_page-lem :
      (fresh : ℕ → Bool) (s : Store) (more : ℕ)
      → AllFresh fresh s.pages
      → IsSeparate s.pages
      → 1 + more ≤ good s.pages
      → Returns (draw_page k.clear_page s.pages s) λ a u.
        (IsFreshPage fresh a × Kept fresh s u × AllFresh fresh u.pages)
        × Drawn s.pages s.memory more a u
  draw_page-lem fresh s more pages separate enough =
      let (a, u, run, p) = draw_page-Costs fresh k storing s.pages s more pages enough in
      (
        a,
        u,
        run,
        ((p.1, p.2, p.3), Returns-unique _ (draw_page-Drawn s.pages s more separate enough) run),
      )

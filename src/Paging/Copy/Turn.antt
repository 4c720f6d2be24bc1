-- ===== src/Paging/Copy/Turn.antt =====
-- One turn of the loop over the top level in src/SecureVM/copy_pg.h.
use hyper_mi.Base.{
  ℕ, ◌+◌, ◌≤◌, ◌<◌, ◌≡◌, ◌≢◌, refl, ◌∙◌, arith, Bool, true, false, Bool-cases, inl, inr, ==_refl,
  ==_of_ne, ◌>>◌, ◌>>=◌, Returns, Returns-and_then, update, List, within,
}
use hyper_mi.Paging.Protect.{at, below}
use hyper_mi.Paging.Store.{Store, PageKernel, change, load, take_page, for_steps}
use hyper_mi.Paging.Copy.{is_invalid, getflag_pgx, link, copy_pud, copy_pgd}
use hyper_mi.Paging.Copy.Spec.{
  IsStoring, good, covered, IsSeparate, IsLeft, IsLeft-same, AllFresh, Costs-loop,
}
use hyper_mi.Paging.Copy.Drawn.{draw_page-lem}
use hyper_mi.Paging.Copy.Frame.{page-IsFreshTable, pud-Costs}

-- What the entry of the copy is: an invalid entry as it is, any other one for the page `b`.
abbrev pub IsCopied : PageKernel → ℕ → ℕ → ℕ → Type 0
IsCopied k b e v =
    (is_invalid e ≡ true → v ≡ e)
    × (is_invalid e ≡ false → (b ≢ 0) × (v ≡ link k b (getflag_pgx e)))

-- A page was among those before, and is not among those after.
abbrev pub IsGone : List ℕ → List ℕ → ℕ → Type 0
IsGone before after b =
    (x : ℕ) → within b 4096 x ≡ true → (covered before x ≡ true) × (covered after x ≡ false)

module _ (k : PageKernel) (storing : IsStoring k) (fresh : ℕ → Bool) (new old : ℕ) where
  -- A turn of the loop.
  pub record Turn (i : ℕ) (s : Store) (more : ℕ) (u : Store) : Type 0 where
    pub page : ℕ
    pub copied : IsCopied k page (s.memory (at old i)) (u.memory (at new i))
    pub gone : is_invalid (s.memory (at old i)) ≡ false → IsGone s.pages u.pages page
    pub rest : IsLeft s.pages u.pages
    pub others : (x : ℕ) → fresh x ≡ false → x ≢ at new i → u.memory x ≡ s.memory x
    pub pages : AllFresh fresh u.pages
    pub left : more ≤ good u.pages

  module _ (old_stale : (i : ℕ) → i < 512 → fresh (at old i) ≡ false)
      (new_stale : (i : ℕ) → i < 512 → fresh (at new i) ≡ false)
      (apart : (i j : ℕ) → i < 512 → j < 512 → at old i ≢ at new j) where
    -- What follows the test of a valid entry.
    below_top :
        (i : ℕ) (s : Store) (more e : ℕ)
        → i < 512
        → AllFresh fresh s.pages
        → IsSeparate s.pages
        → 262657 + more ≤ good s.pages
        → Returns
            ((take_page k >>= λ a.
                change (k.set_pgd (at new i) (link k a (getflag_pgx e)))
                >> (load (at old i) >>= λ d. for_steps 512 0 (copy_pud k a (below k.va d))))
              s)
            λ _ u.
              ((b : ℕ) × (b ≢ 0)
                × (u.memory (at new i) ≡ link k b (getflag_pgx e))
                × IsGone s.pages u.pages b
                × IsLeft s.pages u.pages)
              × ((x : ℕ) → fresh x ≡ false → x ≢ at new i → u.memory x ≡ s.memory x)
              × AllFresh fresh u.pages
              × (more ≤ good u.pages)
    below_top i s more e low pages separate enough =
        Returns-and_then
          (draw_page-lem k storing fresh s (262656 + more) pages separate (omega arith))
          λ a t (p, d).
            let v = link k a (getflag_pgx e) in
            let t2 : Store = record t { memory = update t.memory (at new i) v } in
            let given : (x : ℕ) → within a 4096 x ≡ true → covered s.pages x ≡ true = λ x inside.
              elim (Bool-cases (covered s.pages x)) [
                | inl yes_covered ↦ yes_covered
                | inr out ↦ let no_page = d.not_inside x out in absurd (cc)
              ] in
            let table = below k.va (t2.memory (at old i)) in
            rw (storing.set_pgd_stores (at new i) v t.memory) (
              let (w, u, run, q) =
                Costs-loop fresh 513 (copy_pud k a table)
                  (λ j low2.
                    pud-Costs k storing fresh a table j (page-IsFreshTable k storing fresh a p.0)
                      low2)
                  512 0 (omega arith) t2 more p.2 (omega (arith, d.left)) in
              (
                w,
                u,
                run,
                (
                  (
                    a,
                    d.given,
                    q.0.memory (at new i) (new_stale i low) ∙ rw (==_refl (at new i)),
                    λ x inside. (given x inside, q.0.pages.fewer x (d.apart_page x inside)),
                    record {
                      fewer = λ x h. q.0.pages.fewer x (p.1.pages.fewer x h);
                      separate = λ h. q.0.pages.separate (p.1.pages.separate h);
                    },
                  ),
                  λ x stale other.
                      q.0.memory x stale ∙ rw (==_of_ne x (at new i) other) (p.1.memory x stale),
                  q.1,
                  q.2,
                ),
              ))

    pub copy_pgd-Turn :
        (i : ℕ) (s : Store) (more : ℕ)
        → i < 512
        → AllFresh fresh s.pages
        → IsSeparate s.pages
        → 262657 + more ≤ good s.pages
        → Returns (copy_pgd k new old i s) λ _. Turn i s more
    unfolding copy_pgd
    copy_pgd-Turn i s more low pages separate enough =
        let e = s.memory (at old i) in
        let s2 : Store = record s { memory = update s.memory (at new i) e } in
        let again : s2.memory (at old i) ≡ e =
          rw (==_of_ne (at old i) (at new i) (apart i i low low)) in
        rw (storing.set_pgd_stores (at new i) e s.memory, again)
          (elim (Bool-cases (is_invalid e)) [
            | inl bad ↦ rw bad (
              tt,
              s2,
              refl,
              record {
                page = 0;
                copied = (λ h. rw (==_refl (at new i)), λ h. absurd (cc));
                gone = λ h. absurd (cc);
                rest = IsLeft-same s.pages;
                others = λ x stale other. rw (==_of_ne x (at new i) other);
                pages = pages;
                left = omega arith;
              },
            )
            | inr fine ↦ rw fine (
                let (w, u, run, p) = below_top i s2 more e low pages separate enough in
                (
                  w,
                  u,
                  run,
                  record {
                    page = p.0.0;
                    copied = (λ h. absurd (cc), λ h. (p.0.1, p.0.2));
                    gone = λ h. p.0.3;
                    rest = p.0.4;
                    others =
                        λ x stale other. p.1 x stale other ∙ (rw (==_of_ne x (at new i) other));
                    pages = p.2;
                    left = p.3;
                  },
                ))
          ])

-- ===== src/Paging/Copy/Top.antt =====
-- The whole copy by src/SecureVM/copy_pg.h: what the entries of its top level are.
use hyper_mi.Base.{
  ℕ, ◌≤◌, ◌<◌, ◌≡◌, refl, arith, true, false, Bool-cases, inl, inr, within, Returns,
  Returns-and_then, ◌∷◌,
}
use hyper_mi.Paging.Protect.{at}
use hyper_mi.Paging.Store.{Store, PageKernel, flushed_tlb}
use hyper_mi.Paging.Copy.{copy_pagetable}
use hyper_mi.Paging.Copy.Spec.{IsStoring, good, covered, IsSeparate}
use hyper_mi.Paging.Copy.Drawn.{draw_page-Drawn}
use hyper_mi.Paging.Copy.Frame.{AllFresh-covered}
use hyper_mi.Paging.Copy.Turns.{AreCopied, half-Turns}

in_page : (a j : ℕ) → j < 512 → within a 4096 (at a j) ≡ true
in_page a j low = ground arith

module _ (k : PageKernel) (storing : IsStoring k) where
  -- If the kernel's functions store what they are given, 67240193 calls of the allocator will
  -- succeed, and the pages that it will give do not overlap each other or the old top table, the
  -- copy ends, and in the new table each entry of the kernel's half is the old one where that is
  -- invalid, and otherwise an entry with the old flags for a page of its own: one that the
  -- allocator gave, which overlaps neither the new table nor the page of another of these entries.
  pub copy_pagetable-AreCopied :
      (s : Store)
      → 67240193 ≤ good s.pages
      → IsSeparate s.pages
      → ((i : ℕ) → i < 512 → covered s.pages (at (k.va s.cr3) i) ≡ false)
      → Returns
          (copy_pagetable k s)
          λ a u. (b : ℕ → ℕ) × AreCopied k (k.va s.cr3) a (λ x. within a 4096 x) 256 512 b s u
  unfolding copy_pagetable
  copy_pagetable-AreCopied s enough separate stale =
      let old = k.va s.cr3 in
      Returns-and_then (draw_page-Drawn k storing s.pages s 67240192 separate (omega arith))
        λ a t p.
          let (v, u, run, q) =
            half-Turns k storing (covered t.pages) a old (λ i low. p.fewer (at old i) (stale i low))
              (λ i low. p.apart_page (at a i) (in_page a i low))
              (λ i j low low2 same.
                let inside = in_page a j low2 in
                let outside = p.not_inside (at old i) (stale i low) in absurd (cc))
              256 256 t 0 (omega arith) (AllFresh-covered (covered t.pages) t.pages (λ x h. h))
              p.still_separate (omega (arith, p.left)) in
          let (b, c) = q.0 in
          let e : (i : ℕ) → i < 512 → t.memory (at old i) ≡ s.memory (at old i) =
            λ i low. p.memory (at old i) (stale i low) in
          (
            a,
            record u { trace = flushed_tlb ∷ u.trace },
            rw run refl,
            (
              b,
              record {
                copied = λ i h low. rw (← e i low) (c.copied i h low);
                given = λ i h low valid x inside.
                    let there = (c.given i h low (rw (e i low) valid) x inside).0 in
                    (
                      elim (Bool-cases (covered s.pages x)) [
                        | inl found ↦ found
                        | inr out ↦ let gone = p.fewer x out in absurd (cc)
                      ],
                      elim (Bool-cases (within a 4096 x)) [
                        | inl both ↦ let gone = p.apart_page x both in absurd (cc)
                        | inr only ↦ only
                      ],
                    );
                apart = λ i j h next low valid valid2.
                    c.apart i j h next low (rw (e i (omega arith)) valid) (rw (e j low) valid2);
              },
            ),
          )

-- ===== src/Paging/Copy/Clobber.antt =====
-- Two places where src/SecureVM/copy_pg.h does not what its names say.
use hyper_mi.Base.{
  ℕ, ◌≤◌, ◌≡◌, ◌≢◌, refl, subst, ◌∙◌, ◌%◌, arith, false, ==_refl, ==_of_ne, Returns,
  Returns-and_then, update, bit_and,
}
use hyper_mi.Base.Page.{page_mask}
use hyper_mi.Paging.Loop.{Memory}
use hyper_mi.Paging.Protect.{at, below}
use hyper_mi.Paging.Bits.{IsUnlocked, frame-IsUnlocked, present-IsUnlocked}
use hyper_mi.Paging.Find.{Pt, find}
use hyper_mi.Paging.Finds.{find-Unlocks}
use hyper_mi.Paging.Store.{Store, PageKernel}
use hyper_mi.Paging.Copy.{
  is_invalid, getflag_pgx, link, copy_pte, copy_pmd, clear_newpgd_addr, cl_cp_pgtable,
}
use hyper_mi.Paging.Copy.Spec.{IsStoring, good, covered, Costs-loop, draw_page-Costs}
use hyper_mi.Paging.Copy.Frame.{AllFresh-covered, page-IsFreshTable, pte-Costs, copy_pagetable-ends}

written_first : (f : Memory) (a b v : ℕ) → update (update f b v) a v b ≡ v
written_first f a b v = ground arith

module _ (k : PageKernel) (storing : IsStoring k) where
  -- If the kernel's functions store what they are given, one call of the allocator will succeed,
  -- its pages hold neither place of the new table, and the old and the new entry are different
  -- words: the copy of an entry of the middle level that is valid and not large writes the new
  -- entry at its own place `i3` and at the place `i2`, the index of the table in the level above.
  pub copy_pmd-clobbers :
      (new old i2 i3 : ℕ) (s : Store)
      → 1 ≤ good s.pages
      → covered s.pages (at new i2) ≡ false
      → covered s.pages (at new i3) ≡ false
      → at old i3 ≢ at new i3
      → is_invalid (s.memory (at old i3)) ≡ false
      → k.pmd_large (s.memory (at old i3)) ≡ false
      → Returns (copy_pmd k new old i2 i3 s) λ _ u.
        (b : ℕ) × (b ≢ 0)
        × (u.memory (at new i3) ≡ link k b (getflag_pgx (s.memory (at old i3))))
        × (u.memory (at new i2) ≡ link k b (getflag_pgx (s.memory (at old i3))))
  unfolding copy_pmd
  copy_pmd-clobbers new old i2 i3 s enough stale2 stale3 apart valid small =
      let e = s.memory (at old i3) in
      let f1 : Memory = update s.memory (at new i3) e in
      let f2 : Memory = update f1 (at new i3) e in
      let read1 : f1 (at old i3) ≡ e = rw (==_of_ne (at old i3) (at new i3) apart) in
      let read2 : f2 (at old i3) ≡ e = rw (==_of_ne (at old i3) (at new i3) apart) in
      rw (read1, storing.set_pmd_stores (at new i3) e f1, read2, valid, small)
        (Returns-and_then
          (draw_page-Costs (covered s.pages) k storing s.pages (record s { memory = f2 }) 0
            (AllFresh-covered (covered s.pages) s.pages (λ x h. h)) (omega arith))
          λ a t p.
            let v = link k a (getflag_pgx e) in
            let f3 : Memory = update t.memory (at new i3) v in
            let t2 : Store = record t { memory = update f3 (at new i2) v } in
            let table = below k.va (t2.memory (at old i3)) in
            rw (storing.set_pmd_stores (at new i2) v f3) (
              let (w, u, run, q) =
                Costs-loop (covered s.pages) 0 (copy_pte k a table)
                  (λ j low.
                    pte-Costs k storing (covered s.pages) a table j
                      (page-IsFreshTable k storing (covered s.pages) a p.1) low)
                  512 0 (omega arith) t2 0 p.3 (omega arith) in
              (
                w,
                u,
                run,
                (
                  a,
                  p.0,
                  q.0.memory (at new i3) stale3 ∙ written_first t.memory (at new i2) (at new i3) v,
                  q.0.memory (at new i2) stale2 ∙ rw (==_refl (at new i2)),
                ),
              )))

  -- If the kernel's functions store what they are given and 67240193 calls of the allocator will
  -- succeed, `cl_cp_pgtable` ends, and every word outside the pages of the allocator is as it was,
  -- but for a R/W bit that may have been set: each keeps its frame and its Present bit, so no page
  -- is unmapped.
  pub cl_cp_pgtable-unmaps_nothing :
      (it : Pt) (s : Store)
      → 67240193 ≤ good s.pages
      → Returns (cl_cp_pgtable k it s) λ _ u.
        (x : ℕ)
        → covered s.pages x ≡ false
        → IsUnlocked (s.memory x) (u.memory x)
          × bit_and (u.memory x) page_mask ≡ bit_and (s.memory x) page_mask
          × u.memory x % 2 ≡ s.memory x % 2
  unfolding cl_cp_pgtable clear_newpgd_addr
  cl_cp_pgtable-unmaps_nothing it s enough =
      Returns-and_then (copy_pagetable-ends k storing s enough) λ a t p. (
        a,
        _,
        refl,
        λ x out.
            let (g, found) = find k.va k.pud_large k.pmd_large a (k.va t.cr3) t.memory it in
            let set : IsUnlocked (s.memory x) (g x) =
              subst (λ w. IsUnlocked w (g x)) (p.0 x out)
                (find-Unlocks k.va k.pud_large k.pmd_large a (k.va t.cr3) t.memory it x) in
            (set, frame-IsUnlocked set, present-IsUnlocked set),
      )

-- ===== src/Paging/Copy/Frame.antt =====
-- The copies of src/SecureVM/copy_pg.h end, and write only into pages that they are given.
use hyper_mi.Base.{
  ℕ, ◌+◌, ◌≤◌, ◌<◌, ◌≡◌, refl, arith, Bool, true, false, ◌||◌, within, Returns, List, [], ◌∷◌,
}
use hyper_mi.Paging.Protect.{at, below}
use hyper_mi.Paging.Store.{Store, PageKernel, for_steps}
use hyper_mi.Paging.Copy.{
  is_invalid, getflag_pgx, link, flush_tlb, copy_pte, copy_pmd, copy_pud, copy_pgd, copy_pagetable,
  copy_pagetable_half, copy_pagetable_half2,
}
use hyper_mi.Paging.Copy.Spec.{
  covered, IsLeft-same, IsStoring, good, IsFreshPage, AllFresh, IsFreshPage-at, Costs, Costs-weaken,
  Costs-then, Costs-pure, Costs-load, Costs-if, Costs-put, Costs-change, Costs-loop, Costs-page,
}

module _ (k : PageKernel) (storing : IsStoring k) (fresh : ℕ → Bool) where
  -- Every entry of the table stands in a fresh word.
  abbrev pub IsFreshTable : ℕ → Type 0
  IsFreshTable new = (i : ℕ) → i < 512 → fresh (at new i) ≡ true

  pub page-IsFreshTable : (a : ℕ) → IsFreshPage fresh a → IsFreshTable a
  page-IsFreshTable a h i low = IsFreshPage-at fresh a i low h

  pub pte-Costs :
      (new old i4 : ℕ) → IsFreshTable new → i4 < 512 → Costs fresh 0 (copy_pte k new old i4)
  unfolding copy_pte
  pte-Costs new old i4 table low =
      Costs-then fresh 0 0 _ _
        (Costs-load fresh 0 (at old i4) _ (λ e. Costs-put fresh (at new i4) e (table i4 low)))
        (Costs-load fresh 0 (at old i4) _ (λ e.
          Costs-change fresh (k.set_pte (at new i4) e) (at new i4) e
            (storing.set_pte_stores (at new i4) e) (table i4 low)))

  pmd-Costs :
      (new old i2 i3 : ℕ)
      → IsFreshTable new
      → i2 < 512
      → i3 < 512
      → Costs fresh 1 (copy_pmd k new old i2 i3)
  unfolding copy_pmd
  pmd-Costs new old i2 i3 table low2 low3 =
      Costs-then fresh 0 1 _ _
        (Costs-then fresh 0 0 _ _
          (Costs-load fresh 0 (at old i3) _ (λ e. Costs-put fresh (at new i3) e (table i3 low3)))
          (Costs-load fresh 0 (at old i3) _ (λ e.
            Costs-change fresh (k.set_pmd (at new i3) e) (at new i3) e
              (storing.set_pmd_stores (at new i3) e) (table i3 low3))))
        (Costs-load fresh 1 (at old i3) _ (λ e.
          Costs-if fresh 1 (is_invalid e) _ _
            (Costs-weaken fresh 0 1 _ (omega arith) (Costs-put fresh (at new i3) 0 (table i3 low3)))
            (Costs-if fresh 1 (k.pmd_large e) _ _
              (Costs-weaken fresh 0 1 _ (omega arith)
                (Costs-put fresh (at new i3) e (table i3 low3)))
              (Costs-page fresh k storing 0 _ (λ a given page.
                let v = link k a (getflag_pgx e) in
                Costs-then fresh 0 0 _ _
                  (Costs-then fresh 0 0 _ _ (Costs-put fresh (at new i3) v (table i3 low3)) (
                    Costs-change fresh (k.set_pmd (at new i2) v) (at new i2) v
                      (storing.set_pmd_stores (at new i2) v) (table i2 low2)))
                  (Costs-load fresh 0 (at old i3) _ (λ d.
                    Costs-loop fresh 0 (copy_pte k a (below k.va d))
                      (λ i low. pte-Costs a (below k.va d) i (page-IsFreshTable a page) low) 512 0
                      (omega arith))))))))

  pub pud-Costs :
      (new old i2 : ℕ) → IsFreshTable new → i2 < 512 → Costs fresh 513 (copy_pud k new old i2)
  unfolding copy_pud
  pud-Costs new old i2 table low =
      Costs-then fresh 0 513 _ _
        (Costs-load fresh 0 (at old i2) _ (λ e.
          Costs-change fresh (k.set_pud (at new i2) e) (at new i2) e
            (storing.set_pud_stores (at new i2) e) (table i2 low)))
        (Costs-load fresh 513 (at old i2) _ (λ e.
          Costs-if fresh 513 (is_invalid e) _ _
            (Costs-weaken fresh 0 513 _ (omega arith) (Costs-pure fresh))
            (Costs-if fresh 513 (k.pud_large e) _ _
              (Costs-weaken fresh 0 513 _ (omega arith)
                (Costs-put fresh (at new i2) e (table i2 low)))
              (Costs-page fresh k storing 512 _ (λ a given page.
                let v = link k a (getflag_pgx e) in
                Costs-then fresh 0 512 _ _
                  (Costs-then fresh 0 0 _ _ (Costs-put fresh (at new i2) v (table i2 low)) (
                    Costs-change fresh (k.set_pud (at new i2) v) (at new i2) v
                      (storing.set_pud_stores (at new i2) v) (table i2 low)))
                  (Costs-load fresh 512 (at old i2) _ (λ d.
                    Costs-loop fresh 1 (copy_pmd k a (below k.va d) i2)
                      (λ i low3.
                        pmd-Costs a (below k.va d) i2 i (page-IsFreshTable a page) low low3)
                      512 0 (omega arith))))))))

  pub pgd-Costs :
      (new old i1 : ℕ) → IsFreshTable new → i1 < 512 → Costs fresh 262657 (copy_pgd k new old i1)
  unfolding copy_pgd
  pgd-Costs new old i1 table low =
      Costs-then fresh 0 262657 _ _
        (Costs-load fresh 0 (at old i1) _ (λ e.
          Costs-change fresh (k.set_pgd (at new i1) e) (at new i1) e
            (storing.set_pgd_stores (at new i1) e) (table i1 low)))
        (Costs-load fresh 262657 (at old i1) _ (λ e.
          Costs-if fresh 262657 (is_invalid e) _ _
            (Costs-weaken fresh 0 262657 _ (omega arith) (Costs-pure fresh))
            (Costs-page fresh k storing 262656 _ (λ a given page.
              let v = link k a (getflag_pgx e) in
              Costs-then fresh 0 262656 _ _
                (Costs-change fresh (k.set_pgd (at new i1) v) (at new i1) v
                  (storing.set_pgd_stores (at new i1) v) (table i1 low))
                (Costs-load fresh 262656 (at old i1) _ (λ d.
                  Costs-loop fresh 513 (copy_pud k a (below k.va d))
                    (λ i low2. pud-Costs a (below k.va d) i (page-IsFreshTable a page) low2) 512 0
                    (omega arith)))))))

  flush_tlb-Costs : Costs fresh 0 flush_tlb
  flush_tlb-Costs s more fresh_pages enough = (
    tt,
    _,
    refl,
    (
      record { memory = λ x h. refl; cr3 = refl; pgd_addr_cp = refl; pages = IsLeft-same s.pages },
      fresh_pages,
      omega arith,
    ),
  )

  -- 256 entries of the top level.
  half-Costs :
      (first new old : ℕ)
      → first + 256 ≤ 512
      → IsFreshTable new
      → Costs fresh 67240192 (for_steps 256 first (copy_pgd k new old))
  half-Costs first new old low table =
      Costs-loop fresh 262657 (copy_pgd k new old) (λ i p. pgd-Costs new old i table p) 256 first
        low

  pub copy_pagetable_half-Costs :
      (new : ℕ) → IsFreshTable new → Costs fresh 67240192 (copy_pagetable_half k new)
  unfolding copy_pagetable_half
  copy_pagetable_half-Costs new table s =
      Costs-then fresh 67240192 0 (for_steps 256 256 (copy_pgd k new (k.va s.cr3))) flush_tlb
        (half-Costs 256 new (k.va s.cr3) (omega arith) table) flush_tlb-Costs s

  pub copy_pagetable_half2-Costs :
      (new : ℕ) → IsFreshTable new → Costs fresh 67240192 (copy_pagetable_half2 k new)
  unfolding copy_pagetable_half2
  copy_pagetable_half2-Costs new table s =
      Costs-then fresh 67240192 0 (for_steps 256 0 (copy_pgd k new (k.va s.cr3))) flush_tlb
        (half-Costs 0 new (k.va s.cr3) (omega arith) table) flush_tlb-Costs s

  pub copy_pagetable-Costs : Costs fresh 67240193 (copy_pagetable k)
  unfolding copy_pagetable
  copy_pagetable-Costs s more fresh_pages enough =
      Costs-page fresh k storing 67240192 _
        (λ a given page t more fresh_rest enough_rest.
          let (v, u, run, p) =
            Costs-then fresh 67240192 0 (for_steps 256 256 (copy_pgd k a (k.va s.cr3))) flush_tlb
              (half-Costs 256 a (k.va s.cr3) (omega arith) (page-IsFreshTable a page))
              flush_tlb-Costs t more fresh_rest enough_rest in
          (a, u, rw run refl, p))
        s more fresh_pages enough

pub AllFresh-covered :
    (fresh : ℕ → Bool) (pages : List ℕ)
    → ((x : ℕ) → covered pages x ≡ true → fresh x ≡ true)
    → AllFresh fresh pages
AllFresh-covered fresh [] h = tt
AllFresh-covered fresh (a ∷ rest) h =
    (λ given x inside. h x (ground arith), AllFresh-covered fresh rest (λ x e. h x (ground arith)))

-- If the kernel's functions store what they are given and 67240193 calls of the allocator will
-- succeed (one for the new table, and one for each entry of 256 tables at each level below), the
-- copy ends. It writes to the pages that the allocator gives it and to no other word of memory.
pub copy_pagetable-ends :
    (k : PageKernel) (storing : IsStoring k) (s : Store)
    → 67240193 ≤ good s.pages
    → Returns
        (copy_pagetable k s)
        λ a u. ((x : ℕ) → covered s.pages x ≡ false → u.memory x ≡ s.memory x) × (u.cr3 ≡ s.cr3)
copy_pagetable-ends k storing s enough =
    let (a, u, run, p) =
      copy_pagetable-Costs k storing (covered s.pages) s 0
        (AllFresh-covered (covered s.pages) s.pages (λ x h. h)) (omega arith) in
    (a, u, run, (p.0.memory, p.0.cr3))

-- If the kernel's functions store what they are given and 67240192 calls of the allocator will
-- succeed, the copies of one half into a table that is there end. They write to that table and to
-- the pages that the allocator gives them, and to no other word.
copy_halves-end :
    (k : PageKernel) (storing : IsStoring k) (new : ℕ) (s : Store)
    → 67240192 ≤ good s.pages
    → Returns (copy_pagetable_half k new s) (λ _ u.
      (x : ℕ) → covered s.pages x ≡ false → within new 4096 x ≡ false → u.memory x ≡ s.memory x)
      × Returns (copy_pagetable_half2 k new s) (λ _ u.
        (x : ℕ) → covered s.pages x ≡ false → within new 4096 x ≡ false → u.memory x ≡ s.memory x)
copy_halves-end k storing new s enough =
    let fresh = λ (x : ℕ). covered s.pages x || within new 4096 x in
    let pages = AllFresh-covered fresh s.pages (λ x h. ground arith) in
    let table : IsFreshTable k storing fresh new = λ i low. ground arith in
    let (v, u, run, p) =
      copy_pagetable_half-Costs k storing fresh new table s 0 pages (omega arith) in
    let (w, t, run2, q) =
      copy_pagetable_half2-Costs k storing fresh new table s 0 pages (omega arith) in
    (
      (v, u, run, λ x out away. p.0.memory x (ground arith)),
      (w, t, run2, λ x out away. q.0.memory x (ground arith)),
    )

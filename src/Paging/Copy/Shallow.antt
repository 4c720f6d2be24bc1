-- ===== src/Paging/Copy/Shallow.antt =====
-- What `update_pagetable` of src/SecureVM/copy_pg.h does.
use hyper_mi.Base.{
  ℕ, zero, suc, ◌+◌, ◌≤◌, ◌<◌, ◌≡◌, ◌≢◌, inl, inr, refl, sym, ◌∙◌, arith, Bool, true, ◌==◌,
  if◌then◌else◌, Bool-cases, ==_refl, ==_of_ne, update, Cmd, ok, Returns, ◌∷◌,
}
use hyper_mi.Paging.Loop.{Memory, for_each}
use hyper_mi.Paging.Protect.{at}
use hyper_mi.Paging.Store.{Store, PageKernel, for_steps, flushed_tlb}
use hyper_mi.Paging.Copy.{is_invalid}
use hyper_mi.Paging.Copy.Update.{skipped, update_pgd, update_pagetable}

-- One entry of the top level is copied.
abbrev pub copy_word : ℕ → ℕ → ℕ → Memory → Memory
copy_word new old i f = update f (at new i) (f (at old i))

pub for_steps-for_each :
    (body : ℕ → Cmd Store (Unit {0})) (g : ℕ → Memory → Memory)
    → ((i : ℕ) (s : Store) → body i s ≡ ok tt (record s { memory = g i s.memory }))
    → (n first : ℕ) (s : Store)
    → for_steps n first body s ≡ ok tt (record s { memory = for_each n first g s.memory })
unfolding for_steps for_each
for_steps-for_each body g same zero first s = refl
for_steps-for_each body g same (suc n) first s =
    rw (same first s)
      (for_steps-for_each body g same n (first + 1) (record s { memory = g first s.memory }))

skipped-same : (e c : ℕ) → c ≡ e → skipped e c ≡ true
skipped-same e c same =
    rw same (elim (Bool-cases (is_invalid e)) [ inl bad ↦ rw bad | inr good ↦ rw good ])

-- The word read again after it was copied, also where it was copied onto itself.
read_back : (f : Memory) (a b : ℕ) → update f a (f b) b ≡ f b
read_back f a b = ground arith

first_branch :
    {b : Bool} → b ≡ true → (x y : Cmd Store (Unit {0})) (s : Store) → (if b then x else y) s ≡ x s
first_branch e x y s = rw e

module _ (k : PageKernel) (stores : (a v : ℕ) (f : Memory) → k.set_pgd a v f ≡ update f a v)
    (cp_new_pg : ℕ) where
  update_pgd-copy_word :
      (old i : ℕ) (s : Store)
      → update_pgd k cp_new_pg old i s
        ≡ ok tt (record s { memory = copy_word cp_new_pg old i s.memory })
  unfolding update_pgd
  update_pgd-copy_word old i s =
      let now = read_back s.memory (at cp_new_pg i) (at old i) in
      rw (stores (at cp_new_pg i) (s.memory (at old i)) s.memory) (
        first_branch
          (skipped-same (update s.memory (at cp_new_pg i) (s.memory (at old i)) (at old i))
            (update s.memory (at cp_new_pg i) (s.memory (at old i)) (at cp_new_pg i))
            (rw (==_refl (at cp_new_pg i)) (sym now)))
          _ _ _)

  -- If the kernel's set_pgd stores what it is given, the update skips every entry, since it has
  -- just copied it: it is the loop that copies the 256 words of the kernel's half of the top table
  -- and then flushes the TLB, and never asks for a page. The two tables may overlap.
  pub update_pagetable-copy_word :
      (s : Store)
      → update_pagetable k cp_new_pg s
        ≡ ok tt (record s {
          memory = for_each 256 256 (copy_word cp_new_pg (k.va s.cr3)) s.memory;
          trace = flushed_tlb ∷ s.trace;
        })
  unfolding update_pagetable
  update_pagetable-copy_word s = rw (
      for_steps-for_each (update_pgd k cp_new_pg (k.va s.cr3)) (copy_word cp_new_pg (k.va s.cr3))
        (update_pgd-copy_word (k.va s.cr3)) 256 256 s)

module _ (new old : ℕ) where
  untouched :
      (n first : ℕ) (f : Memory) (x : ℕ)
      → ((i : ℕ) → first ≤ i → i < first + n → x ≢ at new i)
      → for_each n first (copy_word new old) f x ≡ f x
  unfolding for_each
  untouched zero first f x out = refl
  untouched (suc n) first f x out =
      untouched n (first + 1) (copy_word new old first f) x
        (λ i low high. out i (omega arith) (omega arith))
      ∙ rw (==_of_ne x (at new first) (out first (omega arith) (omega arith)))

  copied :
      (n first j : ℕ) (f : Memory)
      → ((i : ℕ) → first ≤ i → i < first + n → at old j ≢ at new i)
      → first ≤ j
      → j < first + n
      → for_each n first (copy_word new old) f (at new j) ≡ f (at old j)
  unfolding for_each
  copied zero first j f apart low high = absurd (omega arith)
  copied (suc n) first j f apart low high =
      let g = copy_word new old first f in
      elim (Bool-cases (j == first)) [
        | inl now ↦
            let e : j ≡ first = ground arith in
            untouched n (first + 1) g (at new j) (λ i p q same. absurd (omega arith))
            ∙ rw (e, ==_refl (at new first))
        | inr later ↦
            copied n (first + 1) j g (λ i p q. apart i (omega arith) (omega arith)) (ground arith)
              (omega arith)
            ∙ rw (==_of_ne (at old j) (at new first) (apart first (omega arith) (omega arith)))
      ]

-- If the kernel's set_pgd stores what it is given, and the top table that cr3 holds and the new one
-- share no word, then after the update every entry of the kernel's half is that of the old table,
-- every other word is as before, and no page has been asked for.
update_pagetable-copies :
    (k : PageKernel)
    → ((a v : ℕ) (f : Memory) → k.set_pgd a v f ≡ update f a v)
    → (cp_new_pg : ℕ) (s : Store)
    → ((i j : ℕ) → i < 512 → j < 512 → at (k.va s.cr3) j ≢ at cp_new_pg i)
    → Returns (update_pagetable k cp_new_pg s) λ _ u.
      ((i : ℕ) → 256 ≤ i → i < 512 → u.memory (at cp_new_pg i) ≡ s.memory (at (k.va s.cr3) i))
      × ((x : ℕ) → ((i : ℕ) → 256 ≤ i → i < 512 → x ≢ at cp_new_pg i) → u.memory x ≡ s.memory x)
      × (u.pages ≡ s.pages)
update_pagetable-copies k stores cp_new_pg s apart =
    rw (update_pagetable-copy_word k stores cp_new_pg s) (
      tt,
      _,
      refl,
      (
        λ i low high.
            copied cp_new_pg (k.va s.cr3) 256 256 i s.memory (λ j p q. apart j i (omega arith) high)
              low (omega arith),
        λ x out.
            untouched cp_new_pg (k.va s.cr3) 256 256 s.memory x (λ i p q. out i p (omega arith)),
        refl,
      ),
    )

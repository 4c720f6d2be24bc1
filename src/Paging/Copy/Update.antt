-- ===== src/Paging/Copy/Update.antt =====
-- `update_pagetable` of src/SecureVM/copy_pg.h: as the copy of the kernel's half, but an entry is
-- skipped where it is invalid, or valid in the new table too.
use hyper_mi.Base.{ℕ, Bool, not, ◌&&◌, ◌||◌, if◌then◌else◌, Cmd, pure, ◌>>◌, ◌>>=◌}
use hyper_mi.Paging.Protect.{at, below}
use hyper_mi.Paging.Store.{Store, PageKernel, change, load, put_word, take_page, for_steps}
use hyper_mi.Paging.Copy.{is_invalid, getflag_pgx, flush_tlb, link, copy_pte}

abbrev pub skipped : ℕ → ℕ → Bool
skipped old new = is_invalid old || (not (is_invalid old) && not (is_invalid new))

module _ (k : PageKernel) where
  -- `top` is where the new entry of the top level stands: the lower levels test that one too.
  unfoldable pub update_pmd : ℕ → ℕ → ℕ → ℕ → ℕ → Cmd Store (Unit {0})
  unfolding copy_pte
  update_pmd top new old i2 i3 =
      (load (at old i3) >>= λ e. put_word (at new i3) e)
      >> (load (at old i3) >>= λ e. change (k.set_pmd (at new i3) e))
      >> (load (at old i3) >>= λ e. load top >>= λ c.
          if skipped e c
          then put_word (at new i3) 0
          else (if k.pmd_large e
              then put_word (at new i3) e
              else (take_page k >>= λ a.
                  put_word (at new i3) (link k a (getflag_pgx e))
                  >> change (k.set_pmd (at new i2) (link k a (getflag_pgx e)))
                  >> (load (at old i3) >>= λ d. for_steps 512 0 (copy_pte k a (below k.va d))))))

  unfoldable pub update_pud : ℕ → ℕ → ℕ → ℕ → Cmd Store (Unit {0})
  unfolding update_pmd
  update_pud top new old i2 =
      (load (at old i2) >>= λ e. change (k.set_pud (at new i2) e))
      >> (load (at old i2) >>= λ e. load top >>= λ c.
          if skipped e c
          then pure tt
          else (if k.pud_large e
              then put_word (at new i2) e
              else (take_page k >>= λ a.
                  put_word (at new i2) (link k a (getflag_pgx e))
                  >> change (k.set_pud (at new i2) (link k a (getflag_pgx e)))
                  >> (load (at old i2) >>= λ d.
                      for_steps 512 0 (update_pmd top a (below k.va d) i2)))))

  unfoldable pub update_pgd : ℕ → ℕ → ℕ → Cmd Store (Unit {0})
  unfolding update_pud
  update_pgd new old i1 =
      (load (at old i1) >>= λ e. change (k.set_pgd (at new i1) e))
      >> (load (at old i1) >>= λ e. load (at new i1) >>= λ c.
          if skipped e c
          then pure tt
          else (take_page k >>= λ a.
              change (k.set_pgd (at new i1) (link k a (getflag_pgx e)))
              >> (load (at old i1) >>= λ d.
                  for_steps 512 0 (update_pud (at new i1) a (below k.va d)))))

  unfoldable pub update_pagetable : ℕ → Cmd Store (Unit {0})
  unfolding update_pgd
  update_pagetable cp_new_pg s =
      (for_steps 256 256 (update_pgd cp_new_pg (k.va s.cr3)) >> flush_tlb) s

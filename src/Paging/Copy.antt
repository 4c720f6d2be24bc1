-- ===== src/Paging/Copy.antt =====
-- src/SecureVM/copy_pg.h: copies of the page table that cr3 holds. A function of a level copies one
-- entry, and what lies below it, from a table of the old page table to one of the new.
pub mod Update
pub mod Shallow
pub mod Spec
pub mod Frame
pub mod Drawn
pub mod Turn
pub mod Turns
pub mod Top
pub mod Clobber
pub mod Count
mod Tests
use hyper_mi.Base.{
  ℕ, ◌+◌, ◌*◌, ◌/◌, ◌^◌, Bool, ◌&&◌, ◌||◌, bit_and, bit_or, ◌==◌, if◌then◌else◌, update, Cmd, ok,
  pure, modify, ◌>>◌, ◌>>=◌, ◌∷◌,
}
use hyper_mi.Base.Page.{page_mask}
use hyper_mi.Paging.Loop.{Memory}
use hyper_mi.Paging.Protect.{at, below}
use hyper_mi.Paging.Find.{Pt, find}
use hyper_mi.Paging.Store.{
  Store, PageKernel, change, load, put_word, take_page, for_steps, flushed_tlb,
}

abbrev pub is_invalid : ℕ → Bool
is_invalid addr = bit_and addr page_mask == 0

-- A `pte_t` is its word.
abbrev unlong2pte : ℕ → ℕ
unlong2pte a = a

abbrev pub getflag_pgx : ℕ → ℕ
getflag_pgx addr = bit_and addr 0xfc00000000000fff

abbrev pub flush_tlb : Cmd Store (Unit {0})
flush_tlb = modify (λ s. record s { trace = flushed_tlb ∷ s.trace })

module _ (k : PageKernel) where
  -- An entry for the page `a` with these flags.
  abbrev pub link : ℕ → ℕ → ℕ
  link a flags = bit_or (k.pa (a / 2 ^ 12 * 2 ^ 12)) flags

  unfoldable pub copy_pte : ℕ → ℕ → ℕ → Cmd Store (Unit {0})
  copy_pte new old i4 =
      (load (at old i4) >>= λ e. put_word (at new i4) e)
      >> (load (at old i4) >>= λ e. change (k.set_pte (at new i4) e))

  -- The new entry is set at `i3`, and once more at `i2`.
  unfoldable pub copy_pmd : ℕ → ℕ → ℕ → ℕ → Cmd Store (Unit {0})
  unfolding copy_pte
  copy_pmd new old i2 i3 =
      (load (at old i3) >>= λ e. put_word (at new i3) e)
      >> (load (at old i3) >>= λ e. change (k.set_pmd (at new i3) e))
      >> (load (at old i3) >>= λ e.
          if is_invalid e
          then put_word (at new i3) 0
          else (if k.pmd_large e
              then put_word (at new i3) e
              else (take_page k >>= λ a.
                  put_word (at new i3) (link a (getflag_pgx e))
                  >> change (k.set_pmd (at new i2) (link a (getflag_pgx e)))
                  >> (load (at old i3) >>= λ d. for_steps 512 0 (copy_pte a (below k.va d))))))

  unfoldable pub copy_pud : ℕ → ℕ → ℕ → Cmd Store (Unit {0})
  unfolding copy_pmd
  copy_pud new old i2 =
      (load (at old i2) >>= λ e. change (k.set_pud (at new i2) e))
      >> (load (at old i2) >>= λ e.
          if is_invalid e
          then pure tt
          else (if k.pud_large e
              then put_word (at new i2) e
              else (take_page k >>= λ a.
                  put_word (at new i2) (link a (getflag_pgx e))
                  >> change (k.set_pud (at new i2) (link a (getflag_pgx e)))
                  >> (load (at old i2) >>= λ d. for_steps 512 0 (copy_pmd a (below k.va d) i2)))))

  unfoldable pub copy_pgd : ℕ → ℕ → ℕ → Cmd Store (Unit {0})
  unfolding copy_pud
  copy_pgd new old i1 =
      (load (at old i1) >>= λ e. change (k.set_pgd (at new i1) e))
      >> (load (at old i1) >>= λ e.
          if is_invalid e
          then pure tt
          else (take_page k >>= λ a.
              change (k.set_pgd (at new i1) (link a (getflag_pgx e)))
              >> (load (at old i1) >>= λ d. for_steps 512 0 (copy_pud a (below k.va d)))))

  -- The kernel's half of the table is copied into a new page.
  unfoldable pub copy_pagetable : Cmd Store ℕ
  unfolding copy_pgd
  copy_pagetable s =
      (take_page k >>= λ a. for_steps 256 256 (copy_pgd a (k.va s.cr3)) >> flush_tlb >> pure a) s

  -- The same into a page that there is; `copy_pagetable_half2` copies the user's half.
  unfoldable pub copy_pagetable_half : ℕ → Cmd Store (Unit {0})
  unfolding copy_pgd
  copy_pagetable_half cp_new_pg s =
      (for_steps 256 256 (copy_pgd cp_new_pg (k.va s.cr3)) >> flush_tlb) s

  unfoldable pub copy_pagetable_half2 : ℕ → Cmd Store (Unit {0})
  unfolding copy_pgd
  copy_pagetable_half2 cp_new_pg s =
      (for_steps 256 0 (copy_pgd cp_new_pg (k.va s.cr3)) >> flush_tlb) s

  unfoldable pub cp_old_pg_half : ℕ → Cmd Store (Unit {0})
  unfolding copy_pagetable_half
  cp_old_pg_half to_cp_addr = copy_pagetable_half to_cp_addr

  unfoldable pub update_pagetable2 : ℕ → Cmd Store (Unit {0})
  unfolding copy_pagetable_half2
  update_pagetable2 cp_new_pg = copy_pagetable_half2 cp_new_pg

  -- `find` fills a struct of its own; the entry cleared is the copy in that struct.
  unfoldable pub clear_newpgd_addr : Pt → ℕ → Cmd Store (Unit {0})
  unfolding find
  clear_newpgd_addr it pgd s =
      let (f, found) = find k.va k.pud_large k.pmd_large pgd (k.va s.cr3) s.memory it in
      ok tt (record s { memory = f })

  unfoldable pub cl_cp_pgtable : Pt → Cmd Store ℕ
  unfolding copy_pagetable clear_newpgd_addr
  cl_cp_pgtable it = copy_pagetable >>= λ pgd_new. clear_newpgd_addr it pgd_new >> pure pgd_new

  unfoldable pub set_pgd_cp : Pt → Cmd Store (Unit {0})
  unfolding cl_cp_pgtable
  set_pgd_cp it = cl_cp_pgtable it >>= λ a. modify (λ s. record s { pgd_addr_cp = a })

unfoldable pub get_pgd_cp : Cmd Store ℕ
get_pgd_cp s = ok s.pgd_addr_cp s

-- ===== src/Paging/Store.antt =====
-- What the copies of src/SecureVM/copy_pg.h work on: memory, cr3, and the allocator of pages.
use hyper_mi.Base.{
  ℕ, zero, suc, ◌+◌, Bool, List, [], ◌∷◌, ◌==◌, if◌then◌else◌, update, Cmd, ok, starved, pure,
  modify, ◌>>◌,
}
use hyper_mi.Paging.Loop.{Memory}

pub data Happening : Type 0 where
  flushed_tlb : Happening
  page_is_null : Happening
  count_printed : (count : ℕ) → Happening

-- `pages` holds what the coming calls of get_zeroed_page return, the next one first, 0 for a
-- failure; `trace` what was printed or flushed, the last first.
pub record Store : Type 0 where
  pub memory : Memory
  pub cr3 : ℕ
  pub pages : List ℕ
  pub pgd_addr_cp : ℕ
  pub trace : List Happening

-- What the copies use of the kernel: the two address maps, the tests of large entries, the four
-- functions that set an entry at an address, and what get_zeroed_page does to a page that it gives.
pub record PageKernel : Type 0 where
  pub pa : ℕ → ℕ
  pub va : ℕ → ℕ
  pub pud_large : ℕ → Bool
  pub pmd_large : ℕ → Bool
  pub set_pgd : ℕ → ℕ → Memory → Memory
  pub set_pud : ℕ → ℕ → Memory → Memory
  pub set_pmd : ℕ → ℕ → Memory → Memory
  pub set_pte : ℕ → ℕ → Memory → Memory
  pub clear_page : ℕ → Memory → Memory

abbrev pub change : (Memory → Memory) → Cmd Store (Unit {0})
change g = modify (λ s. record s { memory = g s.memory })

abbrev pub load : ℕ → Cmd Store ℕ
load a s = ok (s.memory a) s

-- `*a = v`.
abbrev pub put_word : ℕ → ℕ → Cmd Store (Unit {0})
put_word a v = change (λ f. update f a v)

-- `a = get_zeroed_page(…); while (!a) { a = get_zeroed_page(…); printk(…); }`.
unfoldable pub draw_page : (ℕ → Memory → Memory) → List ℕ → Cmd Store ℕ
draw_page clear [] s = starved
draw_page clear (a ∷ rest) s =
    let again = draw_page clear rest (record s { trace = page_is_null ∷ s.trace }) in
    let given = ok a (record s { memory = clear a s.memory; pages = rest }) in
    if a == 0 then again else given

abbrev pub take_page : PageKernel → Cmd Store ℕ
take_page k s = draw_page k.clear_page s.pages s

-- `for (i = first; i < first + n; i++) body`.
unfoldable pub for_steps : ℕ → ℕ → (ℕ → Cmd Store (Unit {0})) → Cmd Store (Unit {0})
for_steps zero first body = pure tt
for_steps (suc n) first body = body first >> for_steps n (first + 1) body

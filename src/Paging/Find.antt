-- ===== src/Paging/Find.antt =====
-- `find` of src/SecureVM/find.h: the walk from the top table to the word at an address, which
-- fills a `struct pt` of src/SecureVM/struct_pt.h. It returns 0 on every path.
use hyper_mi.Base.{ℕ, ◌+◌, ◌*◌, ◌/◌, ◌^◌, Bool, bit_and, bit_xor, ◌==◌, if◌then◌else◌, update}
use hyper_mi.Base.Page.{page_rw, page_mask}
use hyper_mi.Paging.Loop.{Memory}
use hyper_mi.Paging.Protect.{at, below, unlock}

pub record Pt : Type 0 where
  pub addr : ℕ
  pub level : ℕ
  pub pgd : ℕ
  pub pud : ℕ
  pub pmd : ℕ
  pub pte : ℕ
  pub index_pgd : ℕ
  pub index_pud : ℕ
  pub index_pmd : ℕ
  pub index_pte : ℕ
  pub index_offset : ℕ
  pub value : ℕ
  pub flag_valid : ℕ
  pub pgd_addr : ℕ
  pub pud_addr : ℕ
  pub pmd_addr : ℕ
  pub pte_addr : ℕ

unfoldable pub indices : ℕ → Pt → Pt
indices address it = record it {
  index_pgd = bit_and address 0x0000ff8000000000 / 2 ^ 39;
  index_pud = bit_and address 0x0000007fc0000000 / 2 ^ 30;
  index_pmd = bit_and address 0x000000003fe00000 / 2 ^ 21;
  index_pte = bit_and address 0x00000000001ff000 / 2 ^ 12;
  index_offset = bit_and address 0x0000000000000fff;
  addr = address;
}

abbrev pub invalid : Pt → Pt
invalid it = record it { flag_valid = 0 }

-- `e ^= _PAGE_RW; e ^= _PAGE_RW`.
unfoldable pub toggle_twice : ℕ → Memory → Memory
toggle_twice a f = let g = update f a (bit_xor (f a) page_rw) in update g a (bit_xor (g a) page_rw)

module _ (va : ℕ → ℕ) where
  unfoldable pub find_pte : ℕ → Memory → Pt → Memory × Pt
  unfolding toggle_twice unlock
  find_pte pte1 f it =
      let place = at pte1 it.index_pte in
      let g = toggle_twice place (unlock place f) in
      if bit_and (g place) page_mask == 0 then (g, invalid it) else (
        g,
        record it {
          pte = g place;
          pte_addr = place;
          level = 1;
          value = g (below va (g place) + 8 * (it.index_offset / 8));
          flag_valid = 1;
        },
      )

  module _ (pud_large pmd_large : ℕ → Bool) where
    unfoldable pub find_pmd : ℕ → Memory → Pt → Memory × Pt
    unfolding find_pte toggle_twice unlock
    find_pmd pmd f it =
        let place = at pmd it.index_pmd in
        let g = unlock place f in
        let found = record it { pmd = f place; pmd_addr = place; level = 2 } in
        if bit_and (f place) page_mask == 0
        then (f, invalid it)
        else if pmd_large (g place)
        then (
          toggle_twice place g,
          record found {
            value = g (below va (g place) + it.index_pte * 2 ^ 12 + it.index_offset);
            flag_valid = 1;
          },
        )
        else find_pte (below va (g place)) g found

    unfoldable pub find_pud : ℕ → Memory → Pt → Memory × Pt
    unfolding find_pmd unlock
    find_pud pud f it =
        let place = at pud it.index_pud in
        let g = unlock place f in
        let found = record it { pud = g place; pud_addr = place; level = 3 } in
        if bit_and (f place) page_mask == 0
        then (f, invalid it)
        else if pud_large (g place)
        then (
          g,
          record found {
            value = g (
                below va (g place)
                + it.index_pte * 2 ^ 12
                + it.index_offset
                + it.index_pmd * 2 ^ 21);
            flag_valid = 1;
          },
        )
        else find_pmd (below va (f place)) g found

    unfoldable pub find : ℕ → ℕ → Memory → Pt → Memory × Pt
    unfolding indices find_pud unlock
    find address current_pgd f old =
        let it = indices address old in
        let place = at current_pgd it.index_pgd in
        if bit_and (f place) page_mask == 0
        then (f, invalid it)
        else find_pud (below va (f place)) (unlock place f)
            (record it { pgd = f place; pgd_addr = place; level = 4 })

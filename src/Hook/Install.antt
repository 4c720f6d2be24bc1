-- ===== src/Hook/Install.antt =====
-- src/SecureVM/set_hook.h: page protection of kernel text, and the installation of one hook.
-- `lookup_address` of the kernel gives the address of the page-table entry that maps an address,
-- 0 where there is none; it stands for the page tables at the time of the call.
pub mod Closed
use hyper_mi.Base.{
  ℕ, zero, suc, ◌+◌, ◌/◌, ◌%◌, ◌≡◌, Bool, List, [], ◌∷◌, bit_and, bit_or, bit_xor, ◌==◌,
  if◌then◌else◌, update, read, length, Cmd, fault, ok, pure, modify, ◌>>◌, ◌>>=◌,
}
use hyper_mi.Base.Page.{page_rw}
use hyper_mi.Hook.Data.{Site, same_site, Kernel}

abbrev pub put_site {ℓ} : {A : Type ℓ} → (Site → A) → Site → A → Site → A
put_site f s v t = if same_site s t then v else f t

-- Little-endian bytes, as a pointer is laid out in memory.
unfoldable pub bytes_of : ℕ → ℕ → List ℕ
bytes_of zero n = []
bytes_of (suc k) n = (n % 256) ∷ bytes_of k (n / 256)

abbrev pub set : List ℕ → ℕ → ℕ → List ℕ
set [] i v = []
set (x ∷ xs) zero v = v ∷ xs
set (x ∷ xs) (suc i) v = x ∷ set xs i v

-- `memcpy(array + i, vs, …)`.
unfoldable pub splice : List ℕ → ℕ → List ℕ → List ℕ
splice xs i [] = xs
splice xs i (v ∷ vs) = splice (set xs i v) (i + 1) vs

-- `movq $0x0, %rax; jmpq *%rax`, before and after the target is filled in.
abbrev pub machine_code : List ℕ
machine_code = 0x48 ∷ 0xb8 ∷ 0 ∷ 0 ∷ 0 ∷ 0 ∷ 0 ∷ 0 ∷ 0 ∷ 0 ∷ 0xff ∷ 0xe0 ∷ []

unfoldable pub jump_to : ℕ → List ℕ
unfolding splice bytes_of
jump_to mock_func = splice machine_code 2 (bytes_of 8 mock_func)

abbrev pub short_code : List ℕ
short_code = 0xff ∷ 0 ∷ 0 ∷ 0 ∷ 0 ∷ 0 ∷ 0 ∷ 0 ∷ 0 ∷ []

unfoldable pub short_jump_to : ℕ → List ℕ
unfolding splice bytes_of
short_jump_to mock_func = splice short_code 1 (bytes_of 8 mock_func)

module _ (lookup_address : ℕ → ℕ) where
  unfoldable pub make_rw : ℕ → Cmd Kernel (Unit {0})
  make_rw address k =
      let pte = lookup_address address in
      if pte == 0
      then fault
      else ok tt (record k { entry = update k.entry pte (bit_or (k.entry pte) page_rw) })

  unfoldable pub make_no_rw : ℕ → Cmd Kernel (Unit {0})
  make_no_rw address k =
      let pte = lookup_address address in
      let new = bit_xor (k.entry pte) page_rw in
      if pte == 0
      then fault
      else ok tt (record k { entry = update k.entry pte new; log = new ∷ k.log })

  unfoldable pub make_invalid_addr : ℕ → Cmd Kernel (Unit {0})
  make_invalid_addr address k =
      let pte = lookup_address address in
      if pte == 0
      then fault
      else ok tt (record k { entry = update k.entry pte (bit_and (k.entry pte) 0) })

  unfoldable pub find_make_invalid_addr : ℕ → Cmd Kernel (Unit {0})
  find_make_invalid_addr address k =
      let pte = lookup_address address in
      if pte == 0 then fault else ok tt (record k { log = k.entry pte ∷ k.log })

  -- A store to kernel text: the processor refuses it where lookup_address finds no entry, or one
  -- with a clear R/W bit. Kernel text is present at every level, and the levels above are writable.
  abbrev pub writable : Kernel → ℕ → Bool
  writable k a =
      let pte = lookup_address a in
      if pte == 0 then Bool.false else bit_and (k.entry pte) page_rw == page_rw

  unfoldable pub store_bytes : ℕ → List ℕ → Cmd Kernel (Unit {0})
  store_bytes a [] k = ok tt k
  store_bytes a (v ∷ vs) k =
      let rest = store_bytes (a + 1) vs (record k { text = update k.text a v }) in
      if writable k a then rest else fault

  -- The body that the functions `set_hook_X` share: `mem_X` and `orig_code_X` are those of `s`.
  unfoldable pub hook_with : List ℕ → Site → ℕ → Cmd Kernel (Unit {0})
  unfolding make_rw store_bytes
  hook_with code s to_mock_func =
      modify (λ k. record k { mem = put_site k.mem s to_mock_func })
      >> make_rw to_mock_func
      >> modify (λ k. record k { orig_code = put_site k.orig_code s (read k.text (k.mem s) 12) })
      >> λ k. store_bytes (k.mem s) code k

  unfoldable pub set_hook_at : Site → ℕ → ℕ → Cmd Kernel (Unit {0})
  unfolding hook_with jump_to
  set_hook_at s to_mock_func mock_func = hook_with (jump_to mock_func) s to_mock_func

  unfoldable pub set_hook : ℕ → ℕ → Cmd Kernel (Unit {0})
  unfolding set_hook_at
  set_hook to_mock_func mock_func = set_hook_at Site.plain to_mock_func mock_func

  -- Nine bytes are written, of an instruction that the source leaves incomplete; twelve are saved.
  unfoldable pub set_hook_cr31 : ℕ → ℕ → Cmd Kernel (Unit {0})
  unfolding hook_with short_jump_to
  set_hook_cr31 to_mock_func mock_func = hook_with (short_jump_to mock_func) Site.cr3 to_mock_func

  unfoldable pub set_hook_pte1 : ℕ → ℕ → Cmd Kernel (Unit {0})
  unfolding hook_with short_jump_to
  set_hook_pte1 to_mock_func mock_func = hook_with (short_jump_to mock_func) Site.pte to_mock_func

  unfoldable pub set_hook_cr3 : ℕ → ℕ → Cmd Kernel (Unit {0})
  unfolding set_hook_at
  set_hook_cr3 to_mock_func mock_func = set_hook_at Site.cr3 to_mock_func mock_func

  unfoldable pub set_hook_pte : ℕ → ℕ → Cmd Kernel (Unit {0})
  unfolding set_hook_at
  set_hook_pte to_mock_func mock_func = set_hook_at Site.pte to_mock_func mock_func

  unfoldable pub set_hook_pmd : ℕ → ℕ → Cmd Kernel (Unit {0})
  unfolding set_hook_at
  set_hook_pmd to_mock_func mock_func = set_hook_at Site.pmd to_mock_func mock_func

  unfoldable pub set_hook_pagefault : ℕ → ℕ → Cmd Kernel (Unit {0})
  unfolding set_hook_at
  set_hook_pagefault to_mock_func mock_func = set_hook_at Site.pagefault to_mock_func mock_func

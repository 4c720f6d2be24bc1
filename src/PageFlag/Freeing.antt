-- ===== src/PageFlag/Freeing.antt =====
-- Freed and ballooned pages: what becomes of the entry, and where the access is out of range.
use hyper_mi.Base.{
  ℕ, ◌^◌, ◌<◌, ◌≡◌, refl, arith, ◌==◌, Bool-cases, inl, inr, fault, pure, ◌>>◌, Returns,
}
use hyper_mi.PageFlag.Table.{PageFlag, Table, Host, slot}
use hyper_mi.PageFlag.Map.{set_owner}
use hyper_mi.PageFlag.Free.{new_clean_page_modify, new_inflate_page_modify, new_deflate_page_modify}
use hyper_mi.PageFlag.Access.{
  IsFrame, put, load_flag-ok, store_flag-ok, set_owner-ok, load_flag-fault, set_owner-fault,
}
use hyper_mi.PageFlag.Mapping.{Only}

module _ (host : Host) (page : ℕ) (t : Table) where
  abbrev pub frame : ℕ
  frame = host.page_to_pfn page

  abbrev pub old : PageFlag
  old = t.pageflag (slot frame)

  module _ (h : IsFrame frame) where
    -- Freeing a page of the table returns 0 and clears its entry, owner and flags; every other
    -- entry stays.
    pub new_clean_page_modify_lem :
        Returns
          (new_clean_page_modify host page t)
          λ r u. (r ≡ 0) × Only host frame t (record { owner = 0; flag = 0 }) u
    unfolding new_clean_page_modify
    new_clean_page_modify_lem =
        let e = record old { flag = 0 } in
        rw
          (
            load_flag-ok frame t h,
            store_flag-ok frame t h e,
            set_owner-ok frame (put t frame e) h 0,
          )
          (0, put (put t frame e) frame _, refl, (refl, λ i. ground arith))

    balloon_tail :
        (u : Table)
        → u.pageflag ≡ t.pageflag
        → Returns {A = ℕ}
            ((set_owner frame 0 >> pure 0) u)
            λ r v. (r ≡ 0) × Only host frame t (record { owner = 0; flag = old.flag }) v
    balloon_tail u e =
        rw (set_owner-ok frame u h 0) (0, put u frame _, refl, (refl, λ i. rw e (ground arith)))

    -- A page that the balloon takes loses its owner and keeps its flags, so also the used bit;
    -- every other entry stays.
    pub new_inflate_page_modify_lem :
        Returns
          (new_inflate_page_modify host page t)
          λ r u. (r ≡ 0) × Only host frame t (record { owner = 0; flag = old.flag }) u
    unfolding new_inflate_page_modify
    new_inflate_page_modify_lem = elim (Bool-cases (t.balloon_inflate_mark == 0)) [
      | inl first ↦ rw (first, load_flag-ok frame t h) (balloon_tail _ refl)
      | inr later ↦ rw later (balloon_tail t refl)
    ]

    -- A page that the balloon gives back loses its owner and keeps its flags, as one that it takes
    -- does; every other entry stays.
    pub new_deflate_page_modify_lem :
        Returns
          (new_deflate_page_modify host page t)
          λ r u. (r ≡ 0) × Only host frame t (record { owner = 0; flag = old.flag }) u
    unfolding new_deflate_page_modify
    new_deflate_page_modify_lem = elim (Bool-cases (t.balloon_deflate_mark == 0)) [
      | inl first ↦ rw (first, load_flag-ok frame t h) (balloon_tail _ refl)
      | inr later ↦ rw later (balloon_tail t refl)
    ]

  -- The three handlers make no range check: for a frame number that is 0 or above Num_pfn2 each of
  -- them accesses the array out of bounds.
  pub free_handlers-fault :
      frame < 2 ^ 64
      → ¬ IsFrame frame
      → (new_clean_page_modify host page t ≡ fault)
        × (new_inflate_page_modify host page t ≡ fault)
        × (new_deflate_page_modify host page t ≡ fault)
  unfolding new_clean_page_modify new_inflate_page_modify new_deflate_page_modify
  free_handlers-fault small out =
      let none_at = λ (u : Table). load_flag-fault frame u small out in
      let owner_at = λ (u : Table). set_owner-fault frame u small out 0 in
      (
        rw (none_at t),
        elim (Bool-cases (t.balloon_inflate_mark == 0)) [
          | inl first ↦ rw (first, none_at t)
          | inr later ↦ rw (later, owner_at t)
        ],
        elim (Bool-cases (t.balloon_deflate_mark == 0)) [
          | inl first ↦ rw (first, none_at t)
          | inr later ↦ rw (later, owner_at t)
        ],
      )

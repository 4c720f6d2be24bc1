-- ===== src/PageFlag/Mapping.antt =====
-- The handlers of src/SecureVM/gate_function.h that run when a frame is mapped into a VM.
use hyper_mi.Base.{
  ℕ, ◌+◌, ◌%◌, ◌^◌, ◌≤◌, ◌≡◌, ◌∷◌, refl, ap, sym, ◌∙◌, arith, true, false, ◌&&◌, bit_or, ◌==◌,
  if◌then◌else◌, Bool-cases, inl, inr, ok, pure, Returns, Returns-and_then,
}
use hyper_mi.PageFlag.Table.{PageFlag, Table, Host, slot, tracking_banner}
use hyper_mi.PageFlag.Map.{
  in_table, mark_shared, verdict, show_mapping, new_handle_pfn_map, new_handle_pfn_modify,
}
use hyper_mi.PageFlag.Release.{new_clean_page_modify1}
use hyper_mi.PageFlag.Release.Ends.{large, new_clean_page_modify1-ends}
use hyper_mi.PageFlag.Access.{IsFrame, put, load_flag-ok, set_flag-ok, set_owner-ok}

module _ (host : Host) (pfn : ℕ) where
  pub in_table-true : IsFrame pfn → in_table pfn ≡ true
  in_table-true h = ground arith

  pub in_table-false : ¬ IsFrame pfn → in_table pfn ≡ false
  in_table-false h = ground arith

  -- The flag once KSM has been asked about the page.
  abbrev pub asked : ℕ → ℕ
  asked flag = if host.page_ksm (host.pfn_to_page pfn) then bit_or flag 0x01 else flag

  abbrev pub entry : Table → PageFlag
  entry t = t.pageflag (slot pfn)

  -- The entry of `pfn` is `e`, and every other entry is that of `t`.
  abbrev pub Only : Table → PageFlag → Table → Type 0
  Only t e u = (i : ℕ) → u.pageflag i ≡ (if i == slot pfn then e else t.pageflag i)

  pub mark_shared-ok :
      (t : Table) (h : IsFrame pfn)
      → Returns (mark_shared host pfn t) λ _ u.
        (u ≡ record t { pageflag = u.pageflag })
        × Only t (record { owner = (entry t).owner; flag = asked (entry t).flag }) u
  unfolding mark_shared
  mark_shared-ok t h = elim (Bool-cases (host.page_ksm (host.pfn_to_page pfn))) [
    | inl ksm ↦ rw ksm (tt, put t pfn _, set_flag-ok pfn t h 0x01, (refl, λ i. refl))
    | inr plain ↦ rw plain (tt, t, refl, (refl, λ i. ground arith))
  ]

  abbrev pub Ready : Table → Type 0
  Ready t = t.pfnusedmark ≡ 5 → 6 ≤ large t.random

  Ready-same : (t u : Table) → u ≡ record t { pageflag = u.pageflag } → Ready t → Ready u
  Ready-same t u e ready p =
      rw (ap (λ (v : Table). v.random) e) (ready (sym (ap (λ (v : Table). v.pfnusedmark) e) ∙ p))

  finish :
      (t u : Table)
      → Ready t
      → u.pageflag ≡ t.pageflag
      → u.random ≡ t.random
      → Returns
          ((if t.pfnusedmark + 1 == 6 then new_clean_page_modify1 host else pure tt) u)
          λ _ v. v.pageflag ≡ t.pageflag
  finish t u ready same rand = elim (Bool-cases (t.pfnusedmark + 1 == 6)) [
    | inl last ↦ rw last (
        let (a, v, e, p) = new_clean_page_modify1-ends host u (rw rand (ready (ground arith))) in
        (a, v, e, p.0.pageflag ∙ same))
    | inr more ↦ rw more (tt, u, refl, same)
  ]

  pub show_mapping-ends :
      (t : Table)
      → IsFrame pfn
      → Ready t
      → Returns (show_mapping host pfn t) λ _ u. u.pageflag ≡ t.pageflag
  unfolding show_mapping
  show_mapping-ends t h ready = elim (Bool-cases (t.pfnusedmark == 6)) [
    | inl done ↦ rw done (tt, t, refl, refl)
    | inr more ↦ rw more (elim (Bool-cases (t.pfnusedmark == 0)) [
      | inl first ↦
          rw (first, load_flag-ok pfn (record t { log = tracking_banner ∷ t.log }) h)
            (finish t _ ready refl refl)
      | inr later ↦ rw (later, load_flag-ok pfn t h) (finish t _ ready refl refl)
    ])
  ]

  -- A frame of the table is mapped into a VM: the call returns 0, the entry of the frame names the
  -- VM as owner and has the used bit, and the shared bit if KSM holds the page; no other entry
  -- changes. At the sixth report the random numbers must serve the report that follows.
  pub new_handle_pfn_map_lem :
      (vcpu : ℕ) (t : Table)
      → IsFrame pfn
      → Ready t
      → Returns (new_handle_pfn_map host pfn vcpu t) λ r u.
        (r ≡ 0)
        × Only t
            (record { owner = host.vcpu_kvm vcpu; flag = asked (bit_or (entry t).flag 0x80) })
            u
  unfolding new_handle_pfn_map
  new_handle_pfn_map_lem vcpu t h ready =
      let vmid = host.vcpu_kvm vcpu in
      let t1 = put t pfn (record { owner = vmid; flag = (entry t).flag }) in
      let t2 =
        put t1 pfn (record { owner = (entry t1).owner; flag = bit_or (entry t1).flag 0x80 }) in
      rw (in_table-true h, set_owner-ok pfn t h vmid, set_flag-ok pfn t1 h 0x80)
        (Returns-and_then (mark_shared-ok t2 h) λ _ t3 m.
          Returns-and_then (show_mapping-ends t3 h (Ready-same t2 t3 m.0 ready)) λ _ u e.
            (0, u, refl, (refl, λ i. ap (λ (f : ℕ → PageFlag). f i) e ∙ m.1 i ∙ ground arith)))

  -- Outside the table the call returns 0 and changes nothing.
  pub new_handle_pfn_map-outside :
      (vcpu : ℕ) (t : Table) → ¬ IsFrame pfn → new_handle_pfn_map host pfn vcpu t ≡ ok 0 t
  unfolding new_handle_pfn_map
  new_handle_pfn_map-outside vcpu t out = rw (in_table-false out)

  verdict-zero : (e : PageFlag) (vmid : ℕ) → verdict e vmid ≡ 0
  unfolding verdict
  verdict-zero e vmid = ground arith

  -- The check before a mapping never refuses: for every frame, VM and table it returns 0, so also
  -- for a used, private frame that another VM owns. Of the entries it may change one, that of the
  -- frame, by setting the shared bit when KSM holds the page.
  pub new_handle_pfn_modify-accepts :
      (vcpu : ℕ) (t : Table)
      → Returns (new_handle_pfn_modify host pfn vcpu t) λ r u.
        (r ≡ 0)
        × ((i : ℕ)
            → u.pageflag i ≡ (
                if in_table pfn && (i == slot pfn)
                then record { owner = (entry t).owner; flag = asked (entry t).flag }
                else t.pageflag i))
  unfolding new_handle_pfn_modify
  new_handle_pfn_modify-accepts vcpu t = elim (Bool-cases (in_table pfn)) [
    | inr out ↦ rw out (0, t, refl, (refl, λ i. refl))
    | inl inside ↦ rw inside (
        Returns-and_then (mark_shared-ok t (ground arith)) λ _ u m.
          rw (load_flag-ok pfn u (ground arith), verdict-zero (entry u) (host.vcpu_kvm vcpu))
            (0, record u { couhandle = (u.couhandle + 1) % 2 ^ 64 }, refl, (refl, m.1)))
  ]

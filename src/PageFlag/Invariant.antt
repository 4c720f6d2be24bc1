-- ===== src/PageFlag/Invariant.antt =====
-- What holds of the table after any sequence of the handlers' calls. `Vm` tells the VMs that there
-- are; the kernel passes those only.
use hyper_mi.Base.{ℕ, ◌^◌, ◌<◌, ◌≡◌, ◌≢◌, refl, arith, bit_or, ◌==◌, Bool-cases, inl, inr, ok}
use hyper_mi.PageFlag.Table.{PageFlag, Table, Host, slot}
use hyper_mi.PageFlag.Map.{new_handle_pfn_map, new_handle_pfn_modify}
use hyper_mi.PageFlag.Merge.{new_ksm_page_modify}
use hyper_mi.PageFlag.Free.{new_clean_page_modify, new_inflate_page_modify, new_deflate_page_modify}
use hyper_mi.PageFlag.Mapping.{Only, Ready, asked}

-- The values that a flag takes: a merged page is a shared one.
pub data IsFlag (f : ℕ) : Type 0 where
  blank : f ≡ 0 → IsFlag f
  shared : f ≡ 0x01 → IsFlag f
  merged : f ≡ 0x09 → IsFlag f
  used : f ≡ 0x80 → IsFlag f
  used_shared : f ≡ 0x81 → IsFlag f
  used_merged : f ≡ 0x89 → IsFlag f

pub or_shared : {f : ℕ} → IsFlag f → IsFlag (bit_or f 0x01) × (bit_or f 0x01 ≢ 0)
or_shared (blank e) = rw e (shared refl, omega arith)
or_shared (shared e) = rw e (shared refl, omega arith)
or_shared (merged e) = rw e (merged refl, omega arith)
or_shared (used e) = rw e (used_shared refl, omega arith)
or_shared (used_shared e) = rw e (used_shared refl, omega arith)
or_shared (used_merged e) = rw e (used_merged refl, omega arith)

pub or_used : {f : ℕ} → IsFlag f → IsFlag (bit_or f 0x80) × (bit_or f 0x80 ≢ 0)
or_used (blank e) = rw e (used refl, omega arith)
or_used (shared e) = rw e (used_shared refl, omega arith)
or_used (merged e) = rw e (used_merged refl, omega arith)
or_used (used e) = rw e (used refl, omega arith)
or_used (used_shared e) = rw e (used_shared refl, omega arith)
or_used (used_merged e) = rw e (used_merged refl, omega arith)

pub or_merged :
    {f : ℕ} → IsFlag f → IsFlag (bit_or (bit_or f 0x01) 0x08) × (bit_or (bit_or f 0x01) 0x08 ≢ 0)
or_merged (blank e) = rw e (merged refl, omega arith)
or_merged (shared e) = rw e (merged refl, omega arith)
or_merged (merged e) = rw e (merged refl, omega arith)
or_merged (used e) = rw e (used_merged refl, omega arith)
or_merged (used_shared e) = rw e (used_merged refl, omega arith)
or_merged (used_merged e) = rw e (used_merged refl, omega arith)

module _ (Vm : ℕ → Type 0) where
  -- An owned page is marked, and its owner is a VM.
  pub record IsEntry (e : PageFlag) : Type 0 where
    pub flag_ok : IsFlag e.flag
    pub owned : e.owner ≢ 0 → (e.flag ≢ 0) × Vm e.owner

  abbrev pub IsTable : Table → Type 0
  IsTable t = (i : ℕ) → IsEntry (t.pageflag i)

  pub IsEntry-cleared : IsEntry (record { owner = 0; flag = 0 })
  IsEntry-cleared = record { flag_ok = blank refl; owned = λ h. absurd (h refl) }

  pub IsEntry-orphan : (e : PageFlag) → IsEntry e → IsEntry (record { owner = 0; flag = e.flag })
  IsEntry-orphan e h = record { flag_ok = h.flag_ok; owned = λ n. absurd (n refl) }

  pub IsEntry-shared :
      (e : PageFlag) → IsEntry e → IsEntry (record { owner = e.owner; flag = bit_or e.flag 0x01 })
  IsEntry-shared e h = record {
    flag_ok = (or_shared h.flag_ok).0;
    owned = λ n. ((or_shared h.flag_ok).1, (h.owned n).1);
  }

  module _ (host : Host) where
    pub IsEntry-asked :
        (pfn : ℕ) (e : PageFlag)
        → IsEntry e
        → IsEntry (record { owner = e.owner; flag = asked host pfn e.flag })
    IsEntry-asked pfn e h = elim (Bool-cases (host.page_ksm (host.pfn_to_page pfn))) [
      | inl ksm ↦ rw ksm (IsEntry-shared e h)
      | inr plain ↦ rw plain h
    ]

    pub IsTable-Only :
        (pfn : ℕ) (t u : Table) (e : PageFlag)
        → IsTable t
        → IsEntry e
        → Only host pfn t e u
        → IsTable u
    IsTable-Only pfn t u e h he only i = elim (Bool-cases (i == slot pfn)) [
      | inl hit ↦ rw (only i, hit) he
      | inr miss ↦ rw (only i, miss) (h i)
    ]

    -- One call of a handler that returns. The kernel passes frame numbers of 64 bits, and merges
    -- no page with frame number 0.
    pub data Step (t : Table) (u : Table) : Type 0 where
      check : (pfn vcpu : ℕ) (r : ℕ) → new_handle_pfn_modify host pfn vcpu t ≡ ok r u → Step t u
      map_page :
          (pfn vcpu : ℕ) (r : ℕ)
          → Vm (host.vcpu_kvm vcpu)
          → Ready host pfn t
          → new_handle_pfn_map host pfn vcpu t ≡ ok r u
          → Step t u
      merge :
          (page kpage : ℕ)
          → 0 < host.page_to_pfn page
          → 0 < host.page_to_pfn kpage
          → new_ksm_page_modify host page kpage t ≡ ok tt u
          → Step t u
      clean :
          (page : ℕ) (r : ℕ)
          → host.page_to_pfn page < 2 ^ 64
          → new_clean_page_modify host page t ≡ ok r u
          → Step t u
      inflate :
          (page : ℕ) (r : ℕ)
          → host.page_to_pfn page < 2 ^ 64
          → new_inflate_page_modify host page t ≡ ok r u
          → Step t u
      deflate :
          (page : ℕ) (r : ℕ)
          → host.page_to_pfn page < 2 ^ 64
          → new_deflate_page_modify host page t ≡ ok r u
          → Step t u

    pub data Reach (s : Table) : Table → Type 0 where
      here : Reach s s
      next : {t u : Table} → Reach s t → Step t u → Reach s u

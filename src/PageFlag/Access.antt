-- ===== src/PageFlag/Access.antt =====
-- One access in closed form, and the range of frames that the table holds.
use hyper_mi.Base.{ℕ, ◌^◌, ◌≤◌, ◌<◌, ◌≡◌, arith, true, false, bit_or, ltb, update, ok, fault}
use hyper_mi.PageFlag.Table.{PageFlag, num_pfn2, Table, slot, load_flag, store_flag}
use hyper_mi.PageFlag.Map.{set_flag, set_owner}

-- A page frame number of the table.
abbrev pub IsFrame : ℕ → Type 0
IsFrame pfn = (0 < pfn) × (pfn ≤ num_pfn2)

pub slot-lt : (pfn : ℕ) → IsFrame pfn → slot pfn < num_pfn2
slot-lt pfn h = omega arith

pub slot-injective : (p q : ℕ) → IsFrame p → IsFrame q → slot p ≡ slot q → p ≡ q
slot-injective p q hp hq e = omega arith

pub slot-out : (pfn : ℕ) → pfn < 2 ^ 64 → ¬ IsFrame pfn → ltb (slot pfn) num_pfn2 ≡ false
slot-out pfn small h = ground arith

abbrev pub put : Table → ℕ → PageFlag → Table
put t pfn e = record t { pageflag = update t.pageflag (slot pfn) e }

module _ (pfn : ℕ) (t : Table) where
  module _ (h : IsFrame pfn) where
    pub in_slot : ltb (slot pfn) num_pfn2 ≡ true
    in_slot = ground (arith, slot-lt pfn)

    pub load_flag-ok : load_flag pfn t ≡ ok (t.pageflag (slot pfn)) t
    unfolding load_flag
    load_flag-ok = rw in_slot

    pub store_flag-ok : (e : PageFlag) → store_flag pfn e t ≡ ok tt (put t pfn e)
    unfolding store_flag
    store_flag-ok e = rw in_slot

    pub set_flag-ok :
        (bits : ℕ)
        → set_flag pfn bits t
          ≡ ok tt (
              put t pfn (record {
                owner = (t.pageflag (slot pfn)).owner;
                flag = bit_or (t.pageflag (slot pfn)).flag bits;
              }))
    unfolding set_flag
    set_flag-ok bits = rw (load_flag-ok, store_flag-ok)

    pub set_owner-ok :
        (vmid : ℕ)
        → set_owner pfn vmid t
          ≡ ok tt (put t pfn (record { owner = vmid; flag = (t.pageflag (slot pfn)).flag }))
    unfolding set_owner
    set_owner-ok vmid = rw (load_flag-ok, store_flag-ok)

  module _ (small : pfn < 2 ^ 64) (out : ¬ IsFrame pfn) where
    pub load_flag-fault : load_flag pfn t ≡ fault
    unfolding load_flag
    load_flag-fault = rw (slot-out pfn small out)

    pub set_owner-fault : (vmid : ℕ) → set_owner pfn vmid t ≡ fault
    unfolding set_owner
    set_owner-fault vmid = rw load_flag-fault

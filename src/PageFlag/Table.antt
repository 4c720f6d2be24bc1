-- ===== src/PageFlag/Table.antt =====
-- The table `pageflag[Num_pfn2]`, the counters beside it, and one access by page frame number.
use hyper_mi.Base.{
  ℕ, ◌+◌, ◌-◌, ◌%◌, ◌^◌, Bool, List, ◌∷◌, ltb, if◌then◌else◌, update, Cmd, ok, fault, modify,
}

-- `flag` is a char: 0x80 used, 0x01 shared, 0x08 merged.
pub record PageFlag : Type 0 where
  pub owner : ℕ
  pub flag : ℕ

abbrev pub num_pfn2 : ℕ
num_pfn2 = 0x31fe00

-- What the handlers print, by the values that they print.
pub data Message : Type 0 where
  tracking_banner : Message
  tracked : (example pfn owner used shared : ℕ) → Message
  release_banner : Message
  released : (pfn : ℕ) → Message
  merging_banner : Message
  merged : (example pfn kpfn owner kowner : ℕ) → Message
  inflation : (pfn owner used shared : ℕ) → Message
  deflation : (pfn owner used shared : ℕ) → Message
  shrink_test : Message

-- `random` holds what the coming calls of `get_random_bytes` store, the next one first; `log`
-- holds what was printed, the last first. The five counters are those of the source.
pub record Table : Type 0 where
  pub pageflag : ℕ → PageFlag
  pub couhandle : ℕ
  pub pfnusedmark : ℕ
  pub ksm_used_mark : ℕ
  pub balloon_inflate_mark : ℕ
  pub balloon_deflate_mark : ℕ
  pub random : List ℕ
  pub log : List Message

-- What the handlers ask of the kernel: of pages and virtual CPUs, by their addresses.
pub record Host : Type 0 where
  pub page_to_pfn : ℕ → ℕ
  pub pfn_to_page : ℕ → ℕ
  pub page_ksm : ℕ → Bool
  pub mapping : ℕ → ℕ
  pub page_mapping_flags : ℕ
  pub vcpu_kvm : ℕ → ℕ
  -- what the array randNum holds on the stack before it is filled
  pub rand_num : ℕ → ℕ

-- The subscript `pfn-1` of an unsigned long: 0 wraps to the largest one.
abbrev pub slot : ℕ → ℕ
slot pfn = (pfn + (2 ^ 64 - 1)) % 2 ^ 64

-- An access outside the array is undefined.
unfoldable pub load_flag : ℕ → Cmd Table PageFlag
load_flag pfn t = if ltb (slot pfn) num_pfn2 then ok (t.pageflag (slot pfn)) t else fault

unfoldable pub store_flag : ℕ → PageFlag → Cmd Table (Unit {0})
store_flag pfn e t =
    if ltb (slot pfn) num_pfn2
    then ok tt (record t { pageflag = update t.pageflag (slot pfn) e })
    else fault

abbrev pub printk : Message → Cmd Table (Unit {0})
printk m = modify (λ t. record t { log = m ∷ t.log })

-- ===== src/PageFlag/Owners.antt =====
-- What the table promises, with no flags, counters or messages: who owns each page, and how the
-- calls of the handlers of src/SecureVM/gate_function.h change that.
use hyper_mi.Base.{
  ℕ, ◌-◌, Bool, List, [], ◌∷◌, Option, none, some, ◌&&◌, ltb, leb, ◌==◌, if◌then◌else◌,
}
use hyper_mi.PageFlag.Table.{num_pfn2, Host}
use hyper_mi.PageFlag.Merging.{is_ksm}

-- The owner of page frame i + 1, at i.
abbrev pub Owners : Type 0
Owners = ℕ → Option ℕ

-- A call, with what the kernel passes.
pub data Event : Type 0 where
  checks : (pfn vcpu : ℕ) → Event
  maps : (pfn vcpu : ℕ) → Event
  merges : (page kpage : ℕ) → Event
  frees : (page : ℕ) → Event
  inflates : (page : ℕ) → Event
  deflates : (page : ℕ) → Event

abbrev pub set : ℕ → Option ℕ → Owners → Owners
set i o a k = if k == i then o else a k

-- An owner passes from one page to another, or is lost where that is no page of KSM.
abbrev pub pass : Bool → ℕ → ℕ → Option ℕ → Owners → Owners
pass ksm i j none a = a
pass ksm i j (some vm) a = set i none (if ksm then set j (some vm) a else a)

abbrev pub after : Host → Event → Owners → Owners
after host (checks pfn vcpu) a = a
after host (maps pfn vcpu) a =
    if leb 1 pfn && leb pfn num_pfn2 then set (pfn - 1) (some (host.vcpu_kvm vcpu)) a else a
after host (merges page kpage) a =
    let i = host.page_to_pfn page in
    let j = host.page_to_pfn kpage in
    if ltb i num_pfn2 && ltb j num_pfn2
    then pass (is_ksm host page kpage) (i - 1) (j - 1) (a (i - 1)) a
    else a
after host (frees page) a = set (host.page_to_pfn page - 1) none a
after host (inflates page) a = set (host.page_to_pfn page - 1) none a
after host (deflates page) a = set (host.page_to_pfn page - 1) none a

-- Several calls, the last one first.
abbrev pub after_all : Host → List Event → Owners → Owners
after_all host [] a = a
after_all host (e ∷ es) a = after host e (after_all host es a)

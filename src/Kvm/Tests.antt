-- ===== src/Kvm/Tests.antt =====
-- The replacements on a machine with two VMs, the second of which is the last of the list.
use hyper_mi.Base.{
  ℕ, zero, suc, get_or, ◌+◌, ◌<◌, ◌≡◌, ◌≢◌, refl, arith, Bool, false, ltb, ◌==◌, if◌then◌else◌,
  update, [], ◌∷◌, Cmd, ok, fault, modify, Returns,
}
use hyper_mi.Gate.Sample.{sample}
use hyper_mi.Gate.Machine.{Machine}
use hyper_mi.Gate.Writes.{Restored}
use hyper_mi.Paging.Store.{PageKernel}
use hyper_mi.Kvm.Mmu.{new_vmx_flush_tlb}
use hyper_mi.Kvm.Tdp.{new_tdp_page_fault}
use hyper_mi.Kvm.Walk.{Chain, stop, more}
use hyper_mi.Kvm.Admits.{new_tdp_page_fault-admits}
use hyper_mi.Vmcs.Access.{mark_eptp, store_field, new_vmcs_writel, new_vmcs_readl}
use hyper_mi.Kvm.Vms.{KeepsVms, Marked, FirstAt}
use hyper_mi.Kvm.Finds.{
  Handles, new_tdp_page_fault-finds, new_tdp_page_fault-misses, new_tdp_page_fault-overruns,
}
use hyper_mi.Kvm.Roots.{RunsOn, Back, new_vmx_flush_tlb-runs}

abbrev same : ℕ → ℕ
same x = x

abbrev kernel : PageKernel
kernel = record {
  pa = same;
  va = same;
  pud_large = λ e. false;
  pmd_large = λ e. false;
  set_pgd = λ a v f. update f a v;
  set_pud = λ a v f. update f a v;
  set_pmd = λ a v f. update f a v;
  set_pte = λ a v f. update f a v;
  clear_page = λ a f x. 0;
}

-- The list: 100, 200, and the head at 0xffffffff81000000.
abbrev ring : ℕ → ℕ
ring x =
    if x == 100
    then 200
    else if x == 200
    then 0xffffffff81000000
    else if x == 0xffffffff81000000
    then 100
    else 7

abbrev machine : Machine
machine = record sample { cr2 = 0x9000; pages = 0x5000 ∷ []; next = ring; root_hpa = λ v. 0x8000 }

-- KVM's handler counts in cr8 that it ran.
abbrev kvm_fault : ℕ → ℕ → ℕ → ℕ → Cmd Machine ℕ
kvm_fault vcpu gpa error_code prefault m = ok 1 (record m { cr8 = m.cr8 + 1 })

kvm_fault-returns : (n : Machine) → Returns (kvm_fault 3 0x4000 2 0 n) λ _ u. KeepsVms n u
kvm_fault-returns n = (
  1,
  _,
  refl,
  record { stack = refl; oldcr3 = refl; next = refl; flag_tdp = refl; num_vm_this = refl },
)

abbrev second : ℕ → ℕ
second vcpu = 200

abbrev first : ℕ → ℕ
first vcpu = 100

two_vms : Chain ring 100 (100 ∷ 200 ∷ [])
two_vms = more refl (more refl (stop refl))

below_one : (i : ℕ) → i < 1 → second 3 ≢ get_or (100 ∷ 200 ∷ []) i 0
below_one zero low e = absurd (omega (arith, e))
below_one (suc i) low e = absurd (omega arith)

second-FirstAt : FirstAt 200 (100 ∷ 200 ∷ []) 1
second-FirstAt = record { low = omega arith; here = refl; first = λ i low e. below_one i low e }

new_tdp_page_fault-finds_example :
    Returns (new_tdp_page_fault kernel second same kvm_fault 3 0x4000 2 0 machine) λ r v.
      Handles kernel
        (λ a w f. refl)
        second
        same
        kvm_fault
        3
        0x4000
        2
        0
        machine
        kvm_fault-returns
        (omega arith)
        (100 ∷ 200 ∷ [])
        two_vms
        r
        v
      × Marked 3 1 v
      × ((v.kvm_pfn_str 1).kvm1 ≡ 200)
new_tdp_page_fault-finds_example =
    new_tdp_page_fault-finds kernel (λ a w f. refl) second same kvm_fault 3 0x4000 2 0 machine
      kvm_fault-returns (omega arith) (100 ∷ 200 ∷ []) two_vms 1 (omega arith) second-FirstAt

-- The other VM is not on the list that starts two after it.
no_vms : Chain ring 0xffffffff81000000 []
no_vms = stop refl

new_tdp_page_fault-misses_example :
    Returns (new_tdp_page_fault kernel first same kvm_fault 3 0x4000 2 0 machine) λ r v.
      Handles kernel
        (λ a w f. refl)
        first
        same
        kvm_fault
        3
        0x4000
        2
        0
        machine
        kvm_fault-returns
        (omega arith)
        []
        no_vms
        r
        v
      × Marked 3 0 v
      × (0 < 0 → (v.kvm_pfn_str 0).kvm1 ≢ 100)
new_tdp_page_fault-misses_example =
    new_tdp_page_fault-misses kernel (λ a w f. refl) first same kvm_fault 3 0x4000 2 0 machine
      kvm_fault-returns (omega arith) [] no_vms (omega arith) (omega arith)
      (λ i low e. absurd (omega arith))

-- Seven more VMs from 1000 to 1006, the last the one of the virtual CPU.
abbrev crowd : ℕ → ℕ
crowd x = if x == 0xffffffff81000000 then 1000 else if x == 1006 then 0xffffffff81000000 else x + 1

abbrev crowded : Machine
crowded = record machine { next = crowd }

abbrev last : ℕ → ℕ
last vcpu = 1006

seven_vms : Chain crowd 1000 (1000 ∷ 1001 ∷ 1002 ∷ 1003 ∷ 1004 ∷ 1005 ∷ 1006 ∷ [])
seven_vms =
    more refl (more refl (more refl (more refl (more refl (more refl (more refl (stop refl)))))))

new_tdp_page_fault-overruns_example :
    new_tdp_page_fault kernel last same kvm_fault 3 0x4000 2 0 crowded ≡ fault
new_tdp_page_fault-overruns_example =
    new_tdp_page_fault-overruns kernel (λ a w f. refl) last same kvm_fault 3 0x4000 2 0 crowded
      kvm_fault-returns (omega arith) (1000 ∷ 1001 ∷ 1002 ∷ 1003 ∷ 1004 ∷ 1005 ∷ 1006 ∷ [])
      seven_vms (omega arith)

-- KVM's part of the flush stores the root that it finds, in the first word of memory.
abbrev kvm_flush : ℕ → Cmd Machine (Unit {0})
kvm_flush vcpu = modify (λ m. record m { memory = update m.memory 0 (m.root_hpa vcpu) })

abbrev page_64 : ℕ → Bool
page_64 root = ltb root 0xffffffffffffffff

kvm_flush-RunsOn :
    (saved : ℕ → ℕ)
    → saved 3 ≡ 0x8000
    → RunsOn (kvm_flush 3) 0x2000 saved (λ u. u.memory 0 ≡ 0x8000)
kvm_flush-RunsOn saved old n off table root = (tt, _, refl, (refl, refl, rw (root, old)))

new_vmx_flush_tlb-runs_example :
    Returns
      (new_vmx_flush_tlb same same page_64 kvm_flush 3 machine)
      λ _ v. Back machine (λ u. u.memory 0 ≡ 0x8000) v
new_vmx_flush_tlb-runs_example =
    new_vmx_flush_tlb-runs same same page_64 3 machine kvm_flush (λ u. u.memory 0 ≡ 0x8000)
      (kvm_flush-RunsOn machine.root_hpa refl)

abbrev write_ok : ℕ → ℕ → Machine → Bool × Machine
write_ok field value m = (false, record m { space_addr = value })

abbrev read_space : ℕ → Machine → ℕ
read_space field m = m.space_addr

new_tdp_page_fault-admits_example :
    Returns (new_tdp_page_fault kernel second same kvm_fault 3 0x4000 2 0 machine) λ _ v.
      Restored machine v
      × (new_vmcs_writel write_ok same same same 0 0x201a 9 v
          ≡ store_field write_ok 0x201a 9 (mark_eptp 0x201a v))
      × Returns
          (new_vmcs_readl read_space same same same 0 0x201a v)
          (λ read w. (read ≡ v.space_addr) × (w.cr3 ≡ 0x2000))
new_tdp_page_fault-admits_example =
    new_tdp_page_fault-admits kernel (λ a w f. refl) second same kvm_fault 3 0x4000 2 0 machine
      kvm_fault-returns (omega arith) (100 ∷ 200 ∷ []) two_vms same same same 0 write_ok read_space
      0x201a 9 (omega arith) (omega arith)

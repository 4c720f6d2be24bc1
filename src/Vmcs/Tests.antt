-- ===== src/Vmcs/Tests.antt =====
-- The VMCS accesses on a processor that keeps the fields in memory and refuses the number 0.
use hyper_mi.Base.{ℕ, ◌+◌, ◌≡◌, arith, Bool, ◌==◌, update}
use hyper_mi.Gate.Sample.{sample}
use hyper_mi.Gate.Machine.{Machine}
use hyper_mi.Vmcs.Access.{new_vmcs_writel, store_field, mark_eptp}
use hyper_mi.Vmcs.Guard.{new_vmcs_writel-unguarded}

abbrev vmwrite : ℕ → ℕ → Machine → Bool × Machine
vmwrite field value m = (field == 0, record m { memory = update m.memory field value })

abbrev vmread : ℕ → Machine → ℕ
vmread field m = m.memory field

abbrev machine_at : ℕ → Machine
machine_at vm = record sample {
  memory = λ x. x + 1;
  kvm_pfn_str =
      λ i. record { kvm1 = i; pfn_array_st = 0; num_pfn = 0; count_vmcs_wr = 1; kvm_vcpu_mo = 5 };
  num_vm_this = vm;
}

abbrev same : ℕ → ℕ
same x = x

new_vmcs_writel-unguarded_example :
    new_vmcs_writel vmwrite same same same 0 0x201a 9 (machine_at 2)
    ≡ store_field vmwrite 0x201a 9 (mark_eptp 0x201a (machine_at 2))
new_vmcs_writel-unguarded_example =
    new_vmcs_writel-unguarded same same same 0 (machine_at 2) vmwrite 0x201a 9 (omega arith)

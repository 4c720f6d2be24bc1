-- ===== src/Gate/Tests.antt =====
-- The gate on a machine whose physical addresses stand at an offset.
use hyper_mi.Base.{ℕ, ◌+◌, ◌-◌, ◌≡◌, refl, Cmd, modify, update, Returns}
use hyper_mi.Gate.Sample.{sample}
use hyper_mi.Gate.Machine.{Machine}
use hyper_mi.Gate.Handlers.{new_vmx_vcpu_run}
use hyper_mi.Gate.Writes.{Restored}
use hyper_mi.Gate.Faults.{new_vmx_vcpu_run-runs}

abbrev pa : ℕ → ℕ
pa x = x - 0x1000000

abbrev va : ℕ → ℕ
va x = x + 0x1000000

abbrev machine : Machine
machine = record sample { cr2 = 0x9000 }

abbrev run_once : ℕ → Cmd Machine (Unit {0})
run_once vcpu = modify (λ m. record m { memory = update m.memory 8 vcpu })

new_vmx_vcpu_run-runs_example : Returns (new_vmx_vcpu_run pa va run_once 5 machine) λ _ v.
    Restored machine v
    × ((u : Machine) × (u.memory 8 ≡ 5)
        × (v.memory ≡ u.memory)
        × (v.trace ≡ u.trace)
        × (v.oldcr3 ≡ u.oldcr3))
new_vmx_vcpu_run-runs_example =
    new_vmx_vcpu_run-runs pa va run_once 5 machine (λ u. u.memory 8 ≡ 5) refl
      (λ k i c o. (tt, _, refl, (refl, refl, refl)))

-- ===== src/Nest/Tests.antt =====
-- A page fault whose handling writes an entry and faults again, and a run of a virtual CPU.
use hyper_mi.Base.{ℕ, ◌≡◌, refl, arith, Cmd, modify, Returns}
use hyper_mi.Gate.Machine.{Machine}
use hyper_mi.Gate.Sample.{sample}
use hyper_mi.Gate.Handlers.{new_do_page_fault}
use hyper_mi.Gate.Writes.{Restored}
use hyper_mi.Smp.Calls.{set_pte, write_cr0}
use hyper_mi.Nest.{Work, done, call, page_fault, vcpu_run, work}
use hyper_mi.Nest.Restores.{work-Restored}
use hyper_mi.Nest.Stale.{new_do_page_fault-stale}

abbrev same : ℕ → ℕ
same x = x

abbrev nested : Work
nested =
    page_fault 0x9000 1 2
      (call (set_pte 8 5) (page_fault 0x100 1 6 (call (set_pte 16 7) done) done))
      (vcpu_run 3 (call (write_cr0 0x33) (page_fault 0xa000 1 0 done done)) done)

work-Restored_example : Returns (work same same 0x8000 nested sample) λ _ u. Restored sample u
work-Restored_example = work-Restored same same 0x2000 refl 0x8000 nested sample refl

-- The handler touches a page of a user that is not there.
abbrev faulting : ℕ → ℕ → ℕ → Cmd Machine (Unit {0})
faulting regs error_code address = modify (λ m. record m { cr2 = 0x100 })

new_do_page_fault-stale_example :
    (v : Machine) × (new_do_page_fault same same 0x8000 faulting 1 2
        (record sample { cr2 = 0x9000 })
      ≡ faulting 1 2 0x100 v)
    × Restored (record sample { cr2 = 0x9000 }) v
new_do_page_fault-stale_example =
    new_do_page_fault-stale same same 0x8000 faulting 1 2 (record sample { cr2 = 0x9000 }) 0x100
      (omega arith) (tt, _, refl, (record { stack = refl; oldcr3 = refl }, refl))

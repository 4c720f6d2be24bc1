-- ===== src/Load.antt =====
-- Loading and unloading the module, src/SecureVM/hookcr32.c, over the state of the hooks and that of
-- the processor. write_cr0 and write_cr4 of the kernel, and what get_zeroed_page does to a page,
-- are parameters.
pub mod Loads
mod Tests
use hyper_mi.Base.{ℕ, Cmd, Run, ok, fault, starved, pure, modify, ◌>>◌, ◌>>=◌}
use hyper_mi.Gate.Machine.{Machine, print, goodbye_notice, flush_tlb_all}
use hyper_mi.Hook.Data.{Site, Kernel}
use hyper_mi.Hook.Session as Session
use hyper_mi.Paging.Copy.{get_pgd_cp}
use hyper_mi.Kvm.Tdp.{on_tables}
use hyper_mi.Kvm.Start.{init_struct, sec_monitor_test}

-- `old_cr3` is the global of that name.
pub record System : Type 0 where
  pub kernel : Kernel
  pub machine : Machine
  pub old_cr3 : ℕ

abbrev pub with_kernel {κ} : {A : Type κ} → System → Run Kernel A → Run System A
with_kernel s (ok a k) = ok a (record s { kernel = k })
with_kernel s fault = fault
with_kernel s starved = starved

abbrev pub on_kernel {κ} : {A : Type κ} → Cmd Kernel A → Cmd System A
on_kernel c s = with_kernel s (c s.kernel)

abbrev pub with_machine {κ} : {A : Type κ} → System → Run Machine A → Run System A
with_machine s (ok a m) = ok a (record s { machine = m })
with_machine s fault = fault
with_machine s starved = starved

abbrev pub on_machine {κ} : {A : Type κ} → Cmd Machine A → Cmd System A
on_machine c s = with_machine s (c s.machine)

module _ (lookup_address : ℕ → ℕ) where
  unfoldable pub my_exit : Cmd System (Unit {0})
  unfolding Session.my_exit
  my_exit = on_kernel (Session.my_exit lookup_address) >> on_machine (print goodbye_notice)

  module _ (target mock : Site → ℕ) (pa va : ℕ → ℕ) (clear_page : ℕ → (ℕ → ℕ) → ℕ → ℕ)
      (write_cr0 write_cr4 : ℕ → Cmd Machine (Unit {0})) where
    -- `addr_to_protected` and `pgd_new` are not used.
    unfoldable pub my_init : Cmd System ℕ
    unfolding init_struct flush_tlb_all sec_monitor_test Session.install_hooks get_pgd_cp
    my_init =
        on_machine (init_struct clear_page write_cr0 write_cr4 >>= λ addr_to_protected. pure tt)
        >> on_machine flush_tlb_all
        >> on_machine flush_tlb_all
        >> on_machine (sec_monitor_test clear_page pa va)
        >> on_kernel (Session.install_hooks lookup_address target mock)
        >> on_machine flush_tlb_all
        >> on_machine (on_tables get_pgd_cp >>= λ pgd_new. pure tt)
        >> modify (λ s. record s { old_cr3 = s.machine.cr3 })
        >> pure 0

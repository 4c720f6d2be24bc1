-- ===== src/Kvm/Start.antt =====
-- `init_struct` and `sec_monitor_test` of src/SecureVM/gate_function.h, and `sec_monitor` of
-- src/SecureVM/sec_monitor.h. `clear_page` is what get_zeroed_page does to a page that it gives;
-- write_cr0 and write_cr4 are the kernel's.
use hyper_mi.Base.{
  ℕ, zero, suc, ◌+◌, List, [], ◌∷◌, bit_or, ◌==◌, if◌then◌else◌, update, Cmd, ok, starved, pure,
  modify, ◌>>◌, ◌>>=◌,
}
use hyper_mi.Gate.Machine.{
  Machine, print, created_notice, monitor_notice, normal_notice, protected_notice,
  monitor_here_notice, flush_tlb_all,
}
use hyper_mi.Gate.Switch.{open_gate, close_gate}

module _ (clear_page : ℕ → (ℕ → ℕ) → ℕ → ℕ) where
  first_page : List ℕ → Cmd Machine ℕ
  first_page [] m = starved
  first_page (a ∷ rest) m =
      ok a (record m { pages = rest; memory = if a == 0 then m.memory else clear_page a m.memory })

  unfoldable pub get_zeroed_page : Cmd Machine ℕ
  unfolding first_page
  get_zeroed_page m = first_page m.pages m

  -- The loop that clears `count_vmcs_wr` of the six VMs, at `i`.
  unfoldable pub clear_counts : ℕ → ℕ → Machine → Machine
  clear_counts zero i m = m
  clear_counts (suc n) i m = clear_counts n (i + 1) (record m {
    kvm_pfn_str = update m.kvm_pfn_str i (record (m.kvm_pfn_str i) { count_vmcs_wr = 0 });
  })

  unfoldable pub init_struct : (write_cr0 write_cr4 : ℕ → Cmd Machine (Unit {0})) → Cmd Machine ℕ
  unfolding get_zeroed_page clear_counts
  init_struct write_cr0 write_cr4 = get_zeroed_page >>= λ a m.
      (write_cr0 (bit_or m.cr0 0x100)
          >> write_cr4 (bit_or m.cr4 0x100)
          >> modify (clear_counts 6 0)
          >> print created_notice
          >> pure a)
        m

  unfoldable pub sec_monitor_test : (pa va : ℕ → ℕ) → Cmd Machine (Unit {0})
  unfolding open_gate close_gate get_zeroed_page flush_tlb_all
  sec_monitor_test pa va =
      print monitor_notice
      >> open_gate pa va
      >> (get_zeroed_page >>= λ tmp1. pure tt)
      >> close_gate
      >> flush_tlb_all
      >> print normal_notice
      >> print protected_notice

unfoldable pub sec_monitor : Cmd Machine (Unit {0})
sec_monitor = print monitor_here_notice

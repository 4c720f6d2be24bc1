-- ===== src/Smp.antt =====
-- The gated writes of src/SecureVM/gate_function.h on several processors at once. Each has its own
-- registers, interrupt flag and stack; memory and the globals `pgd_addr_cp_gate` and `oldcr3` are
-- shared, and no lock guards them. new_native_write_cr3, which is there to change cr3, is left out.
pub mod Calls
pub mod Sequence
pub mod Calm
pub mod Effects
pub mod Safe
pub mod Race
pub mod Protected
pub mod Delivers
pub mod Finish
mod Tests
use hyper_mi.Base.{ℕ, Bool, List, update, Cmd, ok, modify, ◌≡◌}
use hyper_mi.Gate.Machine.{
  Machine, disable_int_first, disable_int_second, enable_int, flush_tlb_all, writecr3,
}
use hyper_mi.Smp.Calls.{Call, snative_write, write_again}

-- Where a processor stands: between two statements of a handler.
pub data Point : Type 0 where
  outside : Point
  has_table : Point
  has_cr3 : Point
  masked : Point
  switched : Point
  flushed_once : Point
  inside : Point
  written : Point
  unmasked : Point
  flushed_twice : Point
  closed : Point

abbrev pub following : Point → Point
following outside = has_table
following has_table = has_cr3
following has_cr3 = masked
following masked = switched
following switched = flushed_once
following flushed_once = inside
following inside = written
following written = unmasked
following unmasked = flushed_twice
following flushed_twice = closed
following closed = outside

-- What a processor has for itself. `call` is its handler, the next one where it is outside.
pub record Cpu : Type 0 where
  pub cr0 : ℕ
  pub cr3 : ℕ
  pub cr4 : ℕ
  pub cr8 : ℕ
  pub interrupts : Bool
  pub stack : List Bool
  pub call : Call
  pub point : Point

-- The registers in `shared` are those of the processor that moved last.
pub record Smp : Type 0 where
  pub shared : Machine
  pub cpu : ℕ → Cpu

-- The machine as one processor sees it.
abbrev pub seen : Machine → Cpu → Machine
seen m c = record m {
  cr0 = c.cr0;
  cr3 = c.cr3;
  cr4 = c.cr4;
  cr8 = c.cr8;
  interrupts = c.interrupts;
  stack = c.stack;
}

abbrev pub kept : Machine → Call → Point → Cpu
kept m c p = record {
  cr0 = m.cr0;
  cr3 = m.cr3;
  cr4 = m.cr4;
  cr8 = m.cr8;
  interrupts = m.interrupts;
  stack = m.stack;
  call = c;
  point = p;
}

abbrev pub moved : Machine → Cpu → Cpu
moved m c = kept m c.call (following c.point)

module _ (pa va : ℕ → ℕ) where
  -- The statement at a point. A handler that writes once returns at the last.
  unfoldable pub statement : Call → Point → Cmd Machine (Unit {0})
  unfolding disable_int_first disable_int_second enable_int flush_tlb_all writecr3 snative_write
      write_again
  statement c outside = modify (λ m. record m { pgd_addr_cp_gate = va m.cr3 })
  statement c has_table = modify (λ m. record m { oldcr3 = m.cr3 })
  statement c has_cr3 = disable_int_first
  statement c masked = λ m. writecr3 (pa m.pgd_addr_cp_gate) m
  statement c switched = flush_tlb_all
  statement c flushed_once = disable_int_second
  statement c inside = snative_write c
  statement c written = enable_int
  statement c unmasked = flush_tlb_all
  statement c flushed_twice = λ m. writecr3 m.oldcr3 m
  statement c closed = write_again c

  -- One processor runs its next statement, or one outside gets the next call.
  pub data Step (s : Smp) : Smp → Type 0 where
    pick :
        (i : ℕ) {m : Machine}
        → statement (s.cpu i).call (s.cpu i).point (seen s.shared (s.cpu i)) ≡ ok tt m
        → Step s (record { shared = m; cpu = update s.cpu i (moved m (s.cpu i)) })
    enter :
        (i : ℕ) (c : Call)
        → (s.cpu i).point ≡ outside
        → Step s (record s { cpu = update s.cpu i (record (s.cpu i) { call = c }) })

  pub data Reach (s : Smp) : Smp → Type 0 where
    start : Reach s s
    later : {t u : Smp} → Reach s t → Step t u → Reach s u

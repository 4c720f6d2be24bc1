-- ===== src/Gate/Switch.antt =====
-- The lines with which each replacement of src/SecureVM/gate_function.h opens and closes the gate.
use hyper_mi.Base.{ℕ, ◌≡◌, refl, false, ◌∷◌, Cmd, ok, modify, ◌>>◌, Returns, Returns-and_then}
use hyper_mi.Gate.Machine.{
  Machine, flushed, flush_tlb_all, disable_int_first, enable_int, disable_int_second, writecr3,
}

unfoldable pub close_gate : Cmd Machine (Unit {0})
unfolding enable_int flush_tlb_all writecr3
close_gate = enable_int >> flush_tlb_all >> λ m. writecr3 m.oldcr3 m

-- What a body may not touch: the stack and the saved cr3.
pub record Keeps (m u : Machine) : Type 0 where
  pub stack : u.stack ≡ m.stack
  pub oldcr3 : u.oldcr3 ≡ m.oldcr3

-- The machine after the gate, from the one at the end of the body.
abbrev pub outside : Machine → Machine → Machine
outside m u = record u {
  stack = m.stack;
  interrupts = m.interrupts;
  trace = flushed ∷ u.trace;
  cr3 = m.cr3;
}

module _ (pa va : ℕ → ℕ) where
  unfoldable pub open_gate : Cmd Machine (Unit {0})
  unfolding disable_int_first writecr3 flush_tlb_all disable_int_second
  open_gate =
      modify (λ m. record m { pgd_addr_cp_gate = va m.cr3; oldcr3 = m.cr3 })
      >> disable_int_first
      >> (λ m. writecr3 (pa m.pgd_addr_cp_gate) m)
      >> flush_tlb_all
      >> disable_int_second

  -- The machine inside the gate.
  abbrev pub inside : Machine → Machine
  inside m = record m {
    pgd_addr_cp_gate = va m.cr3;
    oldcr3 = m.cr3;
    stack = m.interrupts ∷ m.stack;
    interrupts = false;
    cr3 = pa (va m.cr3);
    trace = flushed ∷ m.trace;
  }

  pub open_gate-inside : (m : Machine) → open_gate m ≡ ok tt (inside m)
  unfolding open_gate
  open_gate-inside m = refl

  pub close_gate-outside : (m u : Machine) → Keeps (inside m) u → close_gate u ≡ ok tt (outside m u)
  unfolding close_gate
  close_gate-outside m u h = rw (h.stack, h.oldcr3)

  -- A body that starts inside the gate and keeps what the gate needs runs between `open_gate` and
  -- `close_gate`, and the machine of before is restored around its result.
  pub gate-Returns :
      {P : Machine → Type 0} (m : Machine) (body : Cmd Machine (Unit {0}))
      → Returns (body (inside m)) (λ _ u. Keeps (inside m) u × P u)
      → Returns ((open_gate >> body >> close_gate) m) λ _ v. (u : Machine) × (v ≡ outside m u) × P u
  gate-Returns m body h = rw (open_gate-inside m) (
      Returns-and_then h
        λ _ u (keeps, p). (tt, outside m u, close_gate-outside m u keeps, (u, refl, p)))

  -- Where __pa undoes __va, the gate turns interrupts off and stays in the address space that it
  -- was opened in: the code behind it sees the page tables of before, and no other memory.
  open_gate-stays :
      (m : Machine)
      → pa (va m.cr3) ≡ m.cr3
      → Returns (open_gate m) λ _ u.
        (u.cr3 ≡ m.cr3)
        × (u.interrupts ≡ false)
        × (u.stack ≡ m.interrupts ∷ m.stack)
        × (u.memory ≡ m.memory)
  unfolding open_gate
  open_gate-stays m linear = (tt, inside m, refl, (linear, refl, refl, refl))

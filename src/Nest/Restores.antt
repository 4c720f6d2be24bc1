-- ===== src/Nest/Restores.antt =====
-- However deep the handlers nest, each gate gives back what it found.
use hyper_mi.Base.{
  ℕ, ◌≡◌, refl, ◌∙◌, ap, sym, leb, Bool-cases, inl, inr, Cmd, pure, modify, ◌>>◌, Returns,
  Returns-and_then,
}
use hyper_mi.Gate.Machine.{Machine, Notice, print, attention_notice, coming_notice}
use hyper_mi.Gate.Switch.{open_gate, close_gate, inside, gate-Returns}
use hyper_mi.Gate.Native.{sdo_page_fault}
use hyper_mi.Gate.Handlers.{
  new_native_set_pte, new_native_set_pmd, new_native_write_cr0, new_native_write_cr4,
  new_native_write_cr8, new_do_page_fault, new_vmx_vcpu_run,
}
use hyper_mi.Gate.Writes.{Restored}
use hyper_mi.Gate.Faults.{new_vmx_vcpu_run-runs}
use hyper_mi.Smp.Calls.{
  Call, set_pte, set_pmd, write_cr0, write_cr4, write_cr8, SameGate, snative_write,
  snative_write-SameGate,
}
use hyper_mi.Smp.Sequence.{handler}
use hyper_mi.Nest.{Work, done, call, page_fault, vcpu_run, work}

module _ (pa va : ℕ → ℕ) (table : ℕ) (linear : pa (va table) ≡ table) where
  -- Back on the table with the flag and stack of before; a saved cr3 that was the table still is.
  pub record Kept (m u : Machine) : Type 0 where
    pub restored : Restored m u
    pub old : m.oldcr3 ≡ table → u.oldcr3 ≡ table

  -- A command that brings every machine on the table back as it was.
  IsSafe : Cmd Machine (Unit {0}) → Type 0
  IsSafe c = (m : Machine) → m.cr3 ≡ table → Returns (c m) λ _ u. Kept m u

  Kept-trans : {m u v : Machine} → Kept m u → Kept u v → Kept m v
  Kept-trans h g = record {
    restored = record {
      cr3 = g.restored.cr3 ∙ h.restored.cr3;
      interrupts = g.restored.interrupts ∙ h.restored.interrupts;
      stack = g.restored.stack ∙ h.restored.stack;
    };
    old = λ e. g.old (h.old e);
  }

  Kept-SameGate : {m u : Machine} → SameGate m u → Kept m u
  Kept-SameGate same = record {
    restored = record {
      cr3 = ap (λ g. g.cr3) same;
      interrupts = ap (λ g. g.interrupts) same;
      stack = ap (λ g. g.stack) same;
    };
    old = λ x. ap (λ g. g.oldcr3) same ∙ x;
  }

  and_then-IsSafe : (c d : Cmd Machine (Unit {0})) → IsSafe c → IsSafe d → IsSafe (c >> d)
  unfolding IsSafe
  and_then-IsSafe c d h g m home =
      Returns-and_then (h m home)
        λ _ u p. let (a, v, run, q) = g u (p.restored.cr3 ∙ home) in (a, v, run, Kept-trans p q)

  -- A safe command is safe behind the gate.
  gate-IsSafe :
      (c : Cmd Machine (Unit {0})) → IsSafe c → IsSafe (open_gate pa va >> c >> close_gate)
  unfolding IsSafe
  gate-IsSafe c h m home =
      let k = inside pa va m in
      let (a, u, run, p) = h k (ap (λ t. pa (va t)) home ∙ linear) in
      let old : u.oldcr3 ≡ table = p.old home in
      let (b, v, run', q) =
        gate-Returns pa va {P = λ w. w.oldcr3 ≡ table} m c
          (a, u, run, (record { stack = p.restored.stack; oldcr3 = old ∙ sym home }, old)) in
      let (w, e, still) = q in
      (
        b,
        v,
        run',
        record {
          restored = record { cr3 = rw e refl; interrupts = rw e refl; stack = rw e refl };
          old = λ x. rw e still;
        },
      )

  snative_write-IsSafe : (c : Call) → IsSafe (snative_write c)
  unfolding IsSafe
  snative_write-IsSafe c m home =
      let (a, u, run, same) = snative_write-SameGate c m in (a, u, run, Kept-SameGate same)

  handler-IsSafe : (c : Call) → IsSafe (handler pa va c)
  unfolding new_native_set_pte new_native_set_pmd new_native_write_cr0 new_native_write_cr4
      new_native_write_cr8 snative_write
  handler-IsSafe (set_pte ptep pte) =
      let safe = snative_write-IsSafe (set_pte ptep pte) in
      and_then-IsSafe _ _ (gate-IsSafe _ safe) safe
  handler-IsSafe (set_pmd pmdp pmd) =
      let safe = snative_write-IsSafe (set_pmd pmdp pmd) in
      and_then-IsSafe _ _ (gate-IsSafe _ safe) safe
  handler-IsSafe (write_cr0 val) = gate-IsSafe _ (snative_write-IsSafe (write_cr0 val))
  handler-IsSafe (write_cr4 val) = gate-IsSafe _ (snative_write-IsSafe (write_cr4 val))
  handler-IsSafe (write_cr8 val) = gate-IsSafe _ (snative_write-IsSafe (write_cr8 val))

  pure-IsSafe : IsSafe (pure tt)
  unfolding IsSafe
  pure-IsSafe m home = (tt, _, refl, Kept-SameGate refl)

  cr2-IsSafe : (address : ℕ) → IsSafe (modify (λ m. record m { cr2 = address }))
  unfolding IsSafe
  cr2-IsSafe address m home = (tt, _, refl, Kept-SameGate refl)

  print-IsSafe : (n : Notice) → IsSafe (print n)
  unfolding IsSafe
  print-IsSafe n m home = (tt, _, refl, Kept-SameGate refl)

  module _ (task_size_max regs error_code : ℕ) where
    sdo_page_fault-IsSafe :
        (c : Cmd Machine (Unit {0}))
        → IsSafe c
        → IsSafe (sdo_page_fault task_size_max (λ r e a. c) regs error_code)
    unfolding IsSafe sdo_page_fault
    sdo_page_fault-IsSafe c h m home = elim (Bool-cases (leb task_size_max m.cr2)) [
      | inl high ↦ rw high (and_then-IsSafe _ c (print-IsSafe attention_notice) h m home)
      | inr low ↦ rw low (h m home)
    ]

    new_do_page_fault-IsSafe :
        (c : Cmd Machine (Unit {0}))
        → IsSafe c
        → IsSafe (new_do_page_fault pa va task_size_max (λ r e a. c) regs error_code)
    unfolding IsSafe new_do_page_fault
    new_do_page_fault-IsSafe c h m home =
        let body = sdo_page_fault task_size_max (λ r e a. c) regs error_code in
        let safe = sdo_page_fault-IsSafe c h in
        elim (Bool-cases (leb task_size_max m.cr2)) [
          | inl high ↦ rw high (
              and_then-IsSafe _ body
                (and_then-IsSafe (print coming_notice) (open_gate pa va >> body >> close_gate)
                  (print-IsSafe coming_notice) (gate-IsSafe body safe))
                safe m home)
          | inr low ↦ rw low (safe m home)
        ]

  new_vmx_vcpu_run-IsSafe :
      (c : Cmd Machine (Unit {0}))
      → IsSafe c
      → (vcpu : ℕ) → IsSafe (new_vmx_vcpu_run pa va (λ v. c) vcpu)
  unfolding IsSafe
  new_vmx_vcpu_run-IsSafe c h vcpu m home =
      let (a, v, run, p) =
        new_vmx_vcpu_run-runs pa va (λ v. c) vcpu m (λ u. u.oldcr3 ≡ table)
          (ap (λ t. pa (va t)) home ∙ linear ∙ sym home)
          (λ k off same saved.
            let (b, u, e, q) = h k (same ∙ home) in
            let old = q.old (saved ∙ home) in
            (b, u, e, (q.restored.stack, old ∙ sym (saved ∙ home), old))) in
      let (u, old, memory, trace, same) = p.1 in
      (a, v, run, record { restored = p.0; old = λ x. same ∙ old })

  module _ (task_size_max : ℕ) where
    work-IsSafe : (w : Work) → IsSafe (work pa va task_size_max w)
    unfolding work
    work-IsSafe done = pure-IsSafe
    work-IsSafe (call c rest) = and_then-IsSafe _ _ (handler-IsSafe c) (work-IsSafe rest)
    work-IsSafe (page_fault address regs error_code inner rest) =
        and_then-IsSafe _ _
          (and_then-IsSafe _ _ (cr2-IsSafe address)
            (new_do_page_fault-IsSafe task_size_max regs error_code _ (work-IsSafe inner)))
          (work-IsSafe rest)
    work-IsSafe (vcpu_run vcpu inner rest) =
        and_then-IsSafe _ _ (new_vmx_vcpu_run-IsSafe _ (work-IsSafe inner) vcpu) (work-IsSafe rest)

    -- Where __pa undoes __va, whatever gated writes of page-table entries, cr0, cr4 and cr8, page
    -- faults and runs of virtual CPUs the kernel enters, one after another or one inside another to
    -- any depth, all return, and leave the processor on the table that it was on, with the interrupt
    -- flag and the stack of before.
    pub work-Restored :
        (w : Work) (m : Machine)
        → m.cr3 ≡ table
        → Returns (work pa va task_size_max w m) λ _ u. Restored m u
    unfolding IsSafe
    work-Restored w m home = let (a, u, run, p) = work-IsSafe w m home in (a, u, run, p.restored)

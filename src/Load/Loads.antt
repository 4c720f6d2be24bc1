-- ===== src/Load/Loads.antt =====
-- What loading leaves, and what unloading undoes.
use hyper_mi.Base.{ℕ, ◌^◌, ◌<◌, ◌≡◌, refl, ap, ◌∙◌, false, List, ◌∷◌, Cmd, ◌>>=◌, Returns}
use hyper_mi.Hook.Data.{Site}
use hyper_mi.Hook.Effect.{OnePage}
use hyper_mi.Hook.RoundTrip.{All, covered, Apart}
use hyper_mi.Hook.Order.{init_sites}
use hyper_mi.Hook.Unload.{install_hooks-unloads}
use hyper_mi.Hook.Mediation.{Jumps, install_hooks-mediates}
use hyper_mi.Gate.Machine.{Machine, KvmPfnSt, flushed}
use hyper_mi.Gate.Writes.{Restored}
use hyper_mi.Kvm.Sets.{NoneRan, IsWrite, init_struct-clears, sec_monitor_test-restores}
use hyper_mi.Load.{System, my_init, my_exit}

module _ (lookup_address : ℕ → ℕ) (target mock : Site → ℕ) (pa va : ℕ → ℕ)
    (clear_page : ℕ → (ℕ → ℕ) → ℕ → ℕ) (write_cr0 write_cr4 : ℕ → Cmd Machine (Unit {0}))
    (write0 : IsWrite write_cr0) (write4 : IsWrite write_cr4)
    (pages : All (λ s. OnePage lookup_address (target s)) init_sites)
    (apart : Apart lookup_address target) (s : System) (a b : ℕ) (rest : List ℕ)
    (given : s.machine.pages ≡ a ∷ b ∷ rest) where
  -- The module is in place.
  pub record IsLoaded (v : System) : Type 0 where
    pub jumps : All (Jumps lookup_address target mock v.kernel) init_sites
    pub text :
        (x : ℕ)
        → covered lookup_address target init_sites x ≡ false
        → v.kernel.text x ≡ s.kernel.text x
    pub restored : Restored s.machine v.machine
    pub none_ran : NoneRan v.machine
    pub old_cr3 : v.old_cr3 ≡ s.machine.cr3
    pub left : v.machine.pages ≡ rest

  -- If the allocator gives two pages, the kernel's writes of cr0 and cr4 leave cr3, the interrupt
  -- flag, the stack and the allocator alone, and the thirteen functions each stand on one mapped page
  -- and do not overlap: loading returns 0, with cr3, the interrupt flag and the stack of before; each
  -- of the functions jumps to its replacement, and no other byte of text has changed; no VM counts as
  -- having run, and old_cr3 holds cr3. The replacements have addresses of 64 bits.
  pub my_init-loads :
      ((t : Site) → mock t < 2 ^ 64)
      → Returns
          (my_init lookup_address target mock pa va clear_page write_cr0 write_cr4 s)
          λ r v. (r ≡ 0) × IsLoaded v
  unfolding my_init
  my_init-loads small =
      let (r, m, e, p) =
        init_struct-clears clear_page a (b ∷ rest) s.machine given write_cr0 write_cr4 write0
          write4 in
      let n = record m { trace = flushed ∷ flushed ∷ m.trace } in
      let (u, o, f, q) = sec_monitor_test-restores clear_page b rest n p.2 pa va in
      let (w, k, g, h) =
        install_hooks-mediates lookup_address target mock s.kernel pages apart small in
      rw (e, f, g)
        (
          0,
          _,
          refl,
          (
            refl,
            record {
              jumps = h.0;
              text = h.1;
              restored = record {
                cr3 = q.0.cr3 ∙ p.1.cr3;
                interrupts = q.0.interrupts ∙ p.1.interrupts;
                stack = q.0.stack ∙ p.1.stack;
              };
              none_ran = λ j low. ap (λ (g : ℕ → KvmPfnSt). (g j).count_vmcs_wr) q.2 ∙ p.3 j low;
              old_cr3 = q.0.cr3 ∙ p.1.cr3;
              left = q.1;
            },
          ),
        )

  -- If the allocator gives two pages, the kernel's writes of cr0 and cr4 leave cr3, the interrupt
  -- flag, the stack and the allocator alone, and the thirteen functions each stand on one mapped page
  -- and do not overlap: loading and then unloading returns, and leaves the text, cr3, the interrupt
  -- flag and the stack of before. The two pages are lost.
  pub my_init-my_exit :
      Returns
        ((my_init lookup_address target mock pa va clear_page write_cr0 write_cr4 >>= λ r.
            my_exit lookup_address)
          s)
        λ _ v.
          ((x : ℕ) → v.kernel.text x ≡ s.kernel.text x)
          × Restored s.machine v.machine
          × (v.machine.pages ≡ rest)
  unfolding my_init my_exit
  my_init-my_exit =
      let (r, m, e, p) =
        init_struct-clears clear_page a (b ∷ rest) s.machine given write_cr0 write_cr4 write0
          write4 in
      let n = record m { trace = flushed ∷ flushed ∷ m.trace } in
      let (u, o, f, q) = sec_monitor_test-restores clear_page b rest n p.2 pa va in
      let (w, k, g, undone) =
        install_hooks-unloads lookup_address target mock s.kernel pages apart in
      let (x, j, i, same) = undone in
      rw (e, f, g, i)
        (
          tt,
          _,
          refl,
          (
            same.0,
            record {
              cr3 = q.0.cr3 ∙ p.1.cr3;
              interrupts = q.0.interrupts ∙ p.1.interrupts;
              stack = q.0.stack ∙ p.1.stack;
            },
            q.1,
          ),
        )

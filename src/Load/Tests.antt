-- ===== src/Load/Tests.antt =====
-- A session on a kernel in which one entry maps every function, and the functions stand apart.
use hyper_mi.Base.{ℕ, ◌+◌, ◌*◌, ◌<◌, ◌≡◌, refl, arith, [], ◌∷◌, List, Cmd, modify, ◌>>=◌, Returns}
use hyper_mi.Hook.Data.{Site, index}
use hyper_mi.Hook.Effect.{OnePage}
use hyper_mi.Hook.RoundTrip.{All, Apart}
use hyper_mi.Hook.Order.{init_sites}
use hyper_mi.Gate.Sample.{sample}
use hyper_mi.Gate.Machine.{Machine}
use hyper_mi.Gate.Writes.{Restored}
use hyper_mi.Kvm.Sets.{IsWrite}
use hyper_mi.Load.{System, my_init, my_exit}
use hyper_mi.Load.Loads.{IsLoaded, my_init-loads, my_init-my_exit}

abbrev one_entry : ℕ → ℕ
one_entry address = 1

abbrev target : Site → ℕ
target s = 16 * index s

abbrev mock : Site → ℕ
mock s = 0x1000 + index s

pages : (ss : List Site) → All (λ s. OnePage one_entry (target s)) ss
pages [] = tt
pages (s ∷ ss) = (record { mapped = omega arith; same = λ x e. refl }, pages ss)

target-Apart : Apart one_entry target
target-Apart s t x different inside = ground arith

index_small : (s : Site) → index s < 64
unfolding index
index_small s = ground arith

abbrev same : ℕ → ℕ
same x = x

abbrev system : System
system = record {
  kernel = record { text = λ x. x; entry = λ x. 0; mem = λ s. 0; orig_code = λ s. []; log = [] };
  machine = record sample { pages = 0x5000 ∷ 0x6000 ∷ [] };
  old_cr3 = 0;
}

abbrev clear_page : ℕ → (ℕ → ℕ) → ℕ → ℕ
clear_page a f x = 0

abbrev set_cr0 : ℕ → Cmd Machine (Unit {0})
set_cr0 v = modify (λ m. record m { cr0 = v })

abbrev set_cr4 : ℕ → Cmd Machine (Unit {0})
set_cr4 v = modify (λ m. record m { cr4 = v })

set_cr0-IsWrite : IsWrite set_cr0
set_cr0-IsWrite v n = (
  tt,
  _,
  refl,
  record { restored = record { cr3 = refl; interrupts = refl; stack = refl }; pages = refl },
)

set_cr4-IsWrite : IsWrite set_cr4
set_cr4-IsWrite v n = (
  tt,
  _,
  refl,
  record { restored = record { cr3 = refl; interrupts = refl; stack = refl }; pages = refl },
)

my_init-loads_example :
    Returns (my_init one_entry target mock same same clear_page set_cr0 set_cr4 system) λ r v.
      (r ≡ 0)
      × IsLoaded one_entry target mock same same clear_page set_cr0 set_cr4 set_cr0-IsWrite
          set_cr4-IsWrite
          (pages init_sites)
          target-Apart
          system
          0x5000
          0x6000
          []
          refl
          v
my_init-loads_example =
    my_init-loads one_entry target mock same same clear_page set_cr0 set_cr4 set_cr0-IsWrite
      set_cr4-IsWrite (pages init_sites) target-Apart system 0x5000 0x6000 [] refl
      (λ t. omega (arith, index_small t))

my_init-my_exit_example :
    Returns
      ((my_init one_entry target mock same same clear_page set_cr0 set_cr4 >>= λ r.
          my_exit one_entry)
        system)
      λ _ v.
        ((x : ℕ) → v.kernel.text x ≡ x) × Restored system.machine v.machine × (v.machine.pages ≡ [])
my_init-my_exit_example =
    my_init-my_exit one_entry target mock same same clear_page set_cr0 set_cr4 set_cr0-IsWrite
      set_cr4-IsWrite (pages init_sites) target-Apart system 0x5000 0x6000 [] refl

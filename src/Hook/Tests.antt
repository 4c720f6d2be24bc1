-- ===== src/Hook/Tests.antt =====
-- The hooks on a kernel in which one entry maps every function, and the functions stand apart.
use hyper_mi.Base.{
  ℕ, ◌+◌, ◌*◌, ◌/◌, inr, fault, ◌%◌, ◌<◌, ◌≡◌, refl, arith, false, some, List, [], ◌∷◌, within,
  read, ◌>>◌, Returns,
}
use hyper_mi.Hook.Data.{Site, index, Kernel}
use hyper_mi.Hook.Install.{set_hook_at}
use hyper_mi.Hook.Jump.{jump_target}
use hyper_mi.Hook.Effect.{OnePage, set_hook_at-redirects}
use hyper_mi.Hook.RoundTrip.{All, Apart, covered}
use hyper_mi.Hook.Session.{my_exit, install_hooks}
use hyper_mi.Hook.Order.{init_sites}
use hyper_mi.Hook.Mediation.{Jumps, install_hooks-mediates}
use hyper_mi.Hook.Unload.{AreOpen, install_hooks-my_exit}
use hyper_mi.Hook.Opened.{install_hooks-AreOpen, set_hook_at-faults}

abbrev one_entry : ℕ → ℕ
one_entry address = 1

abbrev kernel : Kernel
kernel = record { text = λ x. x % 256; entry = λ x. 0; mem = λ s. 0; orig_code = λ s. []; log = [] }

abbrev target : Site → ℕ
target s = 16 * index s

abbrev mock : Site → ℕ
mock s = 0x1000 + index s

every-OnePage : (to : ℕ) → OnePage one_entry to
every-OnePage to = record { mapped = omega arith; same = λ x e. refl }

pages : (ss : List Site) → All (λ s. OnePage one_entry (target s)) ss
pages [] = tt
pages (s ∷ ss) = (every-OnePage (target s), pages ss)

target-Apart : Apart one_entry target
target-Apart s t x different inside = ground arith

index_small : (s : Site) → index s < 64
unfolding index
index_small s = ground arith

set_hook_at-redirects_example :
    Returns (set_hook_at one_entry Site.pte 0x40 0xffffffffa0000000 kernel) λ _ k'.
      (jump_target k'.text 0x40 ≡ some 0xffffffffa0000000)
      × (k'.mem Site.pte ≡ 0x40)
      × (k'.orig_code Site.pte ≡ read kernel.text 0x40 12)
      × ((x : ℕ) → within 0x40 12 x ≡ false → k'.text x ≡ kernel.text x)
set_hook_at-redirects_example =
    set_hook_at-redirects one_entry Site.pte 0x40 0xffffffffa0000000 kernel (every-OnePage 0x40)
      (omega arith)

install_hooks-my_exit_example :
    Returns
      ((install_hooks one_entry target mock >> my_exit one_entry) kernel)
      λ _ k'. (x : ℕ) → k'.text x ≡ x % 256
install_hooks-my_exit_example =
    install_hooks-my_exit one_entry target mock kernel (pages init_sites) target-Apart

install_hooks-mediates_example : Returns (install_hooks one_entry target mock kernel) λ _ k'.
    All (Jumps one_entry target mock k') init_sites
    × ((x : ℕ) → covered one_entry target init_sites x ≡ false → k'.text x ≡ x % 256)
install_hooks-mediates_example =
    install_hooks-mediates one_entry target mock kernel (pages init_sites) target-Apart
      (λ s. omega (arith, index_small s))

-- Each page of 4096 bytes has an entry of its own.
abbrev by_page : ℕ → ℕ
by_page address = 1 + address / 4096

install_hooks-AreOpen_example :
    Returns
      ((install_hooks one_entry target mock >> my_exit one_entry) kernel)
      λ _. AreOpen one_entry target mock
install_hooks-AreOpen_example =
    install_hooks-AreOpen one_entry target mock kernel (pages init_sites) target-Apart

set_hook_at-faults_example : set_hook_at by_page Site.pte 0xffc 0x1000 kernel ≡ fault
set_hook_at-faults_example =
    set_hook_at-faults by_page Site.pte 0xffc 0x1000 kernel (inr (0x1001, refl, omega arith, refl))

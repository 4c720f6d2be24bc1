-- ===== src/Smp/Tests.antt =====
-- Processors that are about to write through the gate.
use hyper_mi.Base.{
  ◌≢◌, arith, Returns, arith, ℕ, ◌≡◌, refl, ◌+◌, ◌*◌, update, true, false, [], ◌==◌,
}
use hyper_mi.Gate.Sample.{sample}
use hyper_mi.Smp.{
  Point, outside, closed, seen, has_table, inside, Cpu, Smp, statement, pick, enter, Reach, start,
  later,
}
use hyper_mi.Smp.Calls.{Protects, Call, set_pte, write_cr0}
use hyper_mi.Smp.Safe.{Reach-restores}
use hyper_mi.Smp.Finish.{Own, Reach-finishes}
use hyper_mi.Smp.Protected.{Reach-Protects}
use hyper_mi.Smp.Delivers.{has_written, Reach-delivers}
use hyper_mi.Smp.Race.{Reach-overtakes}

abbrev same : ℕ → ℕ
same x = x

-- A processor before its statement `p`, on a table.
abbrev ready : ℕ → Call → Point → Cpu
ready table c p = record {
  cr0 = 0x80010033;
  cr3 = table;
  cr4 = 0x20;
  cr8 = 0;
  interrupts = true;
  stack = [];
  call = c;
  point = p;
}

-- Processor `i` runs on table `tables i`.
abbrev entering : (ℕ → ℕ) → Smp
entering tables = record {
  shared = sample;
  cpu = λ i. ready (tables i) (set_pte (8 * i) (i + 1)) outside;
}

abbrev together : Smp
together = entering (λ i. 0x2000)

abbrev apart : Smp
apart = entering (λ i. 0x1000 * i)

-- Processor 0 has run one statement, and then processor 1, with another call.
abbrev one_each : Smp
one_each = record {
  shared = record sample {
    cr0 = 0x80010033;
    cr3 = 0x2000;
    cr4 = 0x20;
    cr8 = 0;
    interrupts = true;
    stack = [];
    pgd_addr_cp_gate = 0x2000;
  };
  cpu =
      update
        (update (update together.cpu 0 (ready 0x2000 (set_pte 0 1) has_table)) 1
          (ready 0x2000 (write_cr0 0x33) outside))
        1 (ready 0x2000 (write_cr0 0x33) has_table);
}

together-one_each : Reach same same together one_each
unfolding statement
together-one_each =
    later (later (later start (pick 0 refl)) (enter 1 (write_cr0 0x33) refl)) (pick 1 refl)

Reach-restores_example :
    (one_each.cpu 1).cr3 ≡ 0x2000
    × ((one_each.cpu 1).point ≡ inside → (one_each.cpu 1).interrupts ≡ false)
    × ((one_each.cpu 1).point ≡ outside
        → (one_each.cpu 1).interrupts ≡ true × (one_each.cpu 1).stack ≡ [])
Reach-restores_example =
    Reach-restores same same 0x2000 refl (λ i. refl) (λ i. refl) together-one_each 1

Reach-finishes_example :
    (u : Smp) × Own same same 1 one_each u
    × (u.cpu 1).point ≡ outside
    × (u.cpu 1).interrupts ≡ true
    × (u.cpu 1).stack ≡ []
    × ((j : ℕ) → j == 1 ≡ false → u.cpu j ≡ one_each.cpu j)
Reach-finishes_example = Reach-finishes same same (λ i. refl) together-one_each 1

Reach-overtakes_example :
    (t : Smp) × Reach same same apart t
    × (t.cpu 0).point ≡ outside
    × (t.cpu 0).cr3 ≡ 0x1000
    × (t.cpu 0).cr3 ≢ (apart.cpu 0).cr3
    × (t.cpu 1).point ≡ outside
    × (t.cpu 1).cr3 ≡ 0x1000
Reach-overtakes_example = Reach-overtakes same same {s = apart} (λ i. refl) 0 1 refl (omega arith)

Reach-Protects_example : Protects (one_each.cpu 1).cr0
Reach-Protects_example = Reach-Protects same same (λ i. refl) (λ i. refl) together-one_each 1

-- Processor 0 runs seven statements, and processor 1 one in between.
abbrev wrote : (t : Smp) × Reach same same together t
unfolding statement
wrote =
    let one = later (later start (pick 0 refl)) (pick 1 refl) in
    let two = later (later (later one (pick 0 refl)) (pick 0 refl)) (pick 0 refl) in
    (_, later (later (later two (pick 0 refl)) (pick 0 refl)) (pick 0 refl))

Reach-delivers_example :
    (has_written (wrote.0.cpu 0).point ≡ true → wrote.0.shared.memory 0 ≡ 1)
    × ((wrote.0.cpu 0).point ≡ closed
        → Returns
            (statement same same (wrote.0.cpu 0).call closed (seen wrote.0.shared (wrote.0.cpu 0)))
            λ _ n. n.memory 0 ≡ 1)
unfolding wrote
Reach-delivers_example =
    Reach-delivers same same 0 0 1 {t = wrote.0} (λ j. refl) (λ j far. ground arith) wrote.1
      (((((((((tt, tt), tt), tt), tt), tt), tt), tt), tt)) (refl, refl)

-- ===== src/Smp/Protected.antt =====
-- No gated write turns write protection off, on any processor.
use hyper_mi.Base.{ℕ, ◌≡◌, Returns-unique}
use hyper_mi.Smp.{outside, Cpu, Smp, seen, moved, Step, pick, enter, Reach, start, later}
use hyper_mi.Smp.Calls.{Protects}
use hyper_mi.Smp.Effects.{statement-Does}
use hyper_mi.Smp.Calm.{AreCalm, Reach-AreCalm, outside-AreCalm, update-All}

module _ (pa va : ℕ → ℕ) where
  Step-Protects :
      (first : ℕ → Cpu) {s t : Smp}
      → Step pa va s t
      → AreCalm pa va first s
      → ((i : ℕ) → Protects (s.cpu i).cr0)
      → (i : ℕ) → Protects (t.cpu i).cr0
  Step-Protects first {s} (pick i {m} run) calm h =
      let c = s.cpu i in
      update-All (λ j d. Protects d.cr0) s.cpu i (moved m c)
        ((Returns-unique _
            (statement-Does pa va (first i) c.call c.point (seen s.shared c) (calm i)) run).protects
          (h i))
        h
  Step-Protects first {s} (enter i a out) calm h =
      update-All (λ j d. Protects d.cr0) s.cpu i (record (s.cpu i) { call = a }) (h i) h

  -- When every processor starts outside the handlers with bit 16 of its cr0 set, the write
  -- protection, then whatever values the processors ask the handlers for, and however the statements
  -- interleave, the bit stays set on each.
  pub Reach-Protects :
      {s t : Smp}
      → ((i : ℕ) → (s.cpu i).point ≡ outside)
      → ((i : ℕ) → Protects (s.cpu i).cr0)
      → Reach pa va s t
      → (i : ℕ) → Protects (t.cpu i).cr0
  Reach-Protects out h start = h
  Reach-Protects {s} out h (later r step) =
      Step-Protects s.cpu step (Reach-AreCalm pa va s.cpu r (outside-AreCalm pa va s out))
        (Reach-Protects out h r)

-- ===== src/Base/Outcome.antt =====
-- Runs of code that changes a state: a fault is an access that C leaves undefined or that the
-- processor refuses, and a starved run waits for an input that never comes.

use mathlib.Core.Path.{◌≡◌, refl, subst₂}
use mathlib.Core.Logic.{◌≢◌}

pub data Run {ℓ κ} (S : Type ℓ) (A : Type κ) : Type (ℓ ⊔ κ) where
  ok : A → S → Run S A
  fault : Run S A
  starved : Run S A

abbrev pub Cmd {ℓ κ} : Type ℓ → Type κ → Type (ℓ ⊔ κ)
Cmd S A = S → Run S A

module _ {ℓ κ λ'} {S : Type ℓ} {A : Type κ} {B : Type λ'} where
  abbrev pub and_then : Run S A → (A → Cmd S B) → Run S B
  and_then (ok a s) k = k a s
  and_then fault k = fault
  and_then starved k = starved

  infixl 5 ◌>>=◌
  abbrev pub ◌>>=◌ : Cmd S A → (A → Cmd S B) → Cmd S B
  m >>= k = λ s. and_then (m s) k

infixl 5 ◌>>◌
abbrev pub ◌>>◌ {ℓ κ} : {S : Type ℓ} {B : Type κ} → Cmd S (Unit {0}) → Cmd S B → Cmd S B
m >> k = m >>= λ _. k

abbrev pub pure {ℓ κ} : {S : Type ℓ} {A : Type κ} → A → Cmd S A
pure a s = ok a s

-- A step that cannot fault.
abbrev pub modify {ℓ} : {S : Type ℓ} → (S → S) → Cmd S (Unit {0})
modify f s = ok tt (f s)

-- Total correctness of a run: it returns, and leaves a state as described.
abbrev pub Returns {ℓ κ λ'} :
    {S : Type ℓ} {A : Type κ} → Run S A → (A → S → Type λ') → Type (ℓ ⊔ κ ⊔ λ')
Returns {S} {A} r P = (a : A) × (s : S) × (r ≡ ok a s) × P a s

module _ {ℓ κ λ' μ} {S : Type ℓ} {A : Type κ} {B : Type λ'} where
  pub and_then_assoc :
      (r : Run S A) (f : A → Cmd S B) {C : Type μ} (g : B → Cmd S C)
      → and_then (and_then r f) g ≡ and_then r (λ a s. and_then (f a s) g)
  and_then_assoc (ok a s) f g = refl
  and_then_assoc fault f g = refl
  and_then_assoc starved f g = refl

module _ {ℓ} {S : Type ℓ} where
  pub Returns-and_then {κ λ' μ ν} :
      {A : Type κ} {B : Type λ'} {r : Run S A} {f : A → Cmd S B} {P : A → S → Type μ}
      {Q : B → S → Type ν}
      → Returns r P
      → ((a : A) (s : S) → P a s → Returns (f a s) Q)
      → Returns (and_then r f) Q
  Returns-and_then {f} {Q} (a, s, e, p) next = rw e (next a s p)

  -- A run has one outcome.
  pub Returns-unique {κ μ} :
      {A : Type κ} {r : Run S A} (P : A → S → Type μ) {a : A} {s : S}
      → Returns r P
      → r ≡ ok a s
      → P a s
  Returns-unique P (b, t, e, p) run = subst₂ P (cc) (cc) p

  pub ok-state {κ} :
      {A : Type κ} {r : Run S A} {a b : A} {s t : S} → r ≡ ok a s → r ≡ ok b t → s ≡ t
  ok-state p q = cc

  pub ok-ne-fault {κ} : {A : Type κ} {r : Run S A} {a : A} {s : S} → r ≡ ok a s → r ≢ fault
  ok-ne-fault p q = cc

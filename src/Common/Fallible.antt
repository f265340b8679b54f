-- ===== src/Common/Fallible.antt =====
-- `Result<A, E>` with an error type of its own, and the operator `?`.
use mathlib.Core.Path.{◌≡◌, refl}
use mathlib.Core.Bool.{Bool, true, false}
use cyclonedds_rs.Common.Tests.{if◌then◌else◌}

pub data Checked {ℓ ℓ'} (E : Type ℓ) (A : Type ℓ') : Type (ℓ ⊔ ℓ') where
  accepted : A → Checked E A
  rejected : E → Checked E A

module _ {ℓ ℓ' ℓ''} {E : Type ℓ} {A : Type ℓ'} {B : Type ℓ''} where
  abbrev pub on_accepted : Checked E A → (A → Checked E B) → Checked E B
  on_accepted (accepted a) next = next a
  on_accepted (rejected e) next = rejected e

module _ {ℓ ℓ'} {E : Type ℓ} {A : Type ℓ'} where
  pub accepted-rejected : {a : A} {e : E} → accepted a ≡ rejected e → ⊥
  accepted-rejected h = cc

  pub rejected-accepted : {a : A} {e : E} → rejected e ≡ accepted a → ⊥
  rejected-accepted h = cc

  pub accepted-injective : {a b : A} → ◌≡◌ {A = Checked E A} (accepted a) (accepted b) → a ≡ b
  accepted-injective h = cc

module _ {ℓ ℓ' ℓ''} {E : Type ℓ} {A : Type ℓ'} {B : Type ℓ''} where
  pub on_accepted_inverse :
      (r : Checked E A) (next : A → Checked E B) (b : B)
      → on_accepted r next ≡ accepted b
      → (a : A) × (r ≡ accepted a) × (next a ≡ accepted b)
  on_accepted_inverse (accepted a) next b h = (a, refl, h)
  on_accepted_inverse (rejected e) next b h = absurd (rejected-accepted h)

module _ {ℓ ℓ'} {E : Type ℓ} {A : Type ℓ'} where
  pub if-accepted_else :
      (t : Bool) (r : Checked E A) (e : E) (a : A)
      → (if t then r else rejected e) ≡ accepted a
      → (t ≡ true) × (r ≡ accepted a)
  if-accepted_else true r e a h = (refl, h)
  if-accepted_else false r e a h = absurd (rejected-accepted h)

  pub if-accepted_then :
      (t : Bool) (r : Checked E A) (e : E) (a : A)
      → (if t then rejected e else r) ≡ accepted a
      → (t ≡ false) × (r ≡ accepted a)
  if-accepted_then true r e a h = absurd (rejected-accepted h)
  if-accepted_then false r e a h = (refl, h)

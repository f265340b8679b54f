-- ===== src/InterfaceGen/Paths.antt =====
-- Keys on the path of a registration of cyclonedds/src/interface_gen.rs, and how one ends.
use cyclonedds_rs.Common.{
  ◌≡◌, ◌↔◌, refl, ap, true, List, [], ◌∷◌, ◌++◌, if◌then◌else◌, arith, bytes_eq_iff,
}
use cyclonedds_rs.InterfaceGen.{
  Key, key_eq, contains, last_is, pop, Outcome, done, conflicting, cyclic, out_of_order,
  out_of_fuel, and_then,
}

pair-≡ : {k k' : Key} → k.0 ≡ k'.0 → k.1 ≡ k'.1 → k ≡ k'
pair-≡ p q = λ i. (p i, q i)

pub key_eq_iff : (k k' : Key) → (key_eq k k' ≡ true) ↔ (k ≡ k')
unfolding key_eq
key_eq_iff (pkg, name) (pkg', name') = (
  (λ h.
      pair-≡ ((bytes_eq_iff pkg pkg').0 (ground arith))
        ((bytes_eq_iff name name').0 (ground arith))),
  λ h.
      rw
        ((bytes_eq_iff pkg pkg').1 (ap (λ k. k.0) h), (bytes_eq_iff name name').1 (ap (λ k. k.1) h))
        refl,
)

pub contains-append :
    (k k' : Key) (keys : List Key)
    → contains k (keys ++ k' ∷ []) ≡ (if contains k keys then true else key_eq k k')
unfolding contains
contains-append k k' [] = ground arith
contains-append k k' (x ∷ keys) = ground (arith, contains-append k k' keys)

pub last_is-append : (k : Key) (keys : List Key) → last_is k (keys ++ k ∷ []) ≡ true
unfolding last_is
last_is-append k [] = (key_eq_iff k k).1 refl
last_is-append k (x ∷ []) = (key_eq_iff k k).1 refl
last_is-append k (x ∷ y ∷ keys) = last_is-append k (y ∷ keys)

pub pop-append : (k : Key) (keys : List Key) → pop (keys ++ k ∷ []) ≡ keys
unfolding pop
pop-append k [] = refl
pop-append k (x ∷ []) = refl
pop-append k (x ∷ y ∷ keys) = ap (λ l. x ∷ l) (pop-append k (y ∷ keys))

-- The registration ends in one of the source's ways: it is done, and `P` holds, or it panics over a
-- conflict or a cycle.
abbrev pub Ends {ℓ} : {A : Type ℓ} → (A → Type 0) → Outcome A → Type 0
Ends P (done a) = P a
Ends P (conflicting key) = Unit
Ends P (cyclic path) = Unit
Ends P out_of_order = ⊥
Ends P out_of_fuel = ⊥

pub and_then-Ends {ℓ ℓ'} :
    {A : Type ℓ} {B : Type ℓ'} (P : A → Type 0) (Q : B → Type 0) (f : A → Outcome B) (o : Outcome A)
    → Ends P o
    → ((a : A) → P a → Ends Q (f a))
    → Ends Q (and_then o f)
and_then-Ends P Q f (done a) p h = h a p
and_then-Ends P Q f (conflicting key) p h = tt
and_then-Ends P Q f (cyclic path) p h = tt
and_then-Ends P Q f out_of_order p h = elim p [ ]
and_then-Ends P Q f out_of_fuel p h = elim p [ ]

pub Ends-map {ℓ} :
    {A : Type ℓ} (P Q : A → Type 0) (o : Outcome A) → ((a : A) → P a → Q a) → Ends P o → Ends Q o
Ends-map P Q (done a) f p = f a p
Ends-map P Q (conflicting key) f p = tt
Ends-map P Q (cyclic path) f p = tt
Ends-map P Q out_of_order f p = elim p [ ]
Ends-map P Q out_of_fuel f p = elim p [ ]

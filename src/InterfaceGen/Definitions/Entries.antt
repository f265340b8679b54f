-- ===== src/InterfaceGen/Definitions/Entries.antt =====
-- The lists of types that `DefRegistry` of cyclonedds/src/interface_gen.rs holds, and its path of
-- types that are visited.
use cyclonedds_rs.Common.{
  ℕ, suc, ◌≤◌, ◌<◌, ◌≡◌, ◌⊎◌, inl, inr, refl, sym, ap, ◌∙◌, true, false, List, [], ◌∷◌, ◌++◌, none,
  some, if◌then◌else◌, arith, length, Bool-cases, none-some, some-injective, false-true,
}
use cyclonedds_rs.InterfaceGen.{
  Text, Key, FieldType, primitive, vec, array, struct, key_eq, contains, Seen, get_seen,
}
use cyclonedds_rs.InterfaceGen.Paths.{key_eq_iff, contains-append}
use cyclonedds_rs.InterfaceGen.Namespaces.{NsMode}
use cyclonedds_rs.InterfaceGen.Definitions.{Interfaces, DefRegistry}

pub not_less : {n : ℕ} → n < 0 → ⊥
not_less h = omega arith

abbrev pub Member : ℕ → List ℕ → Type 0
Member t [] = ⊥
Member t (u ∷ us) = (t ≡ u) ⊎ Member t us

module _ (types : Interfaces) (mode : NsMode) where
  open types use {key, idl_def, fields}

  -- A type of that name with that definition stands in the list.
  abbrev pub Defined : ℕ → List ℕ → Type 0
  Defined s [] = ⊥
  Defined s (t ∷ order) = ((key s ≡ key t) × (idl_def s mode ≡ idl_def t mode)) ⊎ Defined s order

  abbrev pub IsField : (ℕ → Type 0) → FieldType → Type 0
  IsField P primitive = Unit
  IsField P (vec elem) = IsField P elem
  IsField P (array elem n) = IsField P elem
  IsField P (struct s) = P s

  abbrev pub AreFields : (ℕ → Type 0) → List FieldType → Type 0
  AreFields P [] = Unit
  AreFields P (f ∷ fs) = IsField P f × AreFields P fs

  -- The types of a list, the one registered last first, as the registry holds them.
  abbrev pub seen_of : List ℕ → Seen
  seen_of [] = []
  seen_of (t ∷ order) = (key t, idl_def t mode) ∷ seen_of order

  abbrev pub entries_of : List ℕ → List Text
  entries_of [] = []
  entries_of (t ∷ order) = entries_of order ++ idl_def t mode ∷ []

  -- Each type of the list comes after those that its fields name, and its name is new.
  abbrev pub Topological : List ℕ → Type 0
  Topological [] = Unit
  Topological (t ∷ order) =
      AreFields (λ s. Defined s order) (fields t)
      × (get_seen (key t) (seen_of order) ≡ none)
      × Topological order

  abbrev pub state : List ℕ → List Key → DefRegistry
  state order visiting = record {
    seen = seen_of order;
    visiting = visiting;
    entries = entries_of order;
    mode = mode;
  }

  -- No type that is visited is registered.
  abbrev pub Apart : List Key → List ℕ → Type 0
  Apart visiting order = (k : Key) → contains k visiting ≡ true → get_seen k (seen_of order) ≡ none

  -- How many of the types are not visited.
  abbrev pub unvisited : List Key → List ℕ → ℕ
  unvisited visiting [] = 0
  unvisited visiting (u ∷ us) =
      let rest = unvisited visiting us in if contains (key u) visiting then rest else suc rest

  pub unvisited-length : (us : List ℕ) → unvisited [] us < suc (length us)
  unfolding contains
  unvisited-length [] = omega arith
  unvisited-length (u ∷ us) = ground (arith, unvisited-length us)

  pub seen-Defined :
      (s : ℕ) (order : List ℕ) (text : Text)
      → get_seen (key s) (seen_of order) ≡ some text
      → text ≡ idl_def s mode
      → Defined s order
  unfolding get_seen
  seen-Defined s [] text e d = elim (none-some e) [ ]
  seen-Defined s (t ∷ order) text e d = elim (Bool-cases (key_eq (key s) (key t))) [
    | inl h ↦ inl (
      (key_eq_iff (key s) (key t)).0 h,
      sym d
          ∙ sym (
              some-injective (
                ap (λ b. if b then some (idl_def t mode) else get_seen (key s) (seen_of order))
                  (sym h)
                ∙ e)),
    )
    | inr h ↦ inr (
        seen-Defined s order text
          (ap (λ b. if b then some (idl_def t mode) else get_seen (key s) (seen_of order)) (sym h)
            ∙ e)
          d)
  ]

  unvisited_mono :
      (k : Key) (visiting : List Key) (us : List ℕ)
      → unvisited (visiting ++ k ∷ []) us ≤ unvisited visiting us
  unvisited_mono k visiting [] = omega arith
  unvisited_mono k visiting (u ∷ us) =
      ground (arith, unvisited_mono k visiting us, contains-append (key u) k visiting)

  pub unvisited_less :
      (t : ℕ) (visiting : List Key) (us : List ℕ)
      → Member t us
      → contains (key t) visiting ≡ false
      → unvisited (visiting ++ key t ∷ []) us < unvisited visiting us
  unvisited_less t visiting [] e c = elim e [ ]
  unvisited_less t visiting (u ∷ us) (inl e) c =
      let c' : contains (key u) visiting ≡ false =
        ap (λ x. contains (key x) visiting) (sym e) ∙ c in
      let k : key_eq (key u) (key t) ≡ true = (key_eq_iff (key u) (key t)).1 (ap key (sym e)) in
      ground
        (arith, c', k, unvisited_mono (key t) visiting us, contains-append (key u) (key t) visiting)
  unvisited_less t visiting (u ∷ us) (inr e) c =
      ground (arith, unvisited_less t visiting us e c, contains-append (key u) (key t) visiting)

  pub contains_self :
      (t : ℕ) (visiting : List Key) → contains (key t) (visiting ++ key t ∷ []) ≡ true
  contains_self t visiting =
      ground (arith, contains-append (key t) (key t) visiting, (key_eq_iff (key t) (key t)).1 refl)

  pub finished-Apart :
      (t : ℕ) (visiting : List Key) (order : List ℕ)
      → contains (key t) visiting ≡ false
      → Apart (visiting ++ key t ∷ []) order
      → Apart visiting (t ∷ order)
  unfolding get_seen
  finished-Apart t visiting order c a k h = elim (Bool-cases (key_eq k (key t))) [
    | inl e ↦
        elim (false-true
          (sym c ∙ ap (λ x. contains x visiting) (sym ((key_eq_iff k (key t)).0 e)) ∙ h)) [ ]
    | inr e ↦ rw (e) (
        a k (contains-append k (key t) visiting ∙ ap (λ b. if b then true else key_eq k (key t)) h))
  ]

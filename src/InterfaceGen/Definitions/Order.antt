-- ===== src/InterfaceGen/Definitions/Order.antt =====
-- What `DefRegistry` of cyclonedds/src/interface_gen.rs collects: each type once, after the types
-- that its fields name.
use cyclonedds_rs.Common.{
  ℕ, zero, suc, ◌<◌, ◌≡◌, inl, inr, refl, sym, ap, ◌∙◌, true, false, List, [], ◌∷◌, ◌++◌, none,
  some, if◌then◌else◌, arith, length, bytes_eq, bytes_eq_iff, Bool-cases, Option-cases,
}
use mathlib.Core.Path.{subst}
use cyclonedds_rs.InterfaceGen.{
  Text, Key, FieldType, primitive, vec, array, struct, key_eq, contains, get_seen, Outcome,
  and_then,
}
use cyclonedds_rs.InterfaceGen.Paths.{
  key_eq_iff, contains-append, last_is-append, pop-append, Ends, and_then-Ends, Ends-map,
}
use cyclonedds_rs.InterfaceGen.Namespaces.{NsMode}
use cyclonedds_rs.InterfaceGen.Definitions.{
  Interfaces, DefRegistry, new, collect_field, collect_fields, enter_seen, enter, finish,
  collect_entered, collect_defs,
}
use cyclonedds_rs.InterfaceGen.Definitions.Entries.{
  not_less, Member, Defined, IsField, AreFields, seen_of, entries_of, Topological, state, Apart,
  unvisited, unvisited-length, seen-Defined, unvisited_less, contains_self, finished-Apart,
}

module _ (types : Interfaces) (mode : NsMode) where
  open types use {key, idl_def, fields}

  -- What a registration that is done leaves: it has put types before the ones there, and is on the
  -- same path.
  record Collected (visiting : List Key) (order : List ℕ) (P : List ℕ → Type 0) (reg : DefRegistry)
      : Type 0 where
    order' : List ℕ
    is_state : reg ≡ state types mode order' visiting
    is_topological : Topological types mode order'
    is_apart : Apart types mode visiting order'
    keeps : (s : ℕ) → Defined types mode s order → Defined types mode s order'
    result : P order'

  finish-Ends :
      (t : ℕ) (visiting : List Key) (order : List ℕ) (reg : DefRegistry)
      → contains (key t) visiting ≡ false
      → Collected
          (visiting ++ key t ∷ [])
          order
          (λ o. AreFields types mode (λ s. Defined types mode s o) (fields t))
          reg
      → Ends (Collected visiting order (Defined types mode t)) (finish types t reg)
  unfolding finish
  finish-Ends t visiting order reg c r =
      let o = r.order' in
      let here : get_seen (key t) (seen_of types mode o) ≡ none =
        r.is_apart (key t) (contains_self types mode t visiting) in
      subst (λ x. Ends (Collected visiting order (Defined types mode t)) (finish types t x))
        (sym r.is_state)
        (rw (last_is-append (key t) visiting) (record {
          order' = t ∷ o;
          is_state = ap (λ v. state types mode (t ∷ o) v) (pop-append (key t) visiting);
          is_topological = (r.result, here, r.is_topological);
          is_apart = finished-Apart types mode t visiting o c r.is_apart;
          keeps = λ s d. inr (r.keeps s d);
          result = inl (refl, refl);
        }))

  entered-Apart :
      (t : ℕ) (visiting : List Key) (order : List ℕ)
      → get_seen (key t) (seen_of types mode order) ≡ none
      → Apart types mode visiting order
      → Apart types mode (visiting ++ key t ∷ []) order
  entered-Apart t visiting order e a k h = elim (Bool-cases (contains k visiting)) [
    | inl c ↦ a k c
    | inr c ↦
        let same : key_eq k (key t) ≡ true =
          ap (λ b. if b then true else key_eq k (key t)) (sym c)
          ∙ sym (contains-append k (key t) visiting)
          ∙ h in
        ap (λ x. get_seen x (seen_of types mode order)) ((key_eq_iff k (key t)).0 same) ∙ e
  ]

  module _ (all : List ℕ)
      (closed : (t : ℕ) → Member t all → AreFields types mode (λ s. Member s all) (fields t)) where
    -- What each step of the recursion ensures.
    abbrev Collects : (ℕ → DefRegistry → Outcome DefRegistry) → List Key → Type 0
    Collects collect visiting =
        (t : ℕ) (order : List ℕ)
        → Member t all
        → Topological types mode order
        → Apart types mode visiting order
        → Ends (Collected visiting order (Defined types mode t))
            (collect t (state types mode order visiting))

    unchanged :
        (visiting : List Key) (order : List ℕ) (P : List ℕ → Type 0)
        → Topological types mode order
        → Apart types mode visiting order
        → P order
        → Collected visiting order P (state types mode order visiting)
    unchanged visiting order P topological apart p = record {
      order' = order;
      is_state = refl;
      is_topological = topological;
      is_apart = apart;
      keeps = λ s d. d;
      result = p;
    }

    field-Ends :
        (collect : ℕ → DefRegistry → Outcome DefRegistry) (visiting : List Key)
        → Collects collect visiting
        → (f : FieldType) (order : List ℕ) → IsField types mode (λ s. Member s all) f
        → Topological types mode order
        → Apart types mode visiting order
        → Ends
            (Collected visiting order (λ o. IsField types mode (λ s. Defined types mode s o) f))
            (collect_field collect f (state types mode order visiting))
    unfolding collect_field
    field-Ends collect visiting c primitive order m top apart =
        unchanged visiting order (λ o. Unit) top apart tt
    field-Ends collect visiting c (vec elem) order m top apart =
        field-Ends collect visiting c elem order m top apart
    field-Ends collect visiting c (array elem n) order m top apart =
        field-Ends collect visiting c elem order m top apart
    field-Ends collect visiting c (struct s) order m top apart = c s order m top apart

    IsField-keeps :
        (order order' : List ℕ)
        → ((s : ℕ) → Defined types mode s order → Defined types mode s order')
        → (f : FieldType) → IsField types mode (λ s. Defined types mode s order) f
        → IsField types mode (λ s. Defined types mode s order') f
    IsField-keeps order order' k primitive d = tt
    IsField-keeps order order' k (vec elem) d = IsField-keeps order order' k elem d
    IsField-keeps order order' k (array elem n) d = IsField-keeps order order' k elem d
    IsField-keeps order order' k (struct s) d = k s d

    fields-Ends :
        (collect : ℕ → DefRegistry → Outcome DefRegistry) (visiting : List Key)
        → Collects collect visiting
        → (fs : List FieldType) (order : List ℕ) → AreFields types mode (λ s. Member s all) fs
        → Topological types mode order
        → Apart types mode visiting order
        → Ends
            (Collected visiting order (λ o. AreFields types mode (λ s. Defined types mode s o) fs))
            (collect_fields collect fs (state types mode order visiting))
    unfolding collect_fields
    fields-Ends collect visiting c [] order m top apart =
        unchanged visiting order (λ o. Unit) top apart tt
    fields-Ends collect visiting c (f ∷ fs) order (m, ms) top apart =
        and_then-Ends
          (Collected visiting order (λ o. IsField types mode (λ s. Defined types mode s o) f))
          (Collected visiting order
            (λ o. AreFields types mode (λ s. Defined types mode s o) (f ∷ fs)))
          (collect_fields collect fs) (collect_field collect f (state types mode order visiting))
          (field-Ends collect visiting c f order m top apart)
          (λ reg r.
            subst
              (λ x.
                Ends
                  (Collected visiting order
                    (λ o. AreFields types mode (λ s. Defined types mode s o) (f ∷ fs)))
                  (collect_fields collect fs x))
              (sym r.is_state)
              (Ends-map
                (Collected visiting r.order'
                  (λ o. AreFields types mode (λ s. Defined types mode s o) fs))
                (Collected visiting order
                  (λ o. AreFields types mode (λ s. Defined types mode s o) (f ∷ fs)))
                (collect_fields collect fs (state types mode r.order' visiting))
                (λ x q. record {
                  order' = q.order';
                  is_state = q.is_state;
                  is_topological = q.is_topological;
                  is_apart = q.is_apart;
                  keeps = λ s d. q.keeps s (r.keeps s d);
                  result = (IsField-keeps r.order' q.order' q.keeps f r.result, q.result);
                })
                (fields-Ends collect visiting c fs r.order' ms r.is_topological r.is_apart)))

    -- The step into a type whose name is not registered.
    fresh-Ends :
        (collect : ℕ → DefRegistry → Outcome DefRegistry) (t : ℕ) (visiting : List Key)
        (order : List ℕ)
        → (contains (key t) visiting ≡ false → Collects collect (visiting ++ key t ∷ []))
        → Member t all
        → Topological types mode order
        → Apart types mode visiting order
        → get_seen (key t) (seen_of types mode order) ≡ none
        → Ends (Collected visiting order (Defined types mode t)) (
            and_then
              (enter_seen types t none (state types mode order visiting))
              (collect_entered types collect t))
    unfolding enter_seen collect_entered
    fresh-Ends collect t visiting order c m top apart e =
        elim (Bool-cases (contains (key t) visiting)) [
          | inl h ↦ rw (h) tt
          | inr h ↦ rw (h) (
              and_then-Ends
                (Collected (visiting ++ key t ∷ []) order
                  (λ o. AreFields types mode (λ s. Defined types mode s o) (fields t)))
                (Collected visiting order (Defined types mode t)) (finish types t)
                (collect_fields collect (fields t)
                  (state types mode order (visiting ++ key t ∷ [])))
                (fields-Ends collect (visiting ++ key t ∷ []) (c h) (fields t) order (closed t m)
                  top (entered-Apart t visiting order e apart))
                (λ reg r. finish-Ends t visiting order reg h r))
        ]

    seen-Ends :
        (collect : ℕ → DefRegistry → Outcome DefRegistry) (t : ℕ) (visiting : List Key)
        (order : List ℕ) (text : Text)
        → Topological types mode order
        → Apart types mode visiting order
        → get_seen (key t) (seen_of types mode order) ≡ some text
        → Ends (Collected visiting order (Defined types mode t)) (
            and_then
              (enter_seen types t (some text) (state types mode order visiting))
              (collect_entered types collect t))
    unfolding enter_seen collect_entered
    seen-Ends collect t visiting order text top apart e =
        elim (Bool-cases (bytes_eq text (idl_def t mode))) [
          | inl h ↦ rw (h) (
              unchanged visiting order (Defined types mode t) top apart
                (seen-Defined types mode t order text e ((bytes_eq_iff text (idl_def t mode)).0 h)))
          | inr h ↦ rw (h) tt
        ]

    less_fuel :
        (t : ℕ) (visiting : List Key) (fuel : ℕ)
        → Member t all
        → contains (key t) visiting ≡ false
        → unvisited types mode visiting all < suc fuel
        → unvisited types mode (visiting ++ key t ∷ []) all < fuel
    less_fuel t visiting fuel m c h = ground (arith, unvisited_less types mode t visiting all m c)

    collect-Ends :
        (fuel : ℕ) (visiting : List Key)
        → unvisited types mode visiting all < fuel
        → Collects (collect_defs types fuel) visiting
    unfolding collect_defs enter
    collect-Ends zero visiting h t order m top apart = elim (not_less h) [ ]
    collect-Ends (suc fuel) visiting h t order m top apart =
        elim (Option-cases (get_seen (key t) (seen_of types mode order))) [
          | inl e ↦ rw (e) (
              fresh-Ends (collect_defs types fuel) t visiting order
                (λ c. collect-Ends fuel (visiting ++ key t ∷ []) (less_fuel t visiting fuel m c h))
                m top apart e)
          | inr (text, e) ↦
              rw (e) (seen-Ends (collect_defs types fuel) t visiting order text top apart e)
        ]

    -- If the fields of the given types name only types among them, the registration of one of them
    -- into a new registry ends, with a step into a type for each of them and one more: in the panic
    -- over a conflict or a cycle, or with the definitions of a list of types, its own among them,
    -- each after those that its fields name and none under a name that came before, and with nothing
    -- left on the path.
    pub collects_in_order :
        (t : ℕ)
        → Member t all
        → Ends
            (λ reg.
              (order : List ℕ) × (reg.entries ≡ entries_of types mode order)
              × (reg.visiting ≡ [])
              × Topological types mode order
              × Defined types mode t order)
            (collect_defs types (suc (length all)) t (new mode))
    unfolding new
    collects_in_order t m =
        Ends-map (Collected [] [] (Defined types mode t)) _
          (collect_defs types (suc (length all)) t (new mode))
          (λ reg r. (
            r.order',
            ap (λ x. x.entries) r.is_state,
            ap (λ x. x.visiting) r.is_state,
            r.is_topological,
            r.result,
          ))
          (collect-Ends (suc (length all)) [] (unvisited-length types mode all) t [] m tt
            (λ k h. unfold get_seen in refl))

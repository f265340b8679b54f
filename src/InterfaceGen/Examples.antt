-- ===== src/InterfaceGen/Examples.antt =====
-- Concrete types for the theorems on cyclonedds/src/interface_gen.rs: type 0 has a sequence of type
-- 1 and an array of type 2, and type 1 has a field of type 2.
use cyclonedds_rs.Common.{ℕ, zero, suc, ◌+◌, ◌≡◌, inl, inr, refl, List, [], ◌∷◌}
use cyclonedds_rs.InterfaceGen.{FieldType, primitive, vec, array, struct}
use cyclonedds_rs.InterfaceGen.Namespaces.{raw}
use cyclonedds_rs.InterfaceGen.Definitions.{Interfaces, new, collect_defs}
use cyclonedds_rs.InterfaceGen.Paths.{Ends}
use cyclonedds_rs.InterfaceGen.Definitions.Entries.{
  Member, Defined, AreFields, entries_of, Topological,
}
use cyclonedds_rs.InterfaceGen.Definitions.Order.{collects_in_order}

fields_of : ℕ → List FieldType
fields_of zero = vec (struct 1) ∷ primitive ∷ array (struct 2) 4 ∷ []
fields_of (suc zero) = struct 2 ∷ []
fields_of (suc (suc n)) = primitive ∷ []

abbrev types : Interfaces
types = record {
  key = λ t. (112 ∷ [], (65 + t) ∷ []);
  idl_def = λ t mode. (65 + t) ∷ [];
  msg_def = λ t. (65 + t) ∷ [];
  msg_ref = λ t. (65 + t) ∷ [];
  fields = fields_of;
}

abbrev all : List ℕ
all = 0 ∷ 1 ∷ 2 ∷ []

closed : (t : ℕ) → Member t all → AreFields types raw (λ s. Member s all) (fields_of t)
unfolding fields_of
closed zero m = (inr (inl refl), (tt, (inr (inr (inl refl)), tt)))
closed (suc zero) m = (inr (inr (inl refl)), tt)
closed (suc (suc n)) m = (tt, tt)

collects_in_order_example :
    Ends
      (λ reg.
        (order : List ℕ) × (reg.entries ≡ entries_of types raw order)
        × (reg.visiting ≡ [])
        × Topological types raw order
        × Defined types raw 0 order)
      (collect_defs types 4 0 (new raw))
collects_in_order_example = collects_in_order types raw all closed 0 (inl refl)

-- ===== src/FreeMap.antt =====
-- client/src/freemap.rs: `InnerMap` and, behind its lock, `NamedMap`. Every method of `NamedMap`
-- takes the lock once, so a call is one step on the `InnerMap`.
pub mod Invariant
pub mod Lookup
mod Tests
use hyperspace_rs.Base.Maps
use hyperspace_rs.Base.{
  ℕ, ◌++◌, List, [], ◌∷◌, Option, none, some, length, HashMap, add64, ℕ_discrete,
}

pub record InnerMap (K V : Type 0) : Type 0 where
  pub map : HashMap ℕ V
  pub name_id : HashMap K ℕ
  pub id_name : HashMap ℕ (List K)
  pub free : List ℕ

unfoldable pub new : {K V : Type 0} → InnerMap K V
new = record { map = []; name_id = []; id_name = []; free = [] }

module _ {K V : Type 0} where
  -- The id comes from the free list, or is the number of entries plus one.
  unfoldable pub insert : InnerMap K V → V → InnerMap K V × ℕ
  insert m value = elim m.free [
    | id ∷ rest ↦ (record m { map = Maps.insert ℕ_discrete id value m.map; free = rest }, id)
    | [] ↦
        let id = add64 (length m.map) 1 in
        (record m { map = Maps.insert ℕ_discrete id value m.map }, id)
  ]

  unfoldable pub get : InnerMap K V → ℕ → Option V
  get m id = Maps.get ℕ_discrete id m.map

-- `and_modify(push)` on the names of the id, or a new vector with the name.
abbrev pub names_with : {K : Type 0} → K → Option (List K) → List K
names_with key none = key ∷ []
names_with key (some names) = names ++ key ∷ []

module _ {K V : Type 0} (dec : Discrete K) where
  unfoldable pub set_name : InnerMap K V → ℕ → K → InnerMap K V
  set_name m id key = record m {
    name_id = Maps.insert dec key id m.name_id;
    id_name =
        Maps.insert ℕ_discrete id (names_with key (Maps.get ℕ_discrete id m.id_name)) m.id_name;
  }

  unfoldable pub insert_with_name : InnerMap K V → V → K → InnerMap K V × ℕ
  insert_with_name m value name = let (m', id) = insert m value in (set_name m' id name, id)

  unfoldable pub get_by_name : InnerMap K V → K → Option V
  get_by_name m key = elim (Maps.get dec key m.name_id) [
    | none ↦ none
    | some id ↦ Maps.get ℕ_discrete id m.map
  ]

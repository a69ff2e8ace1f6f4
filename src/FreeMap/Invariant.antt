-- ===== src/FreeMap/Invariant.antt =====
-- The invariant of the maps that the client builds: the ids are 1 to the number of entries.
use hyperspace_rs.Base.Maps
use hyperspace_rs.Base.{
  ℕ, ◌+◌, ◌≤◌, ◌<◌, ◌≡◌, refl, [], some, none, arith, length, u64_mod, add64-eq, ℕ_discrete,
  HashMap,
}
use hyperspace_rs.FreeMap.{InnerMap, new, insert, set_name, insert_with_name}

pub record IsDense {V : Type 0} (m : HashMap ℕ V) : Type 0 where
  pub held : (i : ℕ) → 1 ≤ i → i ≤ length m → (v : V) × (Maps.get ℕ_discrete i m ≡ some v)
  pub fresh : (i : ℕ) → length m < i → Maps.get ℕ_discrete i m ≡ none
  pub positive : Maps.get ℕ_discrete 0 m ≡ none

pub record IsValid {K V : Type 0} (dec : Discrete K) (m : InnerMap K V) : Type 0 where
  pub dense : IsDense m.map
  pub none_free : m.free ≡ []
  pub named : (k : K) (id : ℕ) → Maps.get dec k m.name_id ≡ some id → (1 ≤ id) × (id ≤ length m.map)

module _ {K V : Type 0} (dec : Discrete K) where
  pub new-IsValid : IsValid {V = V} dec new
  unfolding new Maps.get
  new-IsValid = record {
    dense = record { held = λ i p q. absurd (omega arith); fresh = λ i p. refl; positive = refl };
    none_free = refl;
    named = λ k id e. ground arith;
  }

  -- The id that `insert` gives out: one more than the number of entries.
  next_id : InnerMap K V → ℕ
  next_id m = length m.map + 1

module _ {V : Type 0} (v : V) (m : HashMap ℕ V) where
  pub length-insert_next :
      IsDense m → length (Maps.insert ℕ_discrete (length m + 1) v m) ≡ length m + 1
  length-insert_next d =
      Maps.length-insert_new ℕ_discrete (length m + 1) v m (d.fresh _ (omega arith))

  insert-IsDense : IsDense m → IsDense (Maps.insert ℕ_discrete (length m + 1) v m)
  insert-IsDense d = record {
    held = λ i p q. elim (ℕ_discrete (length m + 1) i) [
      | yes e ↦ (v, ground (arith, Maps.get-insert ℕ_discrete i (length m + 1) v m))
      | no e ↦
          let (w, h) = d.held i p (omega (arith, length-insert_next d)) in
          (w, ground (arith, Maps.get-insert ℕ_discrete i (length m + 1) v m))
    ];
    fresh = λ i p.
        ground
          (arith, length-insert_next d, Maps.get-insert ℕ_discrete i (length m + 1) v m, d.fresh i);
    positive = ground (arith, Maps.get-insert ℕ_discrete 0 (length m + 1) v m, d.positive);
  }

module _ {K V : Type 0} (dec : Discrete K) {m : InnerMap K V} (valid : IsValid dec m) where
  -- With an empty free list `insert` gives out the number of entries plus one.
  pub insert-next :
      (v : V)
      → length m.map + 1 < u64_mod
      → insert m v
        ≡ (record m { map = Maps.insert ℕ_discrete (length m.map + 1) v m.map }, length m.map + 1)
  unfolding insert
  insert-next v room = rw (valid.none_free, add64-eq (length m.map) 1 room)

  pub set_name-IsValid :
      (id : ℕ) (k : K) → 1 ≤ id → id ≤ length m.map → IsValid dec (set_name dec m id k)
  unfolding set_name
  set_name-IsValid id k p q = record {
    dense = valid.dense;
    none_free = valid.none_free;
    named = λ j i e. ground (arith, Maps.get-insert dec j k id m.name_id, valid.named j i);
  }

  -- The map stays valid under `insert_with_name`.
  pub insert_with_name-IsValid :
      (v : V) (k : K) → length m.map + 1 < u64_mod → IsValid dec (insert_with_name dec m v k).0
  unfolding insert_with_name set_name
  insert_with_name-IsValid v k room =
      rw (insert-next v room, insert_with_name)
        (record {
          dense = insert-IsDense v m.map valid.dense;
          none_free = valid.none_free;
          named = λ j i e. ground (
            arith,
            length-insert_next v m.map valid.dense,
            Maps.get-insert dec j k (length m.map + 1) m.name_id,
            valid.named j i,
          );
        })

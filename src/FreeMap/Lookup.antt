-- ===== src/FreeMap/Lookup.antt =====
-- What is read after a call, and the sequence of ids.
use hyperspace_rs.Base.Maps
use hyperspace_rs.Base.{
  ℕ, range_from, ◌⊎◌, ◌+◌, ◌<◌, ◌≡◌, refl, List, [], ◌∷◌, some, none, arith, length, u64_mod,
  ℕ_discrete, ite, Option-cases, inl, inr,
}
use hyperspace_rs.FreeMap.{InnerMap, set_name, insert_with_name, get, get_by_name, names_with}
use hyperspace_rs.FreeMap.Invariant.{
  IsValid, insert-next, length-insert_next, insert_with_name-IsValid,
}

-- The map after `insert_with_name` at the next id.
named_map : {K V : Type 0} → Discrete K → InnerMap K V → V → K → InnerMap K V
unfolding set_name
named_map dec m v k =
    set_name dec (record m { map = Maps.insert ℕ_discrete (length m.map + 1) v m.map })
      (length m.map + 1) k

module _ {K V : Type 0} (dec : Discrete K) {m : InnerMap K V} (valid : IsValid dec m) where
  reads_name :
      (v : V) (k : K) (q : K)
      → (Maps.get dec q m.name_id ≡ none) ⊎ ((id : ℕ) × (Maps.get dec q m.name_id ≡ some id))
      → get_by_name dec (named_map dec m v k) q ≡ ite (dec k q) (some v) (get_by_name dec m q)
  unfolding get_by_name named_map
  reads_name v k q (inl e) = ground (
    arith,
    Maps.get-insert dec q k (length m.map + 1) m.name_id,
    Maps.get-insert ℕ_discrete (length m.map + 1) (length m.map + 1) v m.map,
  )
  reads_name v k q (inr (id, e)) = ground (
    arith,
    valid.named q id e,
    Maps.get-insert dec q k (length m.map + 1) m.name_id,
    Maps.get-insert ℕ_discrete (length m.map + 1) (length m.map + 1) v m.map,
    Maps.get-insert ℕ_discrete id (length m.map + 1) v m.map,
  )

  pub insert_with_name-size :
      (v : V) (k : K)
      → length m.map + 1 < u64_mod
      → (length (insert_with_name dec m v k).0.map ≡ length m.map + 1)
        × ((insert_with_name dec m v k).1 ≡ length m.map + 1)
  unfolding insert_with_name set_name
  insert_with_name-size v k room =
      rw (insert-next dec valid v room, insert_with_name)
        (length-insert_next v m.map valid.dense, refl)

  -- `insert_with_name` on a valid map gives out an id that held nothing, under which and under
  -- the name the value is then found; all other ids and names read as before. There is room for
  -- one more entry below the bound of a u64.
  pub insert_with_name-reads :
      (v : V) (k : K)
      → length m.map + 1 < u64_mod
      → let (m', id) = insert_with_name dec m v k in
        (get m id ≡ none)
        × ((i : ℕ) → get m' i ≡ ite (ℕ_discrete id i) (some v) (get m i))
        × ((q : K) → get_by_name dec m' q ≡ ite (dec k q) (some v) (get_by_name dec m q))
  unfolding insert_with_name named_map get
  insert_with_name-reads v k room =
      rw (insert-next dec valid v room, insert_with_name)
        (
          valid.dense.fresh _ (omega arith),
          (λ i. Maps.get-insert ℕ_discrete i _ v m.map),
          λ q. reads_name v k q (Option-cases (Maps.get dec q m.name_id)),
        )

module _ {K V : Type 0} (dec : Discrete K) where
  -- A new name for an id reads as the id does; every other name, and every id, reads as before;
  -- and the name is listed last among the names of the id.
  pub set_name-reads :
      (m : InnerMap K V) (id : ℕ) (k : K)
      → let m' = set_name dec m id k in
        ((q : K) → get_by_name dec m' q ≡ ite (dec k q) (get m id) (get_by_name dec m q))
        × ((i : ℕ) → get m' i ≡ get m i)
        × (Maps.get ℕ_discrete id m'.id_name
            ≡ some (names_with k (Maps.get ℕ_discrete id m.id_name)))
  unfolding set_name get_by_name get
  set_name-reads m id k = (
    (λ q. ground (arith, Maps.get-insert dec q k id m.name_id)),
    (λ i. refl),
    ground (
      arith,
      Maps.get-insert ℕ_discrete id id (names_with k (Maps.get ℕ_discrete id m.id_name)) m.id_name,
    ),
  )

  -- A client's calls of `insert_with_name`, one after the other, with the ids that come back.
  unfoldable pub insert_all : InnerMap K V → List (V × K) → InnerMap K V × List ℕ
  unfolding insert_with_name
  insert_all m [] = (m, [])
  insert_all m ((v, k) ∷ rest) =
      let (m', id) = insert_with_name dec m v k in
      let (m'', ids) = insert_all m' rest in (m'', id ∷ ids)

  -- Starting from a valid map with room for the whole sequence, the ids come back in sequence.
  pub insert_all-range_from :
      (m : InnerMap K V) (xs : List (V × K))
      → IsValid dec m
      → length m.map + length xs < u64_mod
      → IsValid dec (insert_all m xs).0
        × ((insert_all m xs).1 ≡ range_from (length m.map + 1) (length xs))
  unfolding insert_all
  insert_all-range_from m [] valid room = (valid, refl)
  insert_all-range_from m ((v, k) ∷ xs) valid room =
      let (size, id) = insert_with_name-size dec valid v k (omega arith) in
      let (valid', ids) =
        insert_all-range_from (insert_with_name dec m v k).0 xs
          (insert_with_name-IsValid dec valid v k (omega arith)) (omega arith) in
      (valid', ground arith)

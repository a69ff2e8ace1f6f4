-- ===== src/FreeMap/Tests.antt =====
-- A map with one value, under one name.
use hyperspace_rs.Base.Maps
use hyperspace_rs.Base.{
  ℕ, ◌+◌, ◌≡◌, refl, [], ◌∷◌, none, some, arith, ℕ_discrete, ite, range_from, length,
}
use hyperspace_rs.FreeMap.{InnerMap, new, insert_with_name, set_name, get, get_by_name, names_with}
use hyperspace_rs.FreeMap.Invariant.{IsValid, new-IsValid, insert_with_name-IsValid}
use hyperspace_rs.FreeMap.Lookup.{insert_with_name-reads, insert_all, insert_all-range_from}

abbrev one : InnerMap ℕ ℕ
one = (insert_with_name ℕ_discrete new 7 5).0

one-IsValid : IsValid ℕ_discrete one
unfolding new
one-IsValid = insert_with_name-IsValid ℕ_discrete (new-IsValid ℕ_discrete) 7 5 (omega arith)

one_size : length one.map ≡ 1
unfolding insert_with_name new set_name hyperspace_rs.FreeMap.insert Maps.insert
one_size = refl

insert_with_name-reads_example :
    let (m', id) = insert_with_name ℕ_discrete one 8 6 in
    (get one id ≡ none)
    × ((i : ℕ) → get m' i ≡ ite (ℕ_discrete id i) (some 8) (get one i))
    × ((q : ℕ)
        → get_by_name ℕ_discrete m' q
          ≡ ite (ℕ_discrete 6 q) (some 8) (get_by_name ℕ_discrete one q))
insert_with_name-reads_example =
    insert_with_name-reads ℕ_discrete one-IsValid 8 6 (omega (arith, one_size))

insert_all-range_from_example :
    let r = insert_all ℕ_discrete one ((8, 6) ∷ (9, 7) ∷ []) in
    IsValid ℕ_discrete r.0 × (r.1 ≡ range_from (length one.map + 1) 2)
insert_all-range_from_example =
    insert_all-range_from ℕ_discrete one ((8, 6) ∷ (9, 7) ∷ []) one-IsValid
      (omega (arith, one_size))

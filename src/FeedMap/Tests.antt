-- ===== src/FeedMap/Tests.antt =====
-- Maps of feeds, where a feed is a number, its key that number and its discovery key one more.
use hyperspace_rs.Base.Maps
use hyperspace_rs.Base.{
  ℕ, ◌+◌, ◌≡◌, refl, [], ◌∷◌, none, some, arith, ite, Bytes, bytes_discrete, map,
}
use hyperspace_rs.FeedMap.{FeedApi, FeedMap, new, insert, remove, get_key, get_dkey, get_name}
use hyperspace_rs.FeedMap.Invariant.{IsValid, new-IsValid, insert-IsValid}
use hyperspace_rs.FeedMap.Insert.{insert-reads}
use hyperspace_rs.FeedMap.Remove.{insert-remove_clobbers}

abbrev numbers : FeedApi
numbers = record { Feed = ℕ; public_key = λ f. f ∷ []; discovery_key = λ k. map (λ b. b + 1) k }

abbrev one : FeedMap numbers
one = (insert {A = numbers} new 1 (some (5 ∷ []))).0

abbrev two : FeedMap numbers
two = (insert one 2 none).0

one-IsValid : IsValid one
one-IsValid = insert-IsValid {A = numbers} 1 (some (5 ∷ [])) new-IsValid

two-IsValid : IsValid two
two-IsValid = insert-IsValid 2 none one-IsValid

insert-reads_example :
    let m' = (insert one 2 (some (6 ∷ []))).0 in
    ((k : Bytes) → get_key m' k ≡ ite (bytes_discrete (2 ∷ []) k) (some 2) (get_key one k))
    × ((d : Bytes) → get_dkey m' d ≡ ite (bytes_discrete (3 ∷ []) d) (some 2) (get_dkey one d))
    × ((n : Bytes) → get_name m' n ≡ ite (bytes_discrete (6 ∷ []) n) (some 2) (get_name one n))
insert-reads_example = insert-reads one-IsValid 2 (some (6 ∷ []))

insert-remove_clobbers_example : get_key (insert (remove two 1) 3 none).0 (2 ∷ []) ≡ some 3
unfolding insert new Maps.get Maps.insert bytes_discrete
insert-remove_clobbers_example =
    insert-remove_clobbers two-IsValid 1 2 3 0 none refl refl (ground arith)

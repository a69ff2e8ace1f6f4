-- ===== src/Session/Tests.antt =====
-- A session on the corestore of Corestore/Sample.antt, where a store is the list of the blocks that
-- were appended to any feed, and a block is refused if it is empty.
use hyperspace_rs.Base.Maps
use hyperspace_rs.Base.{
  ℕ, ◌+◌, ◌≡◌, refl, arith, List, [], ◌∷◌, some, true, Bytes, Result, ok, err, failed, length,
  get_elem?, ℕ_discrete,
}
use hyperspace_rs.Corestore.Sample.{plain, world}
use hyperspace_rs.Session.{Feeds, Session, other, OpenRequest, OpenResponse}
use hyperspace_rs.Session.Handlers.{append_blocks, append_all, open_core}
use hyperspace_rs.Session.Appending.{append_blocks-partial}

abbrev refuse_empty : Bytes → List Bytes → Result ℕ (Unit {0}) × List Bytes
refuse_empty [] store = (err 6, store)
refuse_empty (b ∷ bs) store = (ok tt, (b ∷ bs) ∷ store)

abbrev shared : Feeds plain
shared = record {
  Store = List Bytes;
  len = λ feed store. length store;
  byte_len = λ feed store. length store;
  writable = λ feed store. true;
  get = λ feed seq store. (ok (get_elem? store seq), store);
  append = λ feed block store. refuse_empty block store;
}

abbrev session : Session plain shared
session = record { corestore = world; store = (1 ∷ []) ∷ []; cores = (3, 9 ∷ []) ∷ []; tasks = [] }

refuse_empty-length :
    (feed : Bytes) (block : Bytes) (store : List Bytes)
    → (refuse_empty block store).0 ≡ ok tt
    → length (refuse_empty block store).1 ≡ length store + 1
refuse_empty-length feed [] store e = absurd (ground (arith, e))
refuse_empty-length feed (b ∷ bs) store e = omega arith

abbrev appended : Session plain shared
appended = record session { store = (4 ∷ []) ∷ (2 ∷ []) ∷ (1 ∷ []) ∷ [] }

append_blocks-partial_example :
    append_blocks 3 ((2 ∷ []) ∷ [] ∷ (4 ∷ []) ∷ []) session
    ≡ (err (failed (other 6)), record session { store = (2 ∷ []) ∷ (1 ∷ []) ∷ [] })
unfolding append_all Maps.get ℕ_discrete
append_blocks-partial_example =
    append_blocks-partial {V = plain} {F = shared} 3 (9 ∷ []) ((2 ∷ []) ∷ []) [] ((4 ∷ []) ∷ [])
      session (record session { store = (2 ∷ []) ∷ (1 ∷ []) ∷ [] }) 6 ((2 ∷ []) ∷ (1 ∷ []) ∷ [])
      refl refl refl

abbrev request : OpenRequest
request = record { id = 4; key = some (7 ∷ []); name = some (5 ∷ []) }

abbrev response : OpenResponse
response = record { key = 1 ∷ 5 ∷ []; length = 1; byte_length = 1; writable = true }

abbrev opened : Session plain shared
opened = (open_core {V = plain} {F = shared} request session).1

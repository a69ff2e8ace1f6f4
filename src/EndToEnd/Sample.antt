-- ===== src/EndToEnd/Sample.antt =====
-- A client of a session on the corestore of Corestore/Sample.antt, where a store is the list of the
-- blocks that were appended to any feed.

use hyperspace_rs.Base.{
  concat, get_elem?-end, ℕ, zero, suc, ap, ◌≡◌, ◌<◌, refl, arith, List, [], ◌∷◌, ◌++◌, length,
  length-append, true, Bytes, Result, ok, err, Fault, failed, get_elem?,
}
use hyperspace_rs.Corestore.Sample.{plain, world}
use hyperspace_rs.Session.{Feeds, IoError, bad_id}
use hyperspace_rs.RemoteCore.{Client, SeekRequest, SeekResponse}
use hyperspace_rs.EndToEnd.{served}
use hyperspace_rs.EndToEnd.Calls.{start}
use hyperspace_rs.EndToEnd.Written.{FeedLaws}

abbrev pub listed : Feeds plain
listed = record {
  Store = List Bytes;
  len = λ feed store. length store;
  byte_len = λ feed store. length (concat store);
  writable = λ feed store. true;
  get = λ feed seq store. (ok (get_elem? store seq), store);
  append = λ feed block store. (ok tt, store ++ block ∷ []);
}

get_elem?-kept :
    (xs ys : List Bytes) (i : ℕ) → i < length xs → get_elem? (xs ++ ys) i ≡ get_elem? xs i
get_elem?-kept [] ys i h = absurd (omega arith)
get_elem?-kept (x ∷ xs) ys zero h = refl
get_elem?-kept (x ∷ xs) ys (suc i) h = get_elem?-kept xs ys i (omega arith)

pub listed_laws : FeedLaws listed
listed_laws = record {
  lengthens = λ feed block store e. length-append store (block ∷ []);
  appended = λ feed block store e. ap ok (get_elem?-end store block);
  kept = λ feed block store seq e h. ap ok (get_elem?-kept store (block ∷ []) seq h);
}

abbrev pub no_seek : SeekRequest → Result (Fault (IoError ℕ)) SeekResponse
no_seek req = err (failed bad_id)

abbrev pub Connected : Type 0
Connected = Client (served {V = plain} listed (λ bytes. bytes) no_seek)

abbrev pub fresh : Connected
fresh = start {V = plain} listed (λ bytes. bytes) no_seek world ((7 ∷ []) ∷ [])

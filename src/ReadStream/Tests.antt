-- ===== src/ReadStream/Tests.antt =====
-- Read streams of a feed whose block `i` is the byte `i`.
use hyperspace_rs.Base.{ℕ, ◌≡◌, [], ◌∷◌, none, true, false, Bytes, ok, arith}
use hyperspace_rs.ReadStream.{ReadStream, get_future, new}
use hyperspace_rs.ReadStream.Range.{polls, polls_range}

abbrev block_of : ℕ → Bytes
block_of i = i ∷ []

polls_range_example :
    let r = polls {E = ℕ} block_of 3 (new 1 none false) (true ∷ false ∷ true ∷ true ∷ []) in
    (r.0 ≡ ok (1 ∷ []) ∷ ok (2 ∷ []) ∷ []) × (r.1.finished ≡ true)
polls_range_example =
    polls_range block_of 3 none 1 (true ∷ false ∷ true ∷ true ∷ []) (omega arith) (omega arith)

abbrev live : ReadStream
live = record { future = get_future 2; index = 2; end = none; live = true; finished = false }

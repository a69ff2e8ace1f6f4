-- ===== src/ByteStream.antt =====
-- client/src/stream.rs: `ByteStream`, its `poll_read` and `poll_seek`. What polling a future of
-- the core answers is an argument.
pub mod Read
pub mod Content
pub mod Whole
pub mod Seek
pub mod Bounds
pub mod Placed
pub mod Refines
mod Tests
use hyperspace_rs.Base.{
  ℕ, zero, suc, ◌+◌, ◌-◌, ◌==◌, ltb, min, List, [], ◌∷◌, ◌++◌, Option, none, some, Bool, true,
  false, if◌then◌else◌, length, take, drop, add64, Bytes, Result, ok, err,
}
use hyperspace_rs.ReadStream.{Poll, pending, ready, GetOutput}

-- `io::Result<(u64, usize)>`
abbrev pub SeekOutput : Type 0 → Type 0
SeekOutput E = Result E (ℕ × ℕ)

-- A future is known by what it was called with: the byte offset to seek, the block to get.
pub data State : Type 0 where
  idle : State
  seeking : ℕ → State
  reading : ℕ → State
  ready_block : Bytes → State
  finished : State

pub record ByteStream : Type 0 where
  pub seq : ℕ
  pub block_offset : ℕ
  pub byte_offset : ℕ
  pub state : State

unfoldable pub new : ByteStream
new = record { seq = 0; block_offset = 0; byte_offset = 0; state = idle }

pub data SeekFrom : Type 0 where
  start : ℕ → SeekFrom
  end : ℕ → SeekFrom
  -- the offset as the bits of an i64
  current : ℕ → SeekFrom

-- How a call of `poll_read` or `poll_seek` ends.
pub data Outcome (A : Type 0) : Type 0 where
  waits : Outcome A
  returns : A → Outcome A
  panics : Outcome A
  -- the fuel of the loop ran out
  runs_on : Outcome A

-- `buf[pos..pos + len].copy_from_slice(src)`, with `len` the length of `src`.
abbrev pub copy_into : Bytes → ℕ → Bytes → Bytes
copy_into buf pos src = take pos buf ++ src ++ drop (pos + length src) buf

-- One round of the loop of `poll_read`: the stream and the buffer, and how the round ends, or
-- `none` where the loop goes on.
pub record Round (A : Type 0) : Type 0 where
  pub stream : ByteStream
  pub buf : Bytes
  pub outcome : Option (Outcome A)

-- The loop leaves by the round's outcome, or goes on with what the round left.
abbrev pub after_round :
    (ByteStream → Bytes → Outcome ℕ × ByteStream × Bytes) → Round ℕ → Outcome ℕ × ByteStream × Bytes
after_round go r = elim r.outcome [
  | some outcome ↦ (outcome, r.stream, r.buf)
  | none ↦ go r.stream r.buf
]

module _ {E : Type 0} (get : ℕ → Poll (GetOutput E)) where
  -- What follows the poll of a future that gets a block. A missing block is a panic.
  unfoldable pub read_polled : ByteStream → Bytes → Poll (GetOutput E) → Round ℕ
  read_polled s buf pending = record { stream = s; buf = buf; outcome = some waits }
  read_polled s buf (ready (err e)) = record {
    stream = record s { state = finished };
    buf = buf;
    outcome = none;
  }
  read_polled s buf (ready (ok (some block))) = record {
    stream = record s { state = ready_block block };
    buf = buf;
    outcome = none;
  }
  read_polled s buf (ready (ok none)) = record { stream = s; buf = buf; outcome = some panics }

-- The copy of what fits: at most once in a call, so that `pos` is 0 before it.
unfoldable pub read_block : ByteStream → Bytes → Bytes → Round ℕ
read_block s buf block =
    if ltb (length block) s.block_offset
    then record { stream = s; buf = buf; outcome = some panics }
    else let block_slice = drop s.block_offset block in
      let len = min (length buf) (length block_slice) in
      let buf' = copy_into buf 0 (take len block_slice) in
      let block_offset = s.block_offset + len in
      let s' =
        if block_offset == length block
        then record s { seq = add64 s.seq 1; block_offset = 0; state = idle }
        else record s { block_offset = block_offset; state = ready_block block } in
      record { stream = s'; buf = buf'; outcome = some (returns len) }

module _ {E : Type 0} (get : ℕ → Poll (GetOutput E)) where
  unfoldable pub read_round : State → ByteStream → Bytes → Round ℕ
  unfolding read_polled read_block
  read_round (seeking _) s buf = record { stream = s; buf = buf; outcome = some panics }
  read_round finished s buf = record { stream = s; buf = buf; outcome = some (returns 0) }
  read_round idle s buf = record {
    stream = record s { state = reading s.seq };
    buf = buf;
    outcome = none;
  }
  read_round (reading seq) s buf = read_polled get s buf (get seq)
  read_round (ready_block block) s buf = read_block s buf block

  unfoldable pub read_loop : ℕ → ByteStream → Bytes → Outcome ℕ × ByteStream × Bytes
  unfolding read_round
  read_loop zero s buf = (runs_on, s, buf)
  read_loop (suc fuel) s buf = after_round (read_loop fuel) (read_round s.state s buf)

  -- Three rounds are enough: the loop goes on from `idle` and from `reading` only.
  unfoldable pub poll_read : ByteStream → Bytes → Outcome ℕ × ByteStream × Bytes
  unfolding read_loop
  poll_read s buf = read_loop 3 s buf

-- The byte offset that a seek from another state than `Seeking` goes to; none where it is not
-- implemented.
unfoldable pub seek_target : ByteStream → SeekFrom → Option ℕ
seek_target s (start offset) = some offset
seek_target s (end _) = none
seek_target s (current pos) = some (add64 s.byte_offset pos)

module _ {E : Type 0} (seek : ℕ → Poll (SeekOutput E)) where
  -- What follows the poll of a future that seeks. An error is a panic.
  unfoldable pub seek_polled : ByteStream → Poll (SeekOutput E) → Outcome ℕ × ByteStream
  seek_polled s pending = (waits, s)
  seek_polled s (ready (err e)) = (panics, s)
  seek_polled s (ready (ok (seq, offset))) =
      (returns s.byte_offset, record s { seq = seq; block_offset = offset; state = idle })

  unfoldable pub start_seek : ByteStream → Option ℕ → Outcome ℕ × ByteStream
  unfolding seek_polled
  start_seek s none = (panics, s)
  start_seek s (some offset) =
      seek_polled (record s { byte_offset = offset; state = seeking offset }) (seek offset)

  unfoldable pub poll_seek_state : State → ByteStream → SeekFrom → Outcome ℕ × ByteStream
  unfolding start_seek seek_target
  poll_seek_state (seeking offset) s pos = seek_polled s (seek offset)
  poll_seek_state idle s pos = start_seek s (seek_target s pos)
  poll_seek_state (reading _) s pos = start_seek s (seek_target s pos)
  poll_seek_state (ready_block _) s pos = start_seek s (seek_target s pos)
  poll_seek_state finished s pos = start_seek s (seek_target s pos)

  -- `poll_seek`: at most two rounds of its loop, one that starts a future and one that polls it.
  unfoldable pub poll_seek : ByteStream → SeekFrom → Outcome ℕ × ByteStream
  unfolding poll_seek_state
  poll_seek s pos = poll_seek_state s.state s pos

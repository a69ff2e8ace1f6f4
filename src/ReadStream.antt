-- ===== src/ReadStream.antt =====
-- client/src/stream.rs: `ReadStream`, and the futures that it polls. What polling a future
-- answers, and the length that the core has then, are arguments of `poll_next`.
pub mod Range
pub mod Wait
mod Tests
use mathlib.Core.Option
use hyperspace_rs.Base.{
  ℕ, ◌==◌, List, [], ◌∷◌, Option, none, some, Bool, true, false, not, ◌&&◌, if◌then◌else◌, add64,
  Bytes, Result, ok, err,
}
use hyperspace_rs.RemoteCore.{HypercoreEvent, append, download}

pub data Poll (A : Type 0) : Type 0 where
  pending : Poll A
  ready : A → Poll A

-- `io::Result<Option<Vec<u8>>>`
abbrev pub GetOutput : Type 0 → Type 0
GetOutput E = Result E (Option Bytes)

-- `get_future` and `onappend_future`, each with its block.
pub data GetFuture : Type 0 where
  get_future : ℕ → GetFuture
  onappend_future : ℕ → GetFuture

-- `onappend_get`, on the events that arrive until the subscription ends.
unfoldable pub onappend_get {ℓ} : {R : Type ℓ} → (ℕ → R) → R → ℕ → List HypercoreEvent → R
onappend_get get at_end seq [] = at_end
onappend_get get at_end seq (append ∷ events) = get seq
onappend_get get at_end seq (download downloaded_seq ∷ events) =
    let rest = onappend_get get at_end seq events in if downloaded_seq == seq then get seq else rest

pub record ReadStream : Type 0 where
  pub future : GetFuture
  pub index : ℕ
  pub end : Option ℕ
  pub live : Bool
  pub finished : Bool

unfoldable pub new : ℕ → Option ℕ → Bool → ReadStream
new start end live = record {
  future = get_future start;
  index = start;
  end = end;
  live = live;
  finished = false;
}

-- `Result::transpose`
abbrev pub transpose : {E : Type 0} → GetOutput E → Option (Result E Bytes)
transpose (ok none) = none
transpose (ok (some block)) = some (ok block)
transpose (err e) = some (err e)

-- The stream after an item, with `len` the end or the length of the core.
unfoldable pub advance : ReadStream → ℕ → ReadStream
advance s len =
    let index = add64 s.index 1 in
    let s' = record s { index = index } in
    if (len == index) && not s.live
    then record s' { finished = true }
    else if len == index
    then record s' { future = onappend_future index }
    else record s' { future = get_future index }

unfoldable pub poll_next :
    {E : Type 0} → ReadStream → Poll (GetOutput E) → ℕ → Poll (Option (Result E Bytes)) × ReadStream
unfolding advance
poll_next s polled core_len = if s.finished then (ready none, s) else elim polled [
  | pending ↦ (pending, s)
  | ready result ↦ (ready (transpose result), advance s (Option.get_or s.end core_len))
]

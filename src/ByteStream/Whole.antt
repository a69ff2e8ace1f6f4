-- ===== src/ByteStream/Whole.antt =====
-- Reading on until a read returns 0.
use mathlib.Core.Option
use mathlib.Core.Option.{Option}
use hyperspace_rs.Base.{
  ℕ, zero, suc, ◌<◌, ◌≡◌, List, [], ◌∷◌, ◌++◌, none, some, length, take, drop, u64_mod, Bytes, ok,
  err, ◌⊎◌, All,
}
use hyperspace_rs.ReadStream.{Poll, ready, GetOutput}
use hyperspace_rs.ByteStream.{ByteStream, idle, Outcome, waits, returns, panics, runs_on, poll_read}
use hyperspace_rs.ByteStream.Content.{IsIn}

module _ {E : Type 0} (get : ℕ → Poll (GetOutput E)) (buf : Bytes) where
  -- What a reader keeps of one read, given what the later reads return.
  abbrev collect : Outcome ℕ × ByteStream × Bytes → (ByteStream → Option Bytes) → Option Bytes
  collect (returns zero, s, buf') later = some []
  collect (returns (suc n), s, buf') later =
      Option.map (λ bytes. take (suc n) buf' ++ bytes) (later s)
  collect (waits, s, buf') later = none
  collect (panics, s, buf') later = none
  collect (runs_on, s, buf') later = none

  -- A reader that reads into `buf` until a read returns 0: all the bytes, or none where a read
  -- waits or panics, or the fuel runs out.
  unfoldable pub read_to_end : ℕ → ByteStream → Option Bytes
  read_to_end zero s = none
  read_to_end (suc fuel) s = collect (poll_read get s buf) (read_to_end fuel)

-- The feed: its blocks, none of them empty, and an error past the last.
pub record IsFeed {E : Type 0} (get : ℕ → Poll (GetOutput E)) (blocks : List Bytes) : Type 0 where
  pub blocks_given :
      (q : ℕ) (block : Bytes) (rest : List Bytes)
      → drop q blocks ≡ block ∷ rest
      → get q ≡ ready (ok (some block))
  pub past_end : (q : ℕ) → drop q blocks ≡ [] → (e : E) × (get q ≡ ready (err e))
  pub nonempty : All (λ block. 0 < length block) blocks
  pub bounded : length blocks < u64_mod

-- The stream is at the end, or in a block with at least one byte left.
abbrev IsPlaced : List Bytes → ByteStream → Type 0
IsPlaced blocks s =
    ((drop s.seq blocks ≡ []) × (s.state ≡ idle) × (s.block_offset ≡ 0))
    ⊎ ((block : Bytes) × (rest : List Bytes) × IsIn blocks block rest s
        × (s.block_offset < length block))

-- ===== src/ReadStream/Wait.antt =====
-- A live stream at the end of the core.
use mathlib.Core.Option
use hyperspace_rs.Base.{
  ℕ, ◌+◌, ◌<◌, ◌≡◌, refl, List, [], ◌∷◌, ◌++◌, map, Bool, true, false, if◌then◌else◌, add64-eq,
  u64_mod, arith, contains, ◌==◌,
}
use hyperspace_rs.RemoteCore.{HypercoreEvent, append, download}
use hyperspace_rs.ReadStream.{
  ready, ReadStream, GetOutput, get_future, onappend_future, onappend_get, poll_next, transpose,
}

-- The event ends the wait for block `seq`.
abbrev pub wakes : ℕ → HypercoreEvent → Bool
wakes seq append = true
wakes seq (download downloaded_seq) = downloaded_seq == seq

-- Downloads of other blocks are passed over: the wait for a block ends with the first append or
-- the download of that block, and the block is got then.
onappend_get_waits {ℓ} :
    {R : Type ℓ} (get : ℕ → R) (at_end : R) (seq : ℕ) (others : List ℕ) (event : HypercoreEvent)
    (events : List HypercoreEvent)
    → contains seq others ≡ false
    → wakes seq event ≡ true
    → onappend_get get at_end seq (map download others ++ event ∷ events) ≡ get seq
unfolding onappend_get
onappend_get_waits get at_end seq [] append events absent wake = refl
onappend_get_waits get at_end seq [] (download n) events absent wake = rw wake
onappend_get_waits get at_end seq (n ∷ others) event events absent wake =
    ground (arith, onappend_get_waits get at_end seq others event events)

module _ {E : Type 0} (s : ReadStream) (core_len : ℕ) (result : GetOutput E) where
  -- A live stream that has not finished yields what its future answers and never finishes: at
  -- the end (the length of the core, if no end was given) it waits for the next block, and
  -- elsewhere it gets the next block. The next index is below the bound of a u64.
  pub poll_next_live :
      s.live ≡ true
      → s.finished ≡ false
      → s.index + 1 < u64_mod
      → let (polled, s') = poll_next s (ready result) core_len in
        (polled ≡ ready (transpose result))
        × (s'.finished ≡ false)
        × (s'.index ≡ s.index + 1)
        × (s'.future ≡ (
            if Option.get_or s.end core_len == s.index + 1
            then onappend_future (s.index + 1)
            else get_future (s.index + 1)))
  unfolding poll_next
  poll_next_live live unfinished room =
      rw (unfinished, add64-eq s.index 1 room, live)
        (refl, ground arith, ground arith, ground arith)

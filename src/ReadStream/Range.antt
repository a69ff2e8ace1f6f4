-- ===== src/ReadStream/Range.antt =====
-- Reading a range that is not live, whatever polls are pending in between.
use mathlib.Core.Option
use hyperspace_rs.Base.{
  ℕ, suc, ◌+◌, ◌-◌, min, leb, ◌<◌, ◌≡◌, ◌≢◌, refl, ◌∙◌, List, [], ◌∷◌, map, Option, none, some,
  Bool, true, false, add64-eq, u64_mod, Bytes, Result, ok, arith, range_from, ℕ_discrete,
}
use hyperspace_rs.ReadStream.{
  Poll, pending, ready, ReadStream, GetOutput, GetFuture, get_future, onappend_future, new,
  poll_next, advance,
}

-- The block that a future gets.
abbrev pub seq_of : GetFuture → ℕ
seq_of (get_future seq) = seq
seq_of (onappend_future seq) = seq

module _ {E : Type 0} (block : ℕ → Bytes) (core_len : ℕ) where
  -- What a poll answers: nothing yet, or the block.
  abbrev answer : ReadStream → Bool → Poll (GetOutput E)
  answer s true = ready (ok (some (block (seq_of s.future))))
  answer s false = pending

  abbrev add_item : Poll (Option (Result E Bytes)) → List (Result E Bytes) → List (Result E Bytes)
  add_item (ready (some item)) items = item ∷ items
  add_item (ready none) items = items
  add_item pending items = items

  -- The items of a sequence of polls, where `true` is a poll whose future is ready.
  unfoldable pub polls : ReadStream → List Bool → List (Result E Bytes) × ReadStream
  unfolding poll_next
  polls s [] = ([], s)
  polls s (b ∷ bs) =
      let (item, s') = poll_next s (answer s b) core_len in
      let (items, s'') = polls s' bs in (add_item item items, s'')

  polls_finished : (s : ReadStream) (bs : List Bool) → s.finished ≡ true → polls s bs ≡ ([], s)
  unfolding polls poll_next
  polls_finished s [] done = refl
  polls_finished s (b ∷ bs) done = ground (arith, polls_finished s bs done)

-- The polls whose future is ready.
abbrev pub count_true : List Bool → ℕ
count_true [] = 0
count_true (true ∷ bs) = suc (count_true bs)
count_true (false ∷ bs) = count_true bs

-- The step from one block to the next, where the stream is not live: on to the next block unless
-- the end is reached there, and else to the end of the stream.
advance_on :
    (i last : ℕ) (end : Option ℕ)
    → i + 1 < u64_mod
    → last ≢ i + 1
    → advance (new i end false) last ≡ new (i + 1) end false
unfolding advance new
advance_on i last end room ne = rw (add64-eq i 1 room) (ground arith)

advance_end :
    (i : ℕ) (end : Option ℕ) → i + 1 < u64_mod → (advance (new i end false) (i + 1)).finished ≡ true
unfolding advance new
advance_end i end room = rw (add64-eq i 1 room) (ground arith)

module _ {E : Type 0} (block : ℕ → Bytes) (core_len : ℕ) (end : Option ℕ) where
  abbrev pub blocks_from : ℕ → ℕ → List (Result E Bytes)
  blocks_from i n = map (λ seq. ok (block seq)) (range_from i n)

  poll_pending :
      (i : ℕ) (bs : List Bool)
      → polls {E = E} block core_len (new i end false) (false ∷ bs)
        ≡ polls block core_len (new i end false) bs
  unfolding polls poll_next new
  poll_pending i bs = refl

  poll_ready :
      (i : ℕ) (bs : List Bool)
      → let s' = advance (new i end false) (Option.get_or end core_len) in
        polls {E = E} block core_len (new i end false) (true ∷ bs) ≡ (
          ok (block i) ∷ (polls {E = E} block core_len s' bs).0,
          (polls {E = E} block core_len s' bs).1,
        )
  unfolding polls poll_next new
  poll_ready i bs = refl

  poll_none : (i : ℕ) → polls {E = E} block core_len (new i end false) [] ≡ ([], new i end false)
  unfolding polls
  poll_none i = refl

  -- The two ways on from a block that was read.
  stops :
      (i : ℕ) (bs : List Bool)
      → Option.get_or end core_len ≡ i + 1
      → Option.get_or end core_len < u64_mod
      → let left = Option.get_or end core_len - i in
        let s' = advance (new i end false) (Option.get_or end core_len) in
        (ok (block i) ∷ (polls {E = E} block core_len s' bs).0
          ≡ blocks_from i (min (suc (count_true bs)) left))
        × ((polls {E = E} block core_len s' bs).1.finished ≡ leb left (suc (count_true bs)))
  stops i bs at_end bound =
      let s' = advance (new i end false) (Option.get_or end core_len) in
      let done : s'.finished ≡ true = rw at_end (advance_end i end (omega arith)) in
      let size : min (suc (count_true bs)) (Option.get_or end core_len - i) ≡ 1 = omega arith in
      rw (polls_finished {E = E} block core_len s' bs done, size) (refl, done ∙ ground arith)

  goes_on :
      (i : ℕ) (bs : List Bool)
      → Option.get_or end core_len ≢ i + 1
      → i < Option.get_or end core_len
      → Option.get_or end core_len < u64_mod
      → ((polls {E = E} block core_len (new (i + 1) end false) bs).0
          ≡ blocks_from (i + 1) (min (count_true bs) (Option.get_or end core_len - (i + 1))))
        × ((polls {E = E} block core_len (new (i + 1) end false) bs).1.finished
            ≡ leb (Option.get_or end core_len - (i + 1)) (count_true bs))
      → let left = Option.get_or end core_len - i in
        let s' = advance (new i end false) (Option.get_or end core_len) in
        (ok (block i) ∷ (polls {E = E} block core_len s' bs).0
          ≡ blocks_from i (min (suc (count_true bs)) left))
        × ((polls {E = E} block core_len s' bs).1.finished ≡ leb left (suc (count_true bs)))
  goes_on i bs more before bound (items, done) =
      let size : min (suc (count_true bs)) (Option.get_or end core_len - i)
          ≡ suc (min (count_true bs) (Option.get_or end core_len - (i + 1))) =
        omega arith in
      rw (advance_on i (Option.get_or end core_len) end (omega arith) more, size)
        (rw items refl, rw done (ground arith))

  -- A stream that is not live and starts before its end (the length of the core, if no end was
  -- given) yields the blocks from its start on, in order and each once, one for each poll whose
  -- future is ready, and stops exactly at the end, however many polls are pending or follow.
  -- The end is below the bound of a u64.
  pub polls_range :
      (i : ℕ) (bs : List Bool)
      → i < Option.get_or end core_len
      → Option.get_or end core_len < u64_mod
      → let left = Option.get_or end core_len - i in
        ((polls {E = E} block core_len (new i end false) bs).0
          ≡ blocks_from i (min (count_true bs) left))
        × ((polls {E = E} block core_len (new i end false) bs).1.finished
            ≡ leb left (count_true bs))
  unfolding new
  polls_range i [] before bound =
      let none_read : min 0 (Option.get_or end core_len - i) ≡ 0 = omega arith in
      rw (none_read, poll_none i) (refl, ground arith)
  polls_range i (false ∷ bs) before bound = rw (poll_pending i bs) (polls_range i bs before bound)
  polls_range i (true ∷ bs) before bound =
      rw (poll_ready i bs) (elim (ℕ_discrete (Option.get_or end core_len) (i + 1)) [
        | yes at_end ↦ stops i bs at_end bound
        | no more ↦ goes_on i bs more before bound (polls_range (i + 1) bs (omega arith) bound)
      ])

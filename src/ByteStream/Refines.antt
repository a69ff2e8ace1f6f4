-- ===== src/ByteStream/Refines.antt =====
-- A byte stream as a cursor in the concatenation of the blocks, for any buffers and polls.
use hyperspace_rs.Base.{
  ℕ, ◌+◌, ◌-◌, ◌<◌, ◌≡◌, refl, sym, ◌∙◌, ap, ap₂, List, [], ◌∷◌, ◌++◌, Bool, true, false, length,
  take, drop, min, u64_mod, Bytes, arith, inl, inr, ◌⊎◌, subst, append_assoc, length-drop, concat,
  take-take_append, take-append-drop,
}
use hyperspace_rs.ReadStream.{ready, GetOutput}
use hyperspace_rs.ByteStream.{
  ByteStream, idle, reading, ready_block, finished, Outcome, waits, returns, panics, runs_on,
  poll_read, new,
}
use hyperspace_rs.ByteStream.Read.{fits}
use hyperspace_rs.ByteStream.Content.{
  remaining, IsIn, poll_read_next, poll_read-eq, fits-le-remaining,
}
use hyperspace_rs.ByteStream.Placed.{
  IsServed, answer, IsPlaced, IsPlaced-next, after_read-IsPlaced, waits_idle, waits_reading,
  finishes, stays_finished, held_already,
}

-- The bytes that a call returns.
abbrev pub bytes_of : Outcome ℕ → Bytes → Bytes
bytes_of (returns n) buf = take n buf
bytes_of waits buf = []
bytes_of panics buf = []
bytes_of runs_on buf = []

-- The calls of a reader, each with its buffer and whether the block is there: the bytes that they
-- return, one after the other.
unfoldable pub reads :
    {E : Type 0} → (ℕ → GetOutput E) → List (Bytes × Bool) → ByteStream → Bytes × ByteStream
reads given [] s = ([], s)
reads given ((buf, there) ∷ calls) s =
    let r = poll_read (answer given there) s buf in
    let (bytes, s') = reads given calls r.1 in (bytes_of r.0 r.2 ++ bytes, s')

-- A call keeps the stream placed and returns the next of the bytes that remained.
abbrev Advances : List Bytes → ByteStream → Outcome ℕ × ByteStream × Bytes → Type 0
Advances blocks s r =
    IsPlaced blocks r.1 × (bytes_of r.0 r.2 ++ remaining blocks r.1 ≡ remaining blocks s)

module _ {E : Type 0} {given : ℕ → GetOutput E} {blocks : List Bytes}
    (served : IsServed given blocks) where
  -- A call that has its block.
  block_there :
      (s : ByteStream) (buf block : Bytes) (rest : List Bytes)
      → IsIn blocks block rest s
      → Advances blocks s (poll_read (answer given true) s buf)
  block_there s buf block rest at =
      let got = ap ready (served.blocks_given s.seq block rest at.here) in
      let room : s.seq + 1 < u64_mod =
        omega (arith, served.bounded, length-drop s.seq blocks, ap length at.here) in
      let next = poll_read-eq at (answer given true) buf got in
      let (out, copied, moved) = poll_read_next at (answer given true) buf got room in
      let size = length-drop s.block_offset block in
      let n = min (length buf) (length block - s.block_offset) in
      let whole = remaining blocks s in
      (
        subst (IsPlaced blocks) (sym (ap (λ r. r.1) next)) (
            after_read-IsPlaced served s block rest (fits s block buf) at (omega (arith, size))
              room),
        ap₂ (λ o b. bytes_of o b ++ remaining blocks (poll_read (answer given true) s buf).1) out
              copied
            ∙ ap₂ ◌++◌
                (take-take_append n whole (drop n buf)
                  (omega (arith, size, fits-le-remaining at buf)))
                moved
            ∙ take-append-drop n whole,
      )

  -- A call at the end, or one that does not have its block, is known by what it does.
  advances :
      {r : Outcome ℕ × ByteStream × Bytes} (s t : ByteStream) (o : Outcome ℕ) (buf : Bytes)
      → r ≡ (o, t, buf)
      → bytes_of o buf ≡ []
      → IsPlaced blocks t
      → remaining blocks t ≡ remaining blocks s
      → Advances blocks s r
  advances s t o buf e nothing placed same =
      subst (Advances blocks s) (sym e) (placed, ap₂ ◌++◌ nothing same)

  poll_read-Advances :
      (there : Bool) (s : ByteStream) (buf : Bytes)
      → IsPlaced blocks s
      → Advances blocks s (poll_read (answer given there) s buf)
  poll_read-Advances true s buf (inr (block, rest, at)) = block_there s buf block rest at
  poll_read-Advances false s buf (inr (block, rest, at)) = without at.known
    where
      without :
          (s.state ≡ idle) ⊎ ((s.state ≡ reading s.seq) ⊎ (s.state ≡ ready_block block))
          → Advances blocks s (poll_read (answer given false) s buf)
      without (inl e) =
          advances s (record s { state = reading s.seq }) waits buf (waits_idle served s buf e) refl
            (inr
              (block, rest, record { here = at.here; inside = at.inside; known = inr (inl refl) }))
            refl
      without (inr (inl e)) =
          advances s s waits buf (waits_reading served s buf s.seq e) refl (inr (block, rest, at))
            refl
      without (inr (inr e)) =
          subst (Advances blocks s) (held_already served s buf block e at.inside)
            (block_there s buf block rest at)
  poll_read-Advances there s buf (inl (here, start, known)) = at_end there known
    where
      at_end :
          (b : Bool)
          → (s.state ≡ idle) ⊎ ((s.state ≡ reading s.seq) ⊎ (s.state ≡ finished))
          → Advances blocks s (poll_read (answer given b) s buf)
      at_end b (inr (inr e)) =
          advances s s (returns 0) buf (stays_finished served s buf b e) refl
            (inl (here, start, inr (inr e))) refl
      at_end true (inl e) =
          advances s (record s { state = finished }) (returns 0) buf
            (finishes served s buf s.seq here (inl (e, refl))) refl
            (inl (here, start, inr (inr refl))) refl
      at_end true (inr (inl e)) =
          advances s (record s { state = finished }) (returns 0) buf
            (finishes served s buf s.seq here (inr e)) refl (inl (here, start, inr (inr refl))) refl
      at_end false (inl e) =
          advances s (record s { state = reading s.seq }) waits buf (waits_idle served s buf e) refl
            (inl (here, start, inr (inl refl))) refl
      at_end false (inr (inl e)) =
          advances s s waits buf (waits_reading served s buf s.seq e) refl
            (inl (here, start, inr (inl e))) refl

  reads-remaining :
      (calls : List (Bytes × Bool)) (s : ByteStream)
      → IsPlaced blocks s
      → (reads given calls s).0 ++ remaining blocks (reads given calls s).1 ≡ remaining blocks s
  unfolding reads
  reads-remaining [] s placed = refl
  reads-remaining ((buf, there) ∷ calls) s placed =
      let (next, moved) = poll_read-Advances there s buf placed in
      let r = poll_read (answer given there) s buf in
      append_assoc (bytes_of r.0 r.2) (reads given calls r.1).0 _
      ∙ ap (λ xs. bytes_of r.0 r.2 ++ xs) (reads-remaining calls r.1 next)
      ∙ moved

  -- A new stream, read with any buffers and with any calls that find their block not there yet,
  -- returns a prefix of the concatenation of the blocks, and what remains of the stream is the
  -- rest: a cursor in a string of bytes. Past the last block the core answers with an error, and
  -- there are fewer than 2^64 blocks.
  pub reads_refine :
      (calls : List (Bytes × Bool))
      → let (bytes, s) = reads given calls new in bytes ++ remaining blocks s ≡ concat blocks
  unfolding new
  reads_refine calls = reads-remaining calls new (IsPlaced-next served new blocks refl refl refl)

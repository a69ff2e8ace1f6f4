-- ===== src/ByteStream/Seek.antt =====
-- `poll_seek`, and what a read before it leaves behind.
use hyperspace_rs.Base.{
  ℕ, zero, suc, ◌<◌, ◌≡◌, ◌≢◌, refl, ◌∙◌, ap, none, some, Bytes, ok, err, arith, add64-eq, u64_mod,
}
use hyperspace_rs.ReadStream.{Poll, pending, ready, GetOutput}
use hyperspace_rs.ByteStream.{
  ByteStream, State, idle, seeking, reading, ready_block, finished, Outcome, returns, start,
  current, SeekOutput, Round, read_polled, read_block, read_round, read_loop, poll_read, poll_seek,
  after_round, poll_seek_state, start_seek, seek_target,
}

module _ {E : Type 0} (seek : ℕ → Poll (SeekOutput E)) where
  -- A seek from the start, where no seek is under way and the core answers with a block and an
  -- offset in it, returns the byte offset and places the stream there, whatever it did before.
  poll_seek_start :
      (s : ByteStream) (offset seq block_offset : ℕ)
      → ((n : ℕ) → s.state ≢ seeking n)
      → seek offset ≡ ready (ok (seq, block_offset))
      → poll_seek seek s (start offset) ≡ (
        returns offset,
        record { seq = seq; block_offset = block_offset; byte_offset = offset; state = idle },
      )
  unfolding poll_seek
  poll_seek_start s offset seq block_offset free found = from s.state free
    where
      from :
          (st : State)
          → ((n : ℕ) → st ≢ seeking n)
          → poll_seek_state seek st s (start offset) ≡ (
            returns offset,
            record { seq = seq; block_offset = block_offset; byte_offset = offset; state = idle },
          )
      from (seeking n) h = absurd (h n refl)
      from idle h = rw found
      from (reading _) h = rw found
      from (ready_block _) h = rw found
      from finished h = rw found

module _ {E : Type 0} (get : ℕ → Poll (GetOutput E)) where
  read_polled-byte_offset :
      (s : ByteStream) (buf : Bytes) (polled : Poll (GetOutput E))
      → (read_polled get s buf polled).stream.byte_offset ≡ s.byte_offset
  unfolding read_polled
  read_polled-byte_offset s buf pending = refl
  read_polled-byte_offset s buf (ready (err e)) = refl
  read_polled-byte_offset s buf (ready (ok none)) = refl
  read_polled-byte_offset s buf (ready (ok (some block))) = refl

  read_block-byte_offset :
      (s : ByteStream) (buf block : Bytes)
      → (read_block s buf block).stream.byte_offset ≡ s.byte_offset
  unfolding read_block
  read_block-byte_offset s buf block = ground arith

  read_round-byte_offset :
      (st : State) (s : ByteStream) (buf : Bytes)
      → (read_round get st s buf).stream.byte_offset ≡ s.byte_offset
  unfolding read_round
  read_round-byte_offset (seeking n) s buf = refl
  read_round-byte_offset finished s buf = refl
  read_round-byte_offset idle s buf = refl
  read_round-byte_offset (reading seq) s buf = read_polled-byte_offset s buf (get seq)
  read_round-byte_offset (ready_block block) s buf = read_block-byte_offset s buf block

  after_round-byte_offset :
      (go : ByteStream → Bytes → Outcome ℕ × ByteStream × Bytes) (r : Round ℕ)
      → ((s : ByteStream) (buf : Bytes) → (go s buf).1.byte_offset ≡ s.byte_offset)
      → (after_round go r).1.byte_offset ≡ r.stream.byte_offset
  after_round-byte_offset go r h = ground (arith, h r.stream r.buf)

  read_loop-byte_offset :
      (f : ℕ) (s : ByteStream) (buf : Bytes) → (read_loop get f s buf).1.byte_offset ≡ s.byte_offset
  unfolding read_loop
  read_loop-byte_offset zero s buf = refl
  read_loop-byte_offset (suc f) s buf =
      after_round-byte_offset (read_loop get f) (read_round get s.state s buf)
        (read_loop-byte_offset f)
      ∙ read_round-byte_offset s.state s buf

  poll_read-byte_offset :
      (s : ByteStream) (buf : Bytes) → (poll_read get s buf).1.byte_offset ≡ s.byte_offset
  unfolding poll_read
  poll_read-byte_offset s buf = read_loop-byte_offset 3 s buf

module _ {E : Type 0} (get : ℕ → Poll (GetOutput E)) (seek : ℕ → Poll (SeekOutput E)) where
  seek_here :
      (st : State) (s : ByteStream)
      → s.byte_offset < u64_mod
      → poll_seek_state seek st s (current 0) ≡ poll_seek_state seek st s (start s.byte_offset)
  unfolding poll_seek_state
  seek_here st s bound = same st
    where
      here : seek_target s (current 0) ≡ seek_target s (start s.byte_offset)
      here = ap some (add64-eq s.byte_offset 0 (omega arith) ∙ omega arith)

      same :
          (t : State)
          → poll_seek_state seek t s (current 0) ≡ poll_seek_state seek t s (start s.byte_offset)
      same (seeking n) = refl
      same idle = ap (start_seek seek s) here
      same (reading _) = ap (start_seek seek s) here
      same (ready_block _) = ap (start_seek seek s) here
      same finished = ap (start_seek seek s) here

  -- A read does not move the byte offset of the stream: after a read of any number of bytes, to
  -- seek by 0 from the current position is to seek to the offset that the stream had before it.
  -- The offset is below the bound of a u64.
  pub poll_seek_current_stale :
      (s : ByteStream) (buf : Bytes)
      → s.byte_offset < u64_mod
      → let s' = (poll_read get s buf).1 in
        poll_seek seek s' (current 0) ≡ poll_seek seek s' (start s.byte_offset)
  unfolding poll_seek
  poll_seek_current_stale s buf bound =
      let s' = (poll_read get s buf).1 in
      let kept = poll_read-byte_offset get s buf in
      seek_here s'.state s' (rw kept bound)
      ∙ ap (λ offset. poll_seek_state seek s'.state s' (start offset)) kept

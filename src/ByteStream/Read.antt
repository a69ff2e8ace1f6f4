-- ===== src/ByteStream/Read.antt =====
-- `poll_read`: the bytes that a read returns, and the stream after it.
use hyperspace_rs.Base.{
  ℕ, suc, ◌+◌, ◌≤◌, ◌≡◌, refl, ◌∙◌, ap, some, false, if◌then◌else◌, length, take, drop, min, add64,
  Bytes, ok, arith, ltb, ◌==◌,
}
use hyperspace_rs.ReadStream.{Poll, ready, GetOutput}
use hyperspace_rs.ByteStream.{
  ByteStream, idle, reading, ready_block, Outcome, returns, copy_into, read_block, read_polled,
  read_round, read_loop, after_round,
}

-- The stream after `n` bytes of `block` were read.
abbrev pub after_read : ByteStream → Bytes → ℕ → ByteStream
after_read s block n =
    if s.block_offset + n == length block
    then record s { seq = add64 s.seq 1; block_offset = 0; state = idle }
    else record s { block_offset = s.block_offset + n; state = ready_block block }

-- What is left of the block, and how much of it fits into the buffer.
abbrev pub left_of : ByteStream → Bytes → Bytes
left_of s block = drop s.block_offset block

abbrev pub fits : ByteStream → Bytes → Bytes → ℕ
fits s block buf = min (length buf) (length (left_of s block))

abbrev result : ByteStream → Bytes → Bytes → Outcome ℕ × ByteStream × Bytes
result s block buf =
    let n = fits s block buf in
    (returns n, after_read s block n, copy_into buf 0 (take n (left_of s block)))

module _ {E : Type 0} (get : ℕ → Poll (GetOutput E)) (buf block : Bytes) where
  pub loop_ready :
      (f : ℕ) (s : ByteStream)
      → s.state ≡ ready_block block
      → s.block_offset ≤ length block
      → read_loop get (suc f) s buf ≡ result s block buf
  unfolding read_loop read_round read_block
  loop_ready f s e inside =
      let within : ltb (length block) s.block_offset ≡ false = ground arith in
      ap (λ st. after_round (read_loop get f) (read_round get st s buf)) e ∙ rw within

  pub loop_reading :
      (f : ℕ) (s : ByteStream) (seq : ℕ)
      → s.state ≡ reading seq
      → get seq ≡ ready (ok (some block))
      → s.block_offset ≤ length block
      → read_loop get (suc (suc f)) s buf ≡ result s block buf
  unfolding read_loop read_round read_polled
  loop_reading f s seq e got inside =
      ap (λ st. after_round (read_loop get (suc f)) (read_round get st s buf)) e
      ∙ ap (λ polled. after_round (read_loop get (suc f)) (read_polled get s buf polled)) got
      ∙ loop_ready f (record s { state = ready_block block }) refl inside

  pub loop_idle :
      (f : ℕ) (s : ByteStream)
      → s.state ≡ idle
      → get s.seq ≡ ready (ok (some block))
      → s.block_offset ≤ length block
      → read_loop get (suc (suc (suc f))) s buf ≡ result s block buf
  unfolding read_loop read_round read_polled
  loop_idle f s e got inside =
      ap (λ st. after_round (read_loop get (suc (suc f))) (read_round get st s buf)) e
      ∙ loop_reading f (record s { state = reading s.seq }) s.seq refl got inside

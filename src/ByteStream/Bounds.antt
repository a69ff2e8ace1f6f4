-- ===== src/ByteStream/Bounds.antt =====
-- `poll_read` in every state and for every answer of the core: how its loop ends, and the buffer.
use hyperspace_rs.Base.{
  ℕ, suc, ◌+◌, ◌≤◌, ◌≡◌, ◌≢◌, refl, ap, sym, ◌∙◌, ◌++◌, none, some, length, take, drop, min, Bytes,
  ok, err, arith, ltb, length-append, length-take, length-drop, drop_append, drop_all, Bool-cases,
  inl, inr, subst,
}
use hyperspace_rs.ReadStream.{Poll, pending, ready, GetOutput}
use hyperspace_rs.ByteStream.{
  ByteStream, State, idle, seeking, reading, ready_block, finished, Outcome, waits, returns, panics,
  runs_on, copy_into, read_block, read_polled, read_round, read_loop, poll_read, after_round, Round,
}

-- What a call leaves of the buffer: its length, and what is behind the bytes that it returns.
abbrev pub IsWithin : Bytes → Outcome ℕ × ByteStream × Bytes → Type 0
IsWithin buf (o, s, buf') =
    (o ≢ runs_on)
    × (length buf' ≡ length buf)
    × ((n : ℕ) → o ≡ returns n → (n ≤ length buf) × (drop n buf' ≡ drop n buf))

length-copy_into :
    (buf src : Bytes) → length src ≤ length buf → length (copy_into buf 0 src) ≡ length buf
length-copy_into buf src h =
    omega (arith, length-append src (drop (0 + length src) buf), length-drop (0 + length src) buf)

drop-copy_into : (buf src : Bytes) → drop (length src) (copy_into buf 0 src) ≡ drop (length src) buf
drop-copy_into buf src =
    drop_append (length src) src (drop (0 + length src) buf) (omega arith)
    ∙ ap (λ xs. xs ++ drop (0 + length src) buf) (drop_all src)
    ∙ ap (λ n. drop n buf) (omega arith)

-- A round that ends the call.
abbrev Ends : Bytes → Round ℕ → Type 0
Ends buf r = (o : Outcome ℕ) × (r.outcome ≡ some o) × IsWithin buf (o, r.stream, r.buf)

read_block-Ends : (s : ByteStream) (buf block : Bytes) → Ends buf (read_block s buf block)
unfolding read_block
read_block-Ends s buf block = elim (Bool-cases (ltb (length block) s.block_offset)) [
  | inl h ↦ (
    panics,
    ground (arith, h),
    ((λ e. ground (arith, e)), ground (arith, h), λ n e. absurd (ground (arith, e))),
  )
  | inr h ↦
      let slice = drop s.block_offset block in
      let len = min (length buf) (length slice) in
      let src = take len slice in
      let size : length src ≡ len = omega (arith, length-take len slice) in
      let same : (read_block s buf block).buf ≡ copy_into buf 0 src = ground (arith, h) in
      (
        returns len,
        ground (arith, h),
        (
          (λ e. ground (arith, e)),
          ap length same ∙ length-copy_into buf src (omega (arith, size)),
          λ n e.
              let it : len ≡ n = ground (arith, e) in
              (
                omega (arith, it),
                ap (drop n) same
                    ∙ ap (λ m. drop m (copy_into buf 0 src)) (sym (size ∙ it))
                    ∙ drop-copy_into buf src
                    ∙ ap (λ m. drop m buf) (size ∙ it),
              ),
        ),
      )
]

module _ {E : Type 0} (get : ℕ → Poll (GetOutput E)) where
  loop-Ends :
      (f : ℕ) (s : ByteStream) (buf : Bytes)
      → Ends buf (read_round get s.state s buf)
      → IsWithin buf (read_loop get (suc f) s buf)
  unfolding read_loop
  loop-Ends f s buf (o, e, within) = subst (IsWithin buf) (sym (ended e)) within
    where
      ended :
          {o : Outcome ℕ}
          → (read_round get s.state s buf).outcome ≡ some o
          → read_loop get (suc f) s buf
            ≡ (o, (read_round get s.state s buf).stream, (read_round get s.state s buf).buf)
      ended h = ground (arith, h)

  -- The loop is over in the round that has a block or is finished; the round that polls comes
  -- before it, and the round that is idle before that.
  loop_block :
      (f : ℕ) (s : ByteStream) (buf block : Bytes)
      → s.state ≡ ready_block block
      → IsWithin buf (read_loop get (suc f) s buf)
  unfolding read_round
  loop_block f s buf block e =
      loop-Ends f s buf
        (subst (λ st. Ends buf (read_round get st s buf)) (sym e) (read_block-Ends s buf block))

  loop_finished :
      (f : ℕ) (s : ByteStream) (buf : Bytes)
      → s.state ≡ finished
      → IsWithin buf (read_loop get (suc f) s buf)
  unfolding read_round
  loop_finished f s buf e = loop-Ends f s buf (
      subst (λ st. Ends buf (read_round get st s buf)) (sym e)
        (returns 0, refl, ((λ h. ground (arith, h)), refl, λ n h. (ground (arith, h), refl))))

  stops :
      (buf : Bytes) (s : ByteStream) (o : Outcome ℕ)
      → o ≢ runs_on
      → ((n : ℕ) → o ≢ returns n)
      → IsWithin buf (o, s, buf)
  stops buf s o h k = (h, refl, λ n e. absurd (k n e))

  loop_polled :
      (f : ℕ) (s : ByteStream) (buf : Bytes) (polled : Poll (GetOutput E))
      → IsWithin buf (after_round (read_loop get (suc f)) (read_polled get s buf polled))
  unfolding read_polled
  loop_polled f s buf pending =
      stops buf s waits (λ e. ground (arith, e)) (λ n e. ground (arith, e))
  loop_polled f s buf (ready (err e)) = loop_finished f (record s { state = finished }) buf refl
  loop_polled f s buf (ready (ok none)) =
      stops buf s panics (λ e. ground (arith, e)) (λ n e. ground (arith, e))
  loop_polled f s buf (ready (ok (some block))) =
      loop_block f (record s { state = ready_block block }) buf block refl

  loop_reading :
      (f seq : ℕ) (s : ByteStream) (buf : Bytes)
      → s.state ≡ reading seq
      → IsWithin buf (read_loop get (suc (suc f)) s buf)
  unfolding read_loop read_round
  loop_reading f seq s buf e =
      subst (λ st. IsWithin buf (after_round (read_loop get (suc f)) (read_round get st s buf)))
        (sym e) (loop_polled f s buf (get seq))

  -- A read always ends, in three rounds of its loop at most, whatever state the stream is in and
  -- whatever the core answers: it waits, panics, or returns at most as many bytes as the buffer
  -- has room for. The buffer keeps its length, and what is behind the bytes that were returned
  -- is as before.
  pub poll_read-IsWithin : (s : ByteStream) (buf : Bytes) → IsWithin buf (poll_read get s buf)
  unfolding poll_read read_loop read_round
  poll_read-IsWithin s buf = by_state s.state refl
    where
      by_state : (st : State) → s.state ≡ st → IsWithin buf (read_loop get 3 s buf)
      by_state (seeking n) e =
          subst (λ st. IsWithin buf (after_round (read_loop get 2) (read_round get st s buf)))
            (sym e) (stops buf s panics (λ h. ground (arith, h)) (λ n h. ground (arith, h)))
      by_state finished e = loop_finished 2 s buf e
      by_state (ready_block block) e = loop_block 2 s buf block e
      by_state (reading seq) e = loop_reading 1 seq s buf e
      by_state idle e =
          subst (λ st. IsWithin buf (after_round (read_loop get 2) (read_round get st s buf)))
            (sym e) (loop_reading 0 s.seq (record s { state = reading s.seq }) buf refl)

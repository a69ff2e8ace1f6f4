-- ===== src/ByteStream/Placed.antt =====
-- The places of a byte stream in the blocks of its core, and what a call does that has no block to
-- read.
use hyperspace_rs.Base.{
  ℕ, suc, ◌+◌, ◌<◌, ◌≤◌, ◌≡◌, refl, sym, ◌∙◌, ap, List, [], ◌∷◌, some, Bool, true, false, length,
  drop, add64-eq, u64_mod, Bytes, ok, err, arith, inl, inr, ◌⊎◌, drop-drop, ℕ_discrete,
}
use hyperspace_rs.ReadStream.{Poll, pending, ready, GetOutput}
use hyperspace_rs.ByteStream.{
  ByteStream, idle, reading, ready_block, finished, waits, returns, poll_read, read_loop,
  read_round, read_polled, after_round,
}
use hyperspace_rs.ByteStream.Read.{after_read, loop_ready}
use hyperspace_rs.ByteStream.Content.{IsIn, after_read_end, after_read_mid}

-- What the core answers for each block once it is there: the blocks, and past them an error.
pub record IsServed {E : Type 0} (given : ℕ → GetOutput E) (blocks : List Bytes) : Type 0 where
  pub blocks_given :
      (q : ℕ) (block : Bytes) (rest : List Bytes)
      → drop q blocks ≡ block ∷ rest
      → given q ≡ ok (some block)
  pub past_end : (q : ℕ) → drop q blocks ≡ [] → (e : E) × (given q ≡ err e)
  pub bounded : length blocks < u64_mod

-- A poll that finds the block there, or does not.
abbrev pub answer : {E : Type 0} → (ℕ → GetOutput E) → Bool → ℕ → Poll (GetOutput E)
answer given true q = ready (given q)
answer given false q = pending

-- The stream is at the end, or in a block.
abbrev pub IsPlaced : List Bytes → ByteStream → Type 0
IsPlaced blocks s =
    ((drop s.seq blocks ≡ [])
      × (s.block_offset ≡ 0)
      × ((s.state ≡ idle) ⊎ ((s.state ≡ reading s.seq) ⊎ (s.state ≡ finished))))
    ⊎ ((block : Bytes) × (rest : List Bytes) × IsIn blocks block rest s)

module _ {E : Type 0} {given : ℕ → GetOutput E} {blocks : List Bytes}
    (served : IsServed given blocks) where
  pub IsPlaced-next :
      (s : ByteStream) (xs : List Bytes)
      → drop s.seq blocks ≡ xs
      → s.state ≡ idle
      → s.block_offset ≡ 0
      → IsPlaced blocks s
  IsPlaced-next s [] here rested start = inl (here, start, inl rested)
  IsPlaced-next s (block ∷ rest) here rested start =
      inr (block, rest, record { here = here; inside = omega arith; known = inl rested })

  pub after_read-IsPlaced :
      (s : ByteStream) (block : Bytes) (rest : List Bytes) (n : ℕ)
      → IsIn blocks block rest s
      → s.block_offset + n ≤ length block
      → s.seq + 1 < u64_mod
      → IsPlaced blocks (after_read s block n)
  after_read-IsPlaced s block rest n at within room =
      elim (ℕ_discrete (s.block_offset + n) (length block)) [
        | yes e ↦ rw (after_read_end s block n e) (
            IsPlaced-next _ rest
              (rw (add64-eq s.seq 1 room) (sym (drop-drop 1 s.seq blocks) ∙ ap (drop 1) at.here))
              refl refl)
        | no e ↦
            rw (after_read_mid s block n e) (
              inr (block, rest, record { here = at.here; inside = within; known = inr (inr refl) }))
      ]

  module _ (s : ByteStream) (buf : Bytes) where
    -- The first round of a call, and the second after one that was idle.
    from_reading :
        (there : Bool) (f q : ℕ)
        → s.state ≡ reading q
        → read_loop (answer given there) (suc f) s buf
          ≡ after_round
              (read_loop (answer given there) f)
              (read_polled (answer given there) s buf (answer given there q))
    unfolding read_loop read_round
    from_reading there f q e =
        ap
          (λ st.
            after_round (read_loop (answer given there) f)
              (read_round (answer given there) st s buf))
          e

    from_idle :
        (there : Bool) (f : ℕ)
        → s.state ≡ idle
        → read_loop (answer given there) (suc (suc f)) s buf
          ≡ after_round (read_loop (answer given there) f) (
              read_polled
                (answer given there)
                (record s { state = reading s.seq })
                buf
                (answer given there s.seq))
    unfolding read_loop read_round
    from_idle there f e =
        ap
          (λ st.
            after_round (read_loop (answer given there) (suc f))
              (read_round (answer given there) st s buf))
          e

    pub waits_idle :
        s.state ≡ idle
        → poll_read (answer given false) s buf ≡ (waits, record s { state = reading s.seq }, buf)
    unfolding poll_read read_polled
    waits_idle e = from_idle false 1 e

    pub waits_reading :
        (q : ℕ) → s.state ≡ reading q → poll_read (answer given false) s buf ≡ (waits, s, buf)
    unfolding poll_read read_polled
    waits_reading q e = from_reading false 2 q e

    pub finishes :
        (q : ℕ)
        → drop q blocks ≡ []
        → (s.state ≡ idle) × (s.seq ≡ q) ⊎ (s.state ≡ reading q)
        → poll_read (answer given true) s buf ≡ (returns 0, record s { state = finished }, buf)
    unfolding poll_read read_polled read_loop read_round
    finishes q here (inl (e, at)) =
        let (x, got) = served.past_end s.seq (ap (λ n. drop n blocks) at ∙ here) in
        from_idle true 1 e
        ∙ ap
            (λ polled. after_round (read_loop (answer given true) 1) (
              read_polled (answer given true) (record s { state = reading s.seq }) buf
                (ready polled)))
            got
    finishes q here (inr e) =
        let (x, got) = served.past_end q here in
        from_reading true 2 q e
        ∙ ap
            (λ polled.
              after_round (read_loop (answer given true) 2)
                (read_polled (answer given true) s buf (ready polled)))
            got

    pub stays_finished :
        (there : Bool)
        → s.state ≡ finished
        → poll_read (answer given there) s buf ≡ (returns 0, s, buf)
    unfolding poll_read read_loop read_round
    stays_finished there e =
        ap
          (λ st.
            after_round (read_loop (answer given there) 2)
              (read_round (answer given there) st s buf))
          e

  -- A block that is held already is not asked for.
  pub held_already :
      (s : ByteStream) (buf block : Bytes)
      → s.state ≡ ready_block block
      → s.block_offset ≤ length block
      → poll_read (answer given true) s buf ≡ poll_read (answer given false) s buf
  unfolding poll_read
  held_already s buf block e inside =
      loop_ready (answer given true) buf block 2 s e inside
      ∙ sym (loop_ready (answer given false) buf block 2 s e inside)

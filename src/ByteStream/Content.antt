-- ===== src/ByteStream/Content.antt =====
-- What the position of a byte stream means: the bytes that are left of the blocks.
use hyperspace_rs.Base.{
  ℕ, ◌+◌, ◌-◌, ◌<◌, ◌≤◌, ◌≡◌, ◌≢◌, refl, sym, ◌∙◌, ap, List, ◌∷◌, ◌++◌, some, length, take, drop,
  min, add64, add64-eq, u64_mod, Bytes, ok, arith, inl, inr, ◌⊎◌, length-append, length-take,
  length-drop, drop-drop, take_append, drop_append, drop_all, concat, concat-cons, ℕ_discrete,
}
use hyperspace_rs.ReadStream.{Poll, ready, GetOutput}
use hyperspace_rs.ByteStream.{ByteStream, idle, reading, ready_block, returns, copy_into, poll_read}
use hyperspace_rs.ByteStream.Read.{after_read, left_of, fits, loop_ready, loop_reading, loop_idle}

-- The bytes of the feed from the stream's position on.
abbrev pub remaining : List Bytes → ByteStream → Bytes
remaining blocks s = drop s.block_offset (concat (drop s.seq blocks))

-- The stream stands in `block`, and is idle, waits for it or holds it.
pub record IsIn (blocks : List Bytes) (block : Bytes) (rest : List Bytes) (s : ByteStream)
    : Type 0 where
  pub here : drop s.seq blocks ≡ block ∷ rest
  pub inside : s.block_offset ≤ length block
  pub known : (s.state ≡ idle) ⊎ ((s.state ≡ reading s.seq) ⊎ (s.state ≡ ready_block block))

pub after_read_end :
    (s : ByteStream) (block : Bytes) (n : ℕ)
    → s.block_offset + n ≡ length block
    → after_read s block n ≡ record s { seq = add64 s.seq 1; block_offset = 0; state = idle }
after_read_end s block n e = ground arith

pub after_read_mid :
    (s : ByteStream) (block : Bytes) (n : ℕ)
    → s.block_offset + n ≢ length block
    → after_read s block n
      ≡ record s { block_offset = s.block_offset + n; state = ready_block block }
after_read_mid s block n e = ground arith

-- A prefix that is dropped whole.
drop_prefix : (n : ℕ) (xs ys : Bytes) → n ≡ length xs → drop n (xs ++ ys) ≡ ys
drop_prefix n xs ys e =
    rw e (drop_append (length xs) xs ys (omega arith) ∙ ap (λ zs. zs ++ ys) (drop_all xs))

module _ {blocks rest : List Bytes} {block : Bytes} {s : ByteStream}
    (at : IsIn blocks block rest s) where
  remaining-eq : remaining blocks s ≡ left_of s block ++ concat rest
  remaining-eq =
      rw (at.here, concat-cons block rest, drop_append s.block_offset block (concat rest) at.inside)

  -- The stream moves on by as much as was read.
  remaining-after_read :
      (n : ℕ)
      → n ≤ length (left_of s block)
      → s.seq + 1 < u64_mod
      → remaining blocks (after_read s block n) ≡ drop n (remaining blocks s)
  remaining-after_read n h room =
      let size = length-drop s.block_offset block in
      elim (ℕ_discrete (s.block_offset + n) (length block)) [
        | yes e ↦
            let next : drop (add64 s.seq 1) blocks ≡ rest =
              rw (add64-eq s.seq 1 room) (sym (drop-drop 1 s.seq blocks) ∙ ap (drop 1) at.here) in
            ap (remaining blocks) (after_read_end s block n e)
            ∙ ap concat next
            ∙ sym (
                ap (drop n) remaining-eq
                ∙ drop_prefix n (left_of s block) (concat rest) (omega (arith, size, at.inside)))
        | no e ↦
            ap (remaining blocks) (after_read_mid s block n e)
            ∙ sym (drop-drop n s.block_offset (concat (drop s.seq blocks)))
      ]

  pub fits-le-remaining : (buf : Bytes) → fits s block buf ≤ length (remaining blocks s)
  fits-le-remaining buf =
      omega (arith, ap length remaining-eq, length-append (left_of s block) (concat rest))

  -- The bytes that are copied are the next ones.
  take-remaining :
      (n : ℕ)
      → n ≤ length (left_of s block)
      → take n (left_of s block) ≡ take n (remaining blocks s)
  take-remaining n h =
      sym (ap (take n) remaining-eq ∙ take_append n (left_of s block) (concat rest) h)

  module _ {E : Type 0} (get : ℕ → Poll (GetOutput E)) (buf : Bytes) where
    pub poll_read-eq :
        get s.seq ≡ ready (ok (some block))
        → poll_read get s buf ≡ (
          returns (fits s block buf),
          after_read s block (fits s block buf),
          copy_into buf 0 (take (fits s block buf) (left_of s block)),
        )
    unfolding poll_read
    poll_read-eq got = read_from at.known
      where
        read_from :
            (s.state ≡ idle) ⊎ ((s.state ≡ reading s.seq) ⊎ (s.state ≡ ready_block block))
            → poll_read get s buf ≡ (
              returns (fits s block buf),
              after_read s block (fits s block buf),
              copy_into buf 0 (take (fits s block buf) (left_of s block)),
            )
        read_from (inl e) = loop_idle get buf block 0 s e got at.inside
        read_from (inr (inl e)) = loop_reading get buf block 1 s s.seq e got at.inside
        read_from (inr (inr e)) = loop_ready get buf block 2 s e at.inside

    -- A read in a block that is at hand returns the number of bytes that fit, which is limited
    -- by the buffer and by the block; those are the next bytes of the concatenated blocks, the
    -- rest of the buffer is as before, and the stream stands behind them. The number of the
    -- next block is below the bound of a u64.
    pub poll_read_next :
        get s.seq ≡ ready (ok (some block))
        → s.seq + 1 < u64_mod
        → let n = min (length buf) (length block - s.block_offset) in
          ((poll_read get s buf).0 ≡ returns n)
          × ((poll_read get s buf).2 ≡ take n (remaining blocks s) ++ drop n buf)
          × (remaining blocks (poll_read get s buf).1 ≡ drop n (remaining blocks s))
    poll_read_next got room =
        let size = length-drop s.block_offset block in
        let n = fits s block buf in
        let exact : n ≡ min (length buf) (length block - s.block_offset) = omega (arith, size) in
        let copied : length (take n (left_of s block)) ≡ n =
          omega (arith, length-take n (left_of s block)) in
        let shift : 0 + length (take n (left_of s block)) ≡ n = omega (arith, copied) in
        let within : n ≤ length (left_of s block) = omega arith in
        rw (← exact, poll_read-eq got)
          (refl, rw (shift, take-remaining n within) refl, remaining-after_read n within room)

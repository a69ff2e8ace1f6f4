-- ===== src/ByteStream/Tests.antt =====
-- Byte streams of a feed of two blocks.
use hyperspace_rs.Base.{
  ℕ, zero, suc, ◌≡◌, refl, List, [], ◌∷◌, some, Bool, true, false, drop, Bytes, ok, err, arith,
  concat, inr, ap, ◌++◌,
}
use hyperspace_rs.ReadStream.{Poll, ready, GetOutput}
use hyperspace_rs.ByteStream.{
  ByteStream, State, idle, seeking, reading, finished, ready_block, new, returns, start, current,
  SeekOutput, poll_read, poll_seek,
}
use hyperspace_rs.ByteStream.Content.{IsIn, remaining, poll_read_next}
use hyperspace_rs.ByteStream.Whole.{IsFeed}
use hyperspace_rs.ByteStream.Bounds.{IsWithin, poll_read-IsWithin}
use hyperspace_rs.ByteStream.Placed.{IsServed}
use hyperspace_rs.ByteStream.Refines.{reads, reads_refine}
use hyperspace_rs.ByteStream.Seek.{poll_seek_current_stale}

abbrev blocks : List Bytes
blocks = (1 ∷ 2 ∷ 3 ∷ []) ∷ (4 ∷ 5 ∷ []) ∷ []

abbrev given_at : ℕ → List Bytes → GetOutput ℕ
given_at q [] = err 1
given_at zero (b ∷ bs) = ok (some b)
given_at (suc q) (b ∷ bs) = given_at q bs

abbrev get_block : ℕ → Poll (GetOutput ℕ)
get_block q = ready (given_at q blocks)

given_at-given :
    (q : ℕ) (bs : List Bytes) (b : Bytes) (rest : List Bytes)
    → drop q bs ≡ b ∷ rest
    → given_at q bs ≡ ok (some b)
given_at-given zero [] b rest e = absurd (ground (arith, e))
given_at-given (suc q) [] b rest e = absurd (ground (arith, e))
given_at-given zero (c ∷ bs) b rest e = ground (arith, e)
given_at-given (suc q) (c ∷ bs) b rest e = given_at-given q bs b rest e

given_at-past : (q : ℕ) (bs : List Bytes) → drop q bs ≡ [] → (e : ℕ) × (given_at q bs ≡ err e)
given_at-past q [] e = (1, refl)
given_at-past zero (c ∷ bs) e = absurd (ground (arith, e))
given_at-past (suc q) (c ∷ bs) e = given_at-past q bs e

abbrev served_blocks : IsServed (λ q. given_at q blocks) blocks
served_blocks = record {
  blocks_given = λ q b rest e. given_at-given q blocks b rest e;
  past_end = λ q e. given_at-past q blocks e;
  bounded = omega arith;
}

abbrev two_blocks : IsFeed get_block blocks
two_blocks = record {
  blocks_given = λ q b rest e. ap ready (given_at-given q blocks b rest e);
  past_end = λ q e. let (x, h) = given_at-past q blocks e in (x, ap ready h);
  nonempty = (omega arith, (omega arith, tt));
  bounded = omega arith;
}

-- In the first block, behind its first byte.
abbrev inside : ByteStream
inside = record { seq = 0; block_offset = 1; byte_offset = 0; state = ready_block (1 ∷ 2 ∷ 3 ∷ []) }

abbrev inside_first : IsIn blocks (1 ∷ 2 ∷ 3 ∷ []) ((4 ∷ 5 ∷ []) ∷ []) inside
inside_first = record { here = refl; inside = omega arith; known = inr (inr refl) }

poll_read_next_example :
    let r = poll_read get_block inside (9 ∷ 9 ∷ 9 ∷ []) in
    (r.0 ≡ returns 2) × (r.2 ≡ 2 ∷ 3 ∷ 9 ∷ []) × (remaining blocks r.1 ≡ 4 ∷ 5 ∷ [])
unfolding concat
poll_read_next_example = poll_read_next inside_first get_block (9 ∷ 9 ∷ 9 ∷ []) refl (omega arith)

abbrev seek_byte : ℕ → Poll (SeekOutput ℕ)
seek_byte offset = ready (ok (1, 1))

abbrev is_seeking : State → Bool
is_seeking (seeking _) = true
is_seeking idle = false
is_seeking (reading _) = false
is_seeking (ready_block _) = false
is_seeking finished = false

poll_seek_current_stale_example :
    let s' = (poll_read get_block inside (9 ∷ 9 ∷ [])).1 in
    poll_seek seek_byte s' (current 0) ≡ poll_seek seek_byte s' (start 0)
poll_seek_current_stale_example =
    poll_seek_current_stale get_block seek_byte inside (9 ∷ 9 ∷ []) (omega arith)

-- Three bytes, no room, a poll that waits, and two bytes.
abbrev some_calls : List (Bytes × Bool)
some_calls = (0 ∷ 0 ∷ 0 ∷ [], true) ∷ ([], true) ∷ (0 ∷ 0 ∷ [], false) ∷ (0 ∷ 0 ∷ [], true) ∷ []

reads_refine_example :
    let (bytes, s) = reads (λ q. given_at q blocks) some_calls new in
    bytes ++ remaining blocks s ≡ 1 ∷ 2 ∷ 3 ∷ 4 ∷ 5 ∷ []
unfolding concat
reads_refine_example = reads_refine served_blocks some_calls

poll_read-IsWithin_example :
    IsWithin (9 ∷ 9 ∷ []) (poll_read get_block (record inside { state = reading 0 }) (9 ∷ 9 ∷ []))
poll_read-IsWithin_example =
    poll_read-IsWithin get_block (record inside { state = reading 0 }) (9 ∷ 9 ∷ [])

-- ===== src/Peer/Requests.antt =====
-- `on_have`: which blocks are requested.
use mathlib.Core.Option
use mathlib.Core.Option.{Option}
use hyperspace_rs.Base.{
  ℕ, zero, suc, ◌+◌, ◌-◌, ◌<◌, ◌≡◌, refl, ◌∙◌, ap, List, [], ◌∷◌, ◌++◌, map, append_assoc, none,
  some, Bool, false, not, ltb, leb, ◌&&◌, range_from, contains, IsAscending, All, add64-eq, u64_mod,
  Bytes, Result, ok, err, arith, get_elem?, append-nil, >>=-ok, Fault, failed,
}
use hyperspace_rs.Hypercore.{Hypercore}
use hyperspace_rs.Protocol.{Have, Message, request}
use hyperspace_rs.Peer.{Peer}
use hyperspace_rs.Peer.Handlers.{
  send, parse_bitfield, wanted_bits, wanted_range, wants_of, request_all, on_have,
}

-- The connection takes every message.
abbrev pub IsReliable : {H : Hypercore} → Peer H → Type 0
IsReliable p = (sent : List Message) (msg : Message) → p.channel.link sent msg ≡ none

-- The peer after it has sent more messages.
abbrev pub with_sent : {H : Hypercore} → Peer H → List Message → Peer H
with_sent p msgs = record p { channel = record p.channel { sent = p.channel.sent ++ msgs } }

abbrev pub request_for : ℕ → Message
request_for i = request (record { index = i; bytes = none; hash = none; nodes = none })

abbrev pub bit : List Bool → ℕ → Bool
bit bits i = Option.get_or (get_elem? bits i) false

contains_below : (i : ℕ) (xs : List ℕ) → All (λ y. i < y) xs → contains i xs ≡ false
contains_below i [] h = refl
contains_below i (x ∷ xs) h = ground (arith, contains_below i xs)

module _ (H : Hypercore) (feed : H.Feed) where
  wanted_range-All : (b s n : ℕ) → b < s → All (λ y. b < y) (wanted_range H feed (range_from s n))
  unfolding wanted_range
  wanted_range-All b s zero h = tt
  wanted_range-All b s (suc n) h = ground (arith, wanted_range-All b (s + 1) n)

  wanted_range-IsAscending : (s n : ℕ) → IsAscending (wanted_range H feed (range_from s n))
  unfolding wanted_range
  wanted_range-IsAscending s zero = tt
  wanted_range-IsAscending s (suc n) =
      ground (arith, wanted_range-All s (s + 1) n (omega arith), wanted_range-IsAscending (s + 1) n)

  contains-wanted_range :
      (i s n : ℕ)
      → contains i (wanted_range H feed (range_from s n))
        ≡ (leb s i && (ltb i (s + n) && not (H.has feed i)))
  unfolding wanted_range
  contains-wanted_range i s zero = ground arith
  contains-wanted_range i s (suc n) = ground (arith, contains-wanted_range i (s + 1) n)

  wanted_bits-All :
      (b s : ℕ) (bits : List Bool) → b < s → All (λ y. b < y) (wanted_bits H feed s bits)
  unfolding wanted_bits
  wanted_bits-All b s [] h = tt
  wanted_bits-All b s (v ∷ bits) h = ground (arith, wanted_bits-All b (s + 1) bits)

  wanted_bits-IsAscending : (s : ℕ) (bits : List Bool) → IsAscending (wanted_bits H feed s bits)
  unfolding wanted_bits
  wanted_bits-IsAscending s [] = tt
  wanted_bits-IsAscending s (v ∷ bits) =
      ground
        (arith, wanted_bits-All s (s + 1) bits (omega arith), wanted_bits-IsAscending (s + 1) bits)

  contains-wanted_bits :
      (i s : ℕ) (bits : List Bool)
      → contains (s + i) (wanted_bits H feed s bits) ≡ (bit bits i && not (H.has feed (s + i)))
  unfolding wanted_bits
  contains-wanted_bits i s [] = refl
  contains-wanted_bits zero s (v ∷ bits) = ground (
    arith,
    contains_below s (wanted_bits H feed (s + 1) bits)
        (wanted_bits-All s (s + 1) bits (omega arith)),
  )
  contains-wanted_bits (suc i) s (v ∷ bits) =
      let next : s + suc i ≡ (s + 1) + i = omega arith in
      rw next (ground (arith, contains-wanted_bits i (s + 1) bits))

  contains-wanted_bits_zero :
      (i : ℕ) (bits : List Bool)
      → contains i (wanted_bits H feed 0 bits) ≡ (bit bits i && not (H.has feed i))
  contains-wanted_bits_zero i bits =
      let start : 0 + i ≡ i = omega arith in rw start at (contains-wanted_bits i 0 bits)

module _ {H : Hypercore} where
  pub send_taken :
      (msg : Message) (p : Peer H)
      → p.channel.link p.channel.sent msg ≡ none
      → send msg p ≡ (ok tt, with_sent p (msg ∷ []))
  unfolding send
  send_taken msg p e = rw (e, send)

  pub send_refused :
      (msg : Message) (p : Peer H) {e : H.Error}
      → p.channel.link p.channel.sent msg ≡ some e
      → send msg p ≡ (err (failed e), p)
  unfolding send
  send_refused msg p h = rw (h, send)

  pub send_reliable :
      (msg : Message) (p : Peer H) → IsReliable p → send msg p ≡ (ok tt, with_sent p (msg ∷ []))
  send_reliable msg p reliable = send_taken msg p (reliable p.channel.sent msg)

  request_all_reliable :
      (wants : List ℕ) (p : Peer H)
      → IsReliable p
      → request_all wants p ≡ (ok tt, with_sent p (map request_for wants))
  unfolding request_all
  request_all_reliable [] p reliable = rw (append-nil p.channel.sent)
  request_all_reliable (i ∷ wants) p reliable =
      >>=-ok (send (request_for i)) (λ _. request_all wants)
        (send_reliable (request_for i) p reliable)
      ∙ request_all_reliable wants (with_sent p (request_for i ∷ [])) reliable
      ∙ ap {B = Result (Fault H.Error) (Unit {0}) × Peer H}
          (λ sent. (ok tt, record p { channel = record p.channel { sent = sent } }))
          (append_assoc p.channel.sent (request_for i ∷ []) (map request_for wants))

  wants_of-range :
      (p : Peer H) (msg : Have)
      → msg.bitfield ≡ none
      → msg.start + Option.get_or msg.length 1 < u64_mod
      → wants_of msg p
        ≡ (ok (wanted_range H p.feed (range_from msg.start (Option.get_or msg.length 1))), p)
  unfolding wants_of
  wants_of-range p msg e fits =
      let end : msg.start + Option.get_or msg.length 1 - msg.start ≡ Option.get_or msg.length 1 =
        omega arith in
      rw (e, wants_of, add64-eq _ _ fits, end)

  wants_of-bits :
      (p : Peer H) (msg : Have) (bitfield : Bytes) (bits : H.Sparse)
      → msg.bitfield ≡ some bitfield
      → parse_bitfield H bitfield ≡ some bits
      → wants_of msg p ≡ (ok (wanted_bits H p.feed 0 (H.bits bits)), p)
  unfolding wants_of
  wants_of-bits p msg bitfield bits e parsed = rw (e, wants_of, parsed)

  -- A `Have` of a range of blocks is answered by requests for exactly those blocks of the range
  -- that the feed lacks, each once and in ascending order, and by nothing else; a `Have` without
  -- a length is about one block. The connection takes every message, and the range ends below
  -- the bound of a u64.
  pub on_have_range :
      (p : Peer H) (msg : Have)
      → IsReliable p
      → msg.bitfield ≡ none
      → msg.start + Option.get_or msg.length 1 < u64_mod
      → (wants : List ℕ) × (on_have msg p ≡ (ok tt, with_sent p (map request_for wants)))
        × IsAscending wants
        × ((i : ℕ)
            → contains i wants ≡ (
                leb msg.start i
                && (ltb i (msg.start + Option.get_or msg.length 1) && not (H.has p.feed i))))
  unfolding on_have
  on_have_range p msg reliable e fits = (
    wanted_range H p.feed (range_from msg.start (Option.get_or msg.length 1)),
    >>=-ok (wants_of msg) request_all (wants_of-range p msg e fits)
        ∙ request_all_reliable _ p reliable,
    wanted_range-IsAscending H p.feed _ _,
    (λ i. contains-wanted_range H p.feed i _ _),
  )

  -- A `Have` with a bitfield is answered by requests for exactly those blocks whose bit is set
  -- and that the feed lacks, each once and in ascending order, where bit `i` of the decoded
  -- bitfield is taken for block `i`, whatever the `start` of the message. The connection takes
  -- every message.
  pub on_have_bitfield :
      (p : Peer H) (msg : Have) (bitfield : Bytes) (bits : H.Sparse)
      → IsReliable p
      → msg.bitfield ≡ some bitfield
      → parse_bitfield H bitfield ≡ some bits
      → (wants : List ℕ) × (on_have msg p ≡ (ok tt, with_sent p (map request_for wants)))
        × IsAscending wants
        × ((i : ℕ) → contains i wants ≡ (bit (H.bits bits) i && not (H.has p.feed i)))
  unfolding on_have
  on_have_bitfield p msg bitfield bits reliable e parsed = (
    wanted_bits H p.feed 0 (H.bits bits),
    >>=-ok (wants_of msg) request_all (wants_of-bits p msg bitfield bits e parsed)
        ∙ request_all_reliable _ p reliable,
    wanted_bits-IsAscending H p.feed 0 (H.bits bits),
    (λ i. contains-wanted_bits_zero H p.feed i _),
  )

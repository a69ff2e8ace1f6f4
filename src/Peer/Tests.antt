-- ===== src/Peer/Tests.antt =====
-- A small feed, which holds the indices of its blocks, and the handlers on it.
use hyperspace_rs.Base.{
  ℕ, ◌+◌, ltb, ◌==◌, List, [], ◌∷◌, ◌++◌, map, Option, none, some, Bool, true, false, not, ◌&&◌,
  ◌||◌, if◌then◌else◌, Bytes, Result, ok, err, ◌≡◌, refl, arith, contains, length, IsAscending, leb,
}
use hyperspace_rs.Hypercore.{Hypercore, Proof}
use hyperspace_rs.Protocol.{Have, Want, request}
use hyperspace_rs.Peer.{Peer, Channel, Stats, Event, message, feed_event, append, new}
use hyperspace_rs.Peer.Handlers.{on_have, on_want, run, parse_bitfield}
use hyperspace_rs.Peer.Requests.{
  on_have_range, on_have_bitfield, IsReliable, with_sent, request_for, bit,
}
use hyperspace_rs.Peer.Announce.{on_want-answers, newest, answer, wanted}
use hyperspace_rs.Peer.Counting.{IsCounted}
use hyperspace_rs.Peer.Counts.{run-IsCounted}
use hyperspace_rs.Peer.Sync.{BlockLaws, Blocks}

abbrev Node : Type 0
Node = ℕ × Bytes × ℕ

-- A signature has one byte.
abbrev signature_of : Bytes → Result ℕ ℕ
signature_of [] = err 1
signature_of (s ∷ []) = ok s
signature_of (s ∷ t ∷ rest) = err 1

-- A feed takes any block that has a value.
abbrev put : List ℕ → ℕ → Option Bytes → Proof Node ℕ → Result ℕ (Unit {0}) × List ℕ
put feed i none proof = (err 2, feed)
put feed i (some value) proof = (ok tt, i ∷ feed)

abbrev proof_at : ℕ → Proof Node ℕ
proof_at i = record { index = i; nodes = (i, [], 1) ∷ []; signature = some i }

-- The byte 255 starts no run-length encoding.
abbrev rle_decode : Bytes → Option Bytes
rle_decode [] = some []
rle_decode (b ∷ bytes) = if b == 255 then none else some (b ∷ bytes)

abbrev held : Hypercore
held = record {
  Error = ℕ;
  Feed = List ℕ;
  len = λ feed. length feed;
  has = λ feed i. contains i feed;
  compress = λ feed start length. if ltb start 100 then ok (start ∷ length ∷ []) else err 3;
  Node = Node;
  node_new = λ i hash size. (i, hash, size);
  node_index = λ n. n.0;
  node_hash = λ n. n.1;
  node_len = λ n. n.2;
  Signature = ℕ;
  signature_of = signature_of;
  to_bytes = λ s. s ∷ [];
  get = λ feed i. (ok (some (i ∷ [])), feed);
  proof = λ feed i. (ok (proof_at i), feed);
  put = put;
  Bitfield = ℕ;
  bitfield_new = 0;
  bitfield_set = λ b i v. b + i;
  rle_decode = rle_decode;
  Sparse = List Bool;
  sparse_new = λ _. [];
  set_byte = λ sp i byte. sp ++ ltb 0 byte ∷ [];
  bits = λ sp. sp;
}

abbrev channel : Channel ℕ
channel = record { sent = []; link = λ _ _. none; receiver = true }

abbrev stats : Stats
stats = record {
  id = [];
  downloaded_blocks = 0;
  downloaded_bytes = 0;
  uploaded_blocks = 0;
  uploaded_bytes = 0;
}

-- A peer whose feed holds the blocks.
abbrev peer : List ℕ → Peer held
peer blocks = record {
  channel = channel;
  feed = blocks;
  uploading = false;
  downloading = false;
  remote_want = false;
  remote_ack = false;
  remote_length = 0;
  want_bitfield = 0;
  remote_bitfield = 0;
  stats = stats;
}

peer-IsReliable : (blocks : List ℕ) → IsReliable (peer blocks)
peer-IsReliable blocks sent msg = refl

abbrev range_msg : Have
range_msg = record { start = 1; length = some 3; bitfield = none; ack = none }

on_have_range_example :
    (wants : List ℕ) × (on_have range_msg (peer (2 ∷ []))
      ≡ (ok tt, with_sent (peer (2 ∷ [])) (map request_for wants)))
    × IsAscending wants
    × ((i : ℕ) → contains i wants ≡ (leb 1 i && (ltb i 4 && not (contains i (2 ∷ [])))))
on_have_range_example =
    on_have_range (peer (2 ∷ [])) range_msg (peer-IsReliable (2 ∷ [])) refl (omega arith)

abbrev bits_msg : Have
bits_msg = record { start = 0; length = none; bitfield = some (1 ∷ 0 ∷ 1 ∷ []); ack = none }

on_have_bitfield_example :
    (wants : List ℕ) × (on_have bits_msg (peer (2 ∷ []))
      ≡ (ok tt, with_sent (peer (2 ∷ [])) (map request_for wants)))
    × IsAscending wants
    × ((i : ℕ) → contains i wants ≡ (bit (true ∷ false ∷ true ∷ []) i && not (contains i (2 ∷ []))))
unfolding parse_bitfield
on_have_bitfield_example =
    on_have_bitfield (peer (2 ∷ [])) bits_msg (1 ∷ 0 ∷ 1 ∷ []) (true ∷ false ∷ true ∷ [])
      (peer-IsReliable (2 ∷ [])) refl refl

abbrev want_msg : Want
want_msg = record { start = 0; length = none }

on_want-answers_example : on_want want_msg (peer (4 ∷ 2 ∷ [])) ≡ (
  ok tt,
  wanted (peer (4 ∷ 2 ∷ [])) (newest (peer (4 ∷ 2 ∷ [])) ++ answer want_msg 2 (0 ∷ 2 ∷ []) ∷ []),
)
on_want-answers_example =
    on_want-answers (peer (4 ∷ 2 ∷ [])) want_msg (0 ∷ 2 ∷ []) (peer-IsReliable (4 ∷ 2 ∷ [])) refl

-- A run that is asked for a block, and for one more after an append.
abbrev run_events : List Event
run_events =
    message (request (record { index = 4; bytes = none; hash = none; nodes = none }))
    ∷ feed_event append
    ∷ message (request (record { index = 5; bytes = none; hash = none; nodes = none }))
    ∷ []

run-IsCounted_example : IsCounted (run run_events (new {H = held} (4 ∷ []) channel stats)).1
run-IsCounted_example = run-IsCounted {H = held} (4 ∷ []) channel stats run_events refl refl

signature_same : (s : ℕ) → signature_of (s ∷ []) ≡ ok s
signature_same s = refl

has_put :
    (f g : List ℕ) (i : ℕ) (v : Option Bytes) (pf : Proof Node ℕ)
    → put f i v pf ≡ (ok tt, g)
    → (j : ℕ) → contains j g ≡ (i == j || contains j f)
has_put f g i none pf e j = absurd (ground (arith, e))
has_put f g i (some v) pf e j = ground (arith, e)

abbrev held_laws : BlockLaws held
held_laws = record { node_lem = λ n. refl; signature_lem = signature_same; has-put = has_put }

abbrev held_blocks : Blocks held
held_blocks = record { value = λ i. some (i ∷ []); proof = proof_at; numbered = λ i. refl }

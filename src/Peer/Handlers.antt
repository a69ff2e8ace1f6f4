-- ===== src/Peer/Handlers.antt =====
-- The methods of `Peer` in replicator/src/peer.rs, and its loop `run`.
use mathlib.Core.Option
use mathlib.Core.Option.{Option}
use hyperspace_rs.Base.{
  ℕ, ◌+◌, ◌-◌, ◌*◌, ◌/◌, List, [], ◌∷◌, ◌++◌, map, none, some, Bool, true, false, not, ltb,
  if◌then◌else◌, length, range_from, add64, sub64, Bytes, Result, ok, err, ◌&&◌, failed, gets, lift,
  modify, pure, unwrap, ◌>>=◌, ◌>>◌,
}
use hyperspace_rs.Hypercore.{Hypercore, Proof}
use hyperspace_rs.Protocol.{
  Have, Want, Request, Data, Message, open_feed, want, have, request, block, other,
}
use hyperspace_rs.Peer.{
  add_downloaded, add_uploaded, Event, download, append, other_event, feed_event, message, Action,
  on_feed,
}

-- `map_or(0, |v| v.len() as u64)`
abbrev pub value_len : Option Bytes → ℕ
value_len none = 0
value_len (some v) = length v

abbrev pub want_len : ℕ
want_len = 1024 * 1024

module _ (H : Hypercore) where
  open H use {Feed, Node, Signature}

  -- The loop of `parse_bitfield`: byte `idx` and those after it.
  unfoldable pub set_bytes : H.Sparse → ℕ → Bytes → H.Sparse
  set_bytes sp idx [] = sp
  set_bytes sp idx (byte ∷ buf) = set_bytes (H.set_byte sp idx byte) (idx + 1) buf

  -- `None` where `decode(..).unwrap()` panics.
  unfoldable pub parse_bitfield : Bytes → Option H.Sparse
  unfolding set_bytes
  parse_bitfield bitfield = Option.map (set_bytes (H.sparse_new 1024) 0) (H.rle_decode bitfield)

  -- The loop over a bitfield's bits, from bit `i` on.
  unfoldable pub wanted_bits : Feed → ℕ → List Bool → List ℕ
  wanted_bits feed i [] = []
  wanted_bits feed i (val ∷ rest) =
      let wants = wanted_bits feed (i + 1) rest in
      if val && not (H.has feed i) then i ∷ wants else wants

  -- The loop over `start..end`.
  unfoldable pub wanted_range : Feed → List ℕ → List ℕ
  wanted_range feed [] = []
  wanted_range feed (i ∷ rest) =
      let wants = wanted_range feed rest in if H.has feed i then wants else i ∷ wants

  abbrev pub proof_of : Data → Option Signature → Proof Node Signature
  proof_of msg signature = record {
    index = msg.index;
    nodes = map (λ n. H.node_new n.index n.hash n.size) msg.nodes;
    signature = signature;
  }

  abbrev pub data_of : ℕ → Option Bytes → Proof Node Signature → Data
  data_of index value proof = record {
    index = index;
    value = value;
    nodes =
        map (λ n. record { index = H.node_index n; hash = H.node_hash n; size = H.node_len n })
          proof.nodes;
    signature = Option.map H.to_bytes proof.signature;
  }

  -- `match data.signature`, with `try_into()?`.
  abbrev pub parse_signature : Option Bytes → Result H.Error (Option Signature)
  parse_signature none = ok none
  parse_signature (some bytes) = elim (H.signature_of bytes) [ ok s ↦ ok (some s) | err e ↦ err e ]

module _ {H : Hypercore} where
  -- A message is sent if the connection takes it; else the call is an error.
  unfoldable pub send : Message → Action H (Unit {0})
  send msg p = elim (p.channel.link p.channel.sent msg) [
    | none ↦ (ok tt, record p { channel = record p.channel { sent = p.channel.sent ++ msg ∷ [] } })
    | some e ↦ (err (failed e), p)
  ]

  unfoldable pub send_have : ℕ → Option ℕ → Action H (Unit {0})
  send_have start length =
      send (have (record { start = start; length = length; bitfield = none; ack = none }))

  unfoldable pub send_wants : ℕ → Action H (Unit {0})
  send_wants index = do
    let j = index / want_len
    modify (λ p. record p { want_bitfield = H.bitfield_set p.want_bitfield j true })
    send (want (record { start = j * want_len; length = some want_len }))

  unfoldable pub on_open : Action H (Unit {0})
  unfolding send_wants
  on_open = send_wants 0

  unfoldable pub wants_of : Have → Action H (List ℕ)
  unfolding parse_bitfield wanted_bits wanted_range
  wants_of msg p = elim msg.bitfield [
    | some bitfield ↦
        (do bits ← unwrap (parse_bitfield H bitfield); pure (wanted_bits H p.feed 0 (H.bits bits)))
          p
    | none ↦
        let end = add64 msg.start (Option.get_or msg.length 1) in
        pure (wanted_range H p.feed (range_from msg.start (end - msg.start))) p
  ]

  unfoldable pub request_all : List ℕ → Action H (Unit {0})
  request_all [] = pure tt
  request_all (idx ∷ wants) =
      send (request (record { index = idx; bytes = none; hash = none; nodes = none }))
      >> request_all wants

  unfoldable pub on_have : Have → Action H (Unit {0})
  unfolding wants_of request_all
  on_have msg = do wants ← wants_of msg; request_all wants

  -- The announcement of the last block, the first time that the remote wants something.
  unfoldable pub announce : ℕ → Action H (Unit {0})
  unfolding send_have
  announce len p =
      (if p.remote_want then pure tt else if ltb 0 len then send_have (len - 1) none else pure tt) p

  -- The end of `on_want`: the bitfield of the range that the remote wants.
  unfoldable pub send_bitfield : Want → ℕ → Action H (Unit {0})
  unfolding send
  send_bitfield msg length = do
    feed ← gets (λ p. p.feed)
    rle ← lift (H.compress feed msg.start length)
    send
        (have (record { start = msg.start; length = some length; bitfield = some rle; ack = none }))

  abbrev pub set_remote_want : Action H (Unit {0})
  set_remote_want = modify (λ p. record p { remote_want = true })

  unfoldable pub on_want : Want → Action H (Unit {0})
  unfolding announce send_bitfield
  on_want msg = do
    len ← gets (λ p. H.len p.feed)
    announce len
    set_remote_want
    send_bitfield msg (Option.get_or msg.length len)

  -- The acknowledgement of a block, if the remote asked for it.
  unfoldable pub acknowledge : ℕ → Action H (Unit {0})
  acknowledge index p =
      (if p.remote_ack
          then send
              (have (record { start = index; length = some 1; bitfield = none; ack = some true }))
          else pure tt)
        p

  -- The end of `on_data`, once the block is in the feed.
  unfoldable pub count_block : Data → Action H (Unit {0})
  unfolding acknowledge
  count_block msg =
      modify (λ p. record p { stats = add_downloaded p.stats 1 (value_len msg.value) })
      >> acknowledge msg.index

  abbrev pub put_block : Data → Option H.Signature → Action H (Unit {0})
  put_block msg signature =
      on_feed (λ feed. H.put feed msg.index msg.value (proof_of H msg signature))

  unfoldable pub on_data : Data → Action H (Unit {0})
  unfolding count_block
  on_data msg = do
    signature ← lift (parse_signature H msg.signature)
    put_block msg signature
    count_block msg

  -- The end of `on_request`, once the feed has given the block and its proof.
  unfoldable pub send_block : ℕ → Option Bytes → Proof H.Node H.Signature → Action H (Unit {0})
  unfolding send
  send_block index value proof =
      send (block (data_of H index value proof))
      >> modify (λ p. record p { stats = add_uploaded p.stats 1 (value_len value) })

  unfoldable pub on_request : Request → Action H (Unit {0})
  unfolding send_block
  on_request msg = do
    value ← on_feed (λ feed. H.get feed msg.index)
    proof ← on_feed (λ feed. H.proof feed msg.index)
    send_block msg.index value proof

  -- The body of the loop of `run`.
  unfoldable pub on_event : Event → Action H (Unit {0})
  on_event (message open_feed) = on_open
  on_event (message (want msg)) = on_want msg
  on_event (message (have msg)) = on_have msg
  on_event (message (request msg)) = on_request msg
  on_event (message (block msg)) = on_data msg
  on_event (message other) = pure tt
  on_event (feed_event (download index)) = send_have index none
  on_event (feed_event append) = do len ← gets (λ p. H.len p.feed); send_have (sub64 len 1) none
  on_event (feed_event other_event) = pure tt

  unfoldable pub on_events : List Event → Action H (Unit {0})
  unfolding on_event
  on_events [] = pure tt
  on_events (event ∷ events) = on_event event >> on_events events

  -- The receiver can be taken once.
  unfoldable pub take_receiver : Action H (Unit {0})
  take_receiver p =
      (if p.channel.receiver
          then modify (λ q. record q { channel = record q.channel { receiver = false } })
          else unwrap none)
        p

  -- `run`, on the events that arrive until both streams end.
  unfoldable pub run : List Event → Action H (Unit {0})
  unfolding on_events take_receiver
  run events = do take_receiver; on_open; on_events events

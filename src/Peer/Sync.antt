-- ===== src/Peer/Sync.antt =====
-- One round of replication between two peers: Have, Request and Data.
use mathlib.Core.Option
use mathlib.Core.Option.{Option}
use hyperspace_rs.Base.{
  ℕ, ◌≡◌, refl, sym, ◌∙◌, ap, List, [], ◌∷◌, ◌++◌, map, none, some, false, ◌||◌, Bytes, ok, arith,
  contains, append_assoc, append-nil, All, ◌==◌, >>=-ok,
}
use hyperspace_rs.Hypercore.{Hypercore, Proof}
use hyperspace_rs.Protocol.{Data, DataNode, block}
use hyperspace_rs.Peer.{Peer, message}
use hyperspace_rs.Peer.Handlers.{on_event, on_events, parse_signature, proof_of, data_of}
use hyperspace_rs.Peer.Requests.{IsReliable, request_for}
use hyperspace_rs.Peer.Blocks.{stored, served, on_data_stores, on_request_serves}

-- What the crates promise of a node's and a signature's parts, and of a stored block.
pub record BlockLaws (H : Hypercore) : Type 0 where
  pub node_lem : (n : H.Node) → H.node_new (H.node_index n) (H.node_hash n) (H.node_len n) ≡ n
  pub signature_lem : (s : H.Signature) → H.signature_of (H.to_bytes s) ≡ ok s
  pub has-put :
      (f g : H.Feed) (i : ℕ) (v : Option Bytes) (pf : Proof H.Node H.Signature)
      → H.put f i v pf ≡ (ok tt, g)
      → (j : ℕ) → H.has g j ≡ (i == j || H.has f j)

-- What a feed gives for each block: its value and its proof.
pub record Blocks (H : Hypercore) : Type 0 where
  pub value : ℕ → Option Bytes
  pub proof : ℕ → Proof H.Node H.Signature
  pub numbered : (i : ℕ) → (proof i).index ≡ i

module _ {H : Hypercore} (laws : BlockLaws H) (blocks : Blocks H) where
  -- The feed has the block, and reading it changes nothing that a handler sees.
  abbrev pub Gives : H.Feed → ℕ → Type 0
  Gives f i = (H.get f i ≡ (ok (blocks.value i), f)) × (H.proof f i ≡ (ok (blocks.proof i), f))

  -- A feed takes the block, whatever it holds already.
  abbrev pub Takes : ℕ → Type 0
  Takes i = (f : H.Feed) → (g : H.Feed) × (H.put f i (blocks.value i) (blocks.proof i) ≡ (ok tt, g))

  abbrev pub data_for : ℕ → Data
  data_for i = data_of H i (blocks.value i) (blocks.proof i)

  nodes-data_of :
      (ns : List H.Node)
      → map
          (λ (n : DataNode). H.node_new n.index n.hash n.size)
          (map
            (λ n. record { index = H.node_index n; hash = H.node_hash n; size = H.node_len n })
            ns)
        ≡ ns
  nodes-data_of [] = refl
  nodes-data_of (n ∷ ns) = cc (laws.node_lem n, nodes-data_of ns)

  -- The proof that arrives is the proof that was sent.
  proof_of-data_for : (i : ℕ) → proof_of H (data_for i) (blocks.proof i).signature ≡ blocks.proof i
  proof_of-data_for i = λ k. record {
    index = sym (blocks.numbered i) k;
    nodes = nodes-data_of (blocks.proof i).nodes k;
    signature = (blocks.proof i).signature;
  }

  signature-map :
      (sig : Option H.Signature) → parse_signature H (Option.map H.to_bytes sig) ≡ ok sig
  signature-map none = refl
  signature-map (some s) = rw (laws.signature_lem s)

  -- A request is answered by the block's message.
  on_request-data_for :
      (p : Peer H) (i : ℕ)
      → IsReliable p
      → Gives p.feed i
      → on_event (message (request_for i)) p ≡ (ok tt, served p p.feed (data_for i))
  unfolding on_event
  on_request-data_for p i reliable gives =
      on_request_serves p (record { index = i; bytes = none; hash = none; nodes = none })
        (blocks.value i) (blocks.proof i) p.feed p.feed reliable gives.0 gives.1

  on_data-data_for :
      (p : Peer H) (i : ℕ) (feed : H.Feed)
      → p.remote_ack ≡ false
      → H.put p.feed i (blocks.value i) (blocks.proof i) ≡ (ok tt, feed)
      → on_event (message (block (data_for i))) p ≡ (ok tt, stored p feed (blocks.value i))
  unfolding on_event
  on_data-data_for p i feed quiet put =
      on_data_stores p (data_for i) (blocks.proof i).signature feed quiet
        (signature-map (blocks.proof i).signature)
        (ap (H.put p.feed i (blocks.value i)) (proof_of-data_for i) ∙ put)

  -- All that is requested is sent, in the order of the requests, and the feed stays as it is.
  pub serves_requests :
      (wants : List ℕ) (p : Peer H)
      → IsReliable p
      → All (Gives p.feed) wants
      → (p' : Peer H) × (on_events (map (λ i. message (request_for i)) wants) p ≡ (ok tt, p'))
        × (p'.channel.sent ≡ p.channel.sent ++ map (λ i. block (data_for i)) wants)
        × (p'.feed ≡ p.feed)
  unfolding on_events
  serves_requests [] p reliable gives = (p, refl, sym (append-nil p.channel.sent), refl)
  serves_requests (i ∷ wants) p reliable gives =
      let p₁ = served p p.feed (data_for i) in
      let (p', run, sent, same) = serves_requests wants p₁ reliable gives.1 in
      (
        p',
        >>=-ok (on_event (message (request_for i)))
              (λ _. on_events (map (λ i. message (request_for i)) wants))
              (on_request-data_for p i reliable gives.0)
            ∙ run,
        sent
            ∙ append_assoc p.channel.sent (block (data_for i) ∷ [])
                (map (λ i. block (data_for i)) wants),
        same,
      )

  -- All blocks that arrive are stored: from there on the feed has those and what it had.
  pub stores_blocks :
      (wants : List ℕ) (p : Peer H)
      → p.remote_ack ≡ false
      → All Takes wants
      → (p' : Peer H) × (on_events (map (λ i. message (block (data_for i))) wants) p ≡ (ok tt, p'))
        × ((j : ℕ) → H.has p'.feed j ≡ (contains j wants || H.has p.feed j))
        × (p'.channel ≡ p.channel)
  unfolding on_events
  stores_blocks [] p quiet takes = (p, refl, (λ j. refl), refl)
  stores_blocks (i ∷ wants) p quiet takes =
      let (feed, put) = takes.0 p.feed in
      let p₁ = stored p feed (blocks.value i) in
      let (p', run, has, same) = stores_blocks wants p₁ quiet takes.1 in
      (
        p',
        >>=-ok (on_event (message (block (data_for i))))
              (λ _. on_events (map (λ i. message (block (data_for i))) wants))
              (on_data-data_for p i feed quiet put)
            ∙ run,
        (λ j.
            ground
              (arith, has j, laws.has-put p.feed feed i (blocks.value i) (blocks.proof i) put j)),
        same,
      )

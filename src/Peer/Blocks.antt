-- ===== src/Peer/Blocks.antt =====
-- `on_request` and `on_data`: a block is sent, and a block is stored.

use mathlib.Core.Option.{Option}
use hyperspace_rs.Base.{
  ℕ, ◌≡◌, ◌∙◌, [], ◌∷◌, false, Bytes, Result, ok, >>=-ok, Fault, lift, lift-ok, modify, ◌>>=◌, ◌>>◌,
}
use hyperspace_rs.Hypercore.{Hypercore, Proof}
use hyperspace_rs.Protocol.{Data, Request, block}
use hyperspace_rs.Peer.{Peer, add_downloaded, add_uploaded, on_feed-eq, on_feed}
use hyperspace_rs.Peer.Handlers.{
  send, on_data, on_request, parse_signature, proof_of, data_of, count_block, put_block, send_block,
  value_len,
}
use hyperspace_rs.Peer.Requests.{IsReliable, with_sent, send_reliable}

module _ (H : Hypercore) where
  -- The calls of the feed that the handlers make.
  abbrev pub putting : Data → Option H.Signature → H.Feed → Result H.Error (Unit {0}) × H.Feed
  putting msg sig feed = H.put feed msg.index msg.value (proof_of H msg sig)

  abbrev pub getting : ℕ → H.Feed → Result H.Error (Option Bytes) × H.Feed
  getting i feed = H.get feed i

  abbrev pub proving : ℕ → H.Feed → Result H.Error (Proof H.Node H.Signature) × H.Feed
  proving i feed = H.proof feed i

module _ {H : Hypercore} where
  -- A peer after a block was stored, and after a block was sent.
  abbrev pub stored : Peer H → H.Feed → Option Bytes → Peer H
  stored p feed value = record p { feed = feed; stats = add_downloaded p.stats 1 (value_len value) }

  abbrev pub served : Peer H → H.Feed → Data → Peer H
  served p feed msg = record (with_sent p (block msg ∷ [])) {
    feed = feed;
    stats = add_uploaded p.stats 1 (value_len msg.value);
  }

  count_block-stored :
      (p : Peer H) (msg : Data) (feed : H.Feed)
      → p.remote_ack ≡ false
      → count_block msg (record p { feed = feed }) ≡ (ok tt, stored p feed msg.value)
  unfolding count_block
  count_block-stored p msg feed quiet = rw quiet

  -- A block that the feed accepts is stored and counted, and nothing is sent, as long as the
  -- remote has not asked for acknowledgements.
  pub on_data_stores :
      (p : Peer H) (msg : Data) (sig : Option H.Signature) (feed : H.Feed)
      → p.remote_ack ≡ false
      → parse_signature H msg.signature ≡ ok sig
      → H.put p.feed msg.index msg.value (proof_of H msg sig) ≡ (ok tt, feed)
      → on_data msg p ≡ (ok tt, stored p feed msg.value)
  unfolding on_data
  on_data_stores p msg sig feed quiet parsed put =
      >>=-ok (lift (parse_signature H msg.signature)) (λ s. put_block msg s >> count_block msg)
        (lift-ok _ p parsed)
      ∙ >>=-ok (put_block msg sig) (λ _. count_block msg) (on_feed-eq (putting H msg sig) p put)
      ∙ count_block-stored p msg feed quiet

  abbrev count_sent : Option Bytes → Peer H → Result (Fault H.Error) (Unit {0}) × Peer H
  count_sent value = modify (λ q. record q { stats = add_uploaded q.stats 1 (value_len value) })

  -- A request for a block that the feed has is answered by one message, with the block and its
  -- proof, and counted. The connection takes every message.
  pub on_request_serves :
      (p : Peer H) (msg : Request) (value : Option Bytes) (proof : Proof H.Node H.Signature)
      (f g : H.Feed)
      → IsReliable p
      → H.get p.feed msg.index ≡ (ok value, f)
      → H.proof f msg.index ≡ (ok proof, g)
      → on_request msg p ≡ (ok tt, served p g (data_of H msg.index value proof))
  unfolding on_request send_block
  on_request_serves p msg value proof f g reliable got proved =
      >>=-ok (on_feed (getting H msg.index))
        (λ v. on_feed (proving H msg.index) >>= send_block msg.index v)
        (on_feed-eq (getting H msg.index) p got)
      ∙ >>=-ok (on_feed (proving H msg.index)) (send_block msg.index value)
          (on_feed-eq (proving H msg.index) (record p { feed = f }) proved)
      ∙ >>=-ok (send (block (data_of H msg.index value proof))) (λ _. count_sent value)
          {s = record p { feed = g }}
          (send_reliable (block (data_of H msg.index value proof)) (record p { feed = g }) reliable)

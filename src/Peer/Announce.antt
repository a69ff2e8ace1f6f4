-- ===== src/Peer/Announce.antt =====
-- `on_want`: what is announced to a remote that wants blocks.
use mathlib.Core.Option
use mathlib.Core.Option.{Option}
use hyperspace_rs.Base.{
  ℕ, ◌-◌, ◌≡◌, ◌∙◌, ap, List, [], ◌∷◌, ◌++◌, none, some, true, ltb, if◌then◌else◌, Bytes, Result,
  ok, arith, append_assoc, append-nil, >>=-ok, Fault, lift, lift-ok, ◌>>◌,
}
use hyperspace_rs.Hypercore.{Hypercore}
use hyperspace_rs.Protocol.{Want, Message, have}
use hyperspace_rs.Peer.{Peer}
use hyperspace_rs.Peer.Handlers.{send, announce, on_want, send_bitfield, set_remote_want}
use hyperspace_rs.Peer.Requests.{IsReliable, with_sent, send_reliable}

-- The `Have` that answers a `Want`.
abbrev pub answer : Want → ℕ → Bytes → Message
answer msg length rle =
    have (record { start = msg.start; length = some length; bitfield = some rle; ack = none })

module _ {H : Hypercore} where
  -- The `Have` of the newest block, where the remote wants blocks for the first time.
  abbrev pub newest : Peer H → List Message
  newest p =
      if p.remote_want
      then []
      else if ltb 0 (H.len p.feed)
      then have (record { start = H.len p.feed - 1; length = none; bitfield = none; ack = none })
        ∷ []
      else []

  -- The length that a `Want` names, or that of the feed.
  abbrev pub wanted_length : Peer H → Want → ℕ
  wanted_length p msg = Option.get_or msg.length (H.len p.feed)

  abbrev pub wanted : Peer H → List Message → Peer H
  wanted p msgs = record (with_sent p msgs) { remote_want = true }

  announce-newest :
      (p : Peer H) → IsReliable p → announce (H.len p.feed) p ≡ (ok tt, with_sent p (newest p))
  unfolding announce send
  announce-newest p reliable = ground (
    arith,
    append-nil p.channel.sent,
    reliable p.channel.sent
        (have (record { start = H.len p.feed - 1; length = none; bitfield = none; ack = none })),
  )

  send_bitfield-answer :
      (p : Peer H) (msg : Want) (length : ℕ) (rle : Bytes)
      → IsReliable p
      → H.compress p.feed msg.start length ≡ ok rle
      → send_bitfield msg length p ≡ (ok tt, with_sent p (answer msg length rle ∷ []))
  unfolding send_bitfield
  send_bitfield-answer p msg length rle reliable e =
      >>=-ok (lift (H.compress p.feed msg.start length)) (λ rle'. send (answer msg length rle'))
        (lift-ok _ p e)
      ∙ send_reliable (answer msg length rle) p reliable

  -- A `Want` is answered by the compressed bitfield of the range that it names (up to the length
  -- of the feed, if it names none), after the newest block if the remote wants blocks for the
  -- first time and the feed is not empty; from there on the remote is known to want blocks. The
  -- connection takes every message, and the range can be compressed.
  pub on_want-answers :
      (p : Peer H) (msg : Want) (rle : Bytes)
      → IsReliable p
      → H.compress p.feed msg.start (wanted_length p msg) ≡ ok rle
      → on_want msg p ≡ (ok tt, wanted p (newest p ++ answer msg (wanted_length p msg) rle ∷ []))
  unfolding on_want
  on_want-answers p msg rle reliable e =
      >>=-ok (announce (H.len p.feed)) (λ _. set_remote_want >> send_bitfield msg _)
        (announce-newest p reliable)
      ∙ send_bitfield-answer (wanted p (newest p)) msg (wanted_length p msg) rle reliable e
      ∙ ap {B = Result (Fault H.Error) (Unit {0}) × Peer H}
          (λ sent.
            (ok tt, record p { remote_want = true; channel = record p.channel { sent = sent } }))
          (append_assoc p.channel.sent (newest p) (answer msg (wanted_length p msg) rle ∷ []))

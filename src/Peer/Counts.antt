-- ===== src/Peer/Counts.antt =====
-- The acknowledgements and the counts of a run of a peer.

use mathlib.Core.Option.{Option}
use hyperspace_rs.Base.{
  ℕ, ◌-◌, ◌≡◌, refl, List, [], ◌∷◌, none, some, true, ltb, Result, if◌then◌else◌, sub64,
  Option-cases, inl, inr, continue, lift, pure, unwrap, ◌>>=◌, ◌>>◌,
}
use hyperspace_rs.Hypercore.{Hypercore}
use hyperspace_rs.Protocol.{Have, Want, Data, Request, open_feed, want, have, request, block, other}
use hyperspace_rs.Peer.{
  Peer, Channel, Stats, new, Event, message, feed_event, download, append, other_event, on_feed,
  add_downloaded,
}
use hyperspace_rs.Peer.Handlers.{
  send, send_have, on_open, wants_of, request_all, on_have, announce, send_bitfield,
  set_remote_want, on_want, acknowledge, count_block, put_block, on_data, send_block, on_request,
  on_event, on_events, take_receiver, run, parse_signature, parse_bitfield, wanted_bits,
}
use hyperspace_rs.Peer.Blocks.{putting, getting, proving}
use hyperspace_rs.Peer.Announce.{answer, wanted_length}
use hyperspace_rs.Peer.Requests.{request_for}
use hyperspace_rs.Peer.Counting.{
  IsCounted, Keeps, >>=-Keeps, pure-Keeps, if-Keeps, send-Keeps, send_block-Keeps,
}

module _ {H : Hypercore} where
  send_have-Keeps : (start : ℕ) (length : Option ℕ) → Keeps (send_have {H = H} start length)
  unfolding send_have
  send_have-Keeps start length = send-Keeps _ refl refl

  on_open-Keeps : Keeps (on_open {H = H})
  unfolding on_open
  on_open-Keeps p c =
      send-Keeps _ tt refl _
        (record { quiet = c.quiet; unacknowledged = c.unacknowledged; counted = c.counted })

  request_all-Keeps : (wants : List ℕ) → Keeps (request_all {H = H} wants)
  unfolding request_all
  request_all-Keeps [] = pure-Keeps tt
  request_all-Keeps (i ∷ wants) =
      >>=-Keeps (send (request_for i)) (λ _. request_all wants) (send-Keeps (request_for i) tt refl)
        (λ _. request_all-Keeps wants)

  unwrap-same :
      {A B : Type 0} (f : A → B) (o : Option A) (p : Peer H)
      → (continue {S = Peer H} {E = H.Error} (λ a. pure (f a)) (unwrap o p)).1 ≡ p
  unwrap-same f none p = refl
  unwrap-same f (some a) p = refl

  wants_of-same : (msg : Have) (p : Peer H) → (wants_of msg p).1 ≡ p
  unfolding wants_of
  wants_of-same msg p = elim (Option-cases msg.bitfield) [
    | inl e ↦ rw (e, wants_of)
    | inr (b, e) ↦
        rw (e, wants_of)
          (unwrap-same (λ bits. wanted_bits H p.feed 0 (H.bits bits)) (parse_bitfield H b) p)
  ]

  on_have-Keeps : (msg : Have) → Keeps (on_have {H = H} msg)
  unfolding on_have
  on_have-Keeps msg =
      >>=-Keeps (wants_of msg) request_all (λ p c. rw (wants_of-same msg p) c) request_all-Keeps

  announce-Keeps : (len : ℕ) → Keeps (announce {H = H} len)
  unfolding announce
  announce-Keeps len p =
      if-Keeps p.remote_want (pure tt) (if ltb 0 len then send_have (len - 1) none else pure tt)
        (pure-Keeps tt)
        (if-Keeps (ltb 0 len) (send_have (len - 1) none) (pure tt) (send_have-Keeps (len - 1) none)
          (pure-Keeps tt))
        p

  lift-Keeps : {A : Type 0} (r : Result H.Error A) → Keeps (lift {S = Peer H} r)
  lift-Keeps r p c = c

  send_bitfield-Keeps : (msg : Want) (length : ℕ) → Keeps (send_bitfield {H = H} msg length)
  unfolding send_bitfield
  send_bitfield-Keeps msg length p =
      >>=-Keeps (lift (H.compress p.feed msg.start length)) (λ rle. send (answer msg length rle))
        (lift-Keeps (H.compress p.feed msg.start length))
        (λ rle. send-Keeps (answer msg length rle) refl refl) p

  on_want-Keeps : (msg : Want) → Keeps (on_want {H = H} msg)
  unfolding on_want
  on_want-Keeps msg p =
      >>=-Keeps (announce (H.len p.feed))
        (λ _. set_remote_want >> send_bitfield msg (wanted_length p msg))
        (announce-Keeps (H.len p.feed))
        (λ _ q c.
          send_bitfield-Keeps msg (wanted_length p msg) (record q { remote_want = true })
            (record { quiet = c.quiet; unacknowledged = c.unacknowledged; counted = c.counted }))
        p

  count_block-Keeps : (msg : Data) → Keeps (count_block {H = H} msg)
  unfolding count_block add_downloaded acknowledge
  count_block-Keeps msg p c =
      rw c.quiet (record { quiet = refl; unacknowledged = c.unacknowledged; counted = c.counted })

  -- What the feed does keeps it: only the feed is changed.
  on_feed-Keeps : {A : Type 0} (f : H.Feed → Result H.Error A × H.Feed) → Keeps (on_feed {H = H} f)
  on_feed-Keeps f p c = record {
    quiet = c.quiet;
    unacknowledged = c.unacknowledged;
    counted = c.counted;
  }

  on_data-Keeps : (msg : Data) → Keeps (on_data {H = H} msg)
  unfolding on_data
  on_data-Keeps msg =
      >>=-Keeps (lift (parse_signature H msg.signature)) (λ s. put_block msg s >> count_block msg)
        (lift-Keeps (parse_signature H msg.signature))
        (λ s.
          >>=-Keeps (put_block msg s) (λ _. count_block msg) (on_feed-Keeps (putting H msg s))
            (λ _. count_block-Keeps msg))

  on_request-Keeps : (msg : Request) → Keeps (on_request {H = H} msg)
  unfolding on_request
  on_request-Keeps msg =
      >>=-Keeps (on_feed (getting H msg.index))
        (λ v. on_feed (proving H msg.index) >>= send_block msg.index v)
        (on_feed-Keeps (getting H msg.index))
        (λ v.
          >>=-Keeps (on_feed (proving H msg.index)) (send_block msg.index v)
            (on_feed-Keeps (proving H msg.index)) (send_block-Keeps msg.index v))

  on_event-Keeps : (event : Event) → Keeps (on_event {H = H} event)
  unfolding on_event
  on_event-Keeps (message open_feed) = on_open-Keeps
  on_event-Keeps (message (want msg)) = on_want-Keeps msg
  on_event-Keeps (message (have msg)) = on_have-Keeps msg
  on_event-Keeps (message (request msg)) = on_request-Keeps msg
  on_event-Keeps (message (block msg)) = on_data-Keeps msg
  on_event-Keeps (message other) = pure-Keeps tt
  on_event-Keeps (feed_event (download index)) = send_have-Keeps index none
  on_event-Keeps (feed_event append) = λ p. send_have-Keeps (sub64 (H.len p.feed) 1) none p
  on_event-Keeps (feed_event other_event) = pure-Keeps tt

  on_events-Keeps : (events : List Event) → Keeps (on_events {H = H} events)
  unfolding on_events
  on_events-Keeps [] = pure-Keeps tt
  on_events-Keeps (event ∷ events) =
      >>=-Keeps (on_event event) (λ _. on_events events) (on_event-Keeps event)
        (λ _. on_events-Keeps events)

  take_receiver-Keeps : Keeps (take_receiver {H = H})
  unfolding take_receiver
  take_receiver-Keeps p =
      if-Keeps p.channel.receiver _ (unwrap none)
        (λ q c. record { quiet = c.quiet; unacknowledged = c.unacknowledged; counted = c.counted })
        (λ q c. c) p

  -- Whatever events arrive and wherever a run ends, a peer that starts on a fresh channel and with
  -- fresh statistics never acknowledges a block, and its count of uploaded blocks is the number
  -- of blocks that it has sent, modulo 2^64.
  pub run-IsCounted :
      (feed : H.Feed) (channel : Channel H.Error) (stats : Stats) (events : List Event)
      → channel.sent ≡ []
      → stats.uploaded_blocks ≡ 0
      → IsCounted (run events (new {H = H} feed channel stats)).1
  unfolding run new
  run-IsCounted feed channel stats events fresh zero_blocks =
      >>=-Keeps take_receiver (λ _. on_open >> on_events events) take_receiver-Keeps
        (λ _. >>=-Keeps on_open (λ _. on_events events) on_open-Keeps (λ _. on_events-Keeps events))
        (new {H = H} feed channel stats)
        (record { quiet = refl; unacknowledged = rw fresh tt; counted = rw fresh zero_blocks })

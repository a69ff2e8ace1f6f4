-- ===== src/Peer/Counting.antt =====
-- The invariant of a peer's messages and statistics, and how methods keep it.

use mathlib.Core.Option.{Option}
use hyperspace_rs.Base.{
  ℕ, suc, ◌+◌, ◌%◌, ◌≡◌, ap, List, [], ◌∷◌, ◌++◌, none, some, Bool, true, false, Bytes, Result, ok,
  err, arith, if◌then◌else◌, All, u64_mod, add64, Option-cases, inl, inr, ◌⊎◌, Fault, continue,
  modify, pure, ◌>>=◌, ◌>>◌,
}
use hyperspace_rs.Hypercore.{Hypercore, Proof}
use hyperspace_rs.Protocol.{Data, Message, open_feed, want, have, request, block, other}
use hyperspace_rs.Peer.{Peer, Action, add_uploaded}
use hyperspace_rs.Peer.Handlers.{send, data_of, value_len, send_block}
use hyperspace_rs.Peer.Requests.{send_taken, send_refused, with_sent}

-- The number of blocks among the messages.
abbrev pub blocks_in : List Message → ℕ
blocks_in [] = 0
blocks_in (block _ ∷ msgs) = suc (blocks_in msgs)
blocks_in (open_feed ∷ msgs) = blocks_in msgs
blocks_in (want _ ∷ msgs) = blocks_in msgs
blocks_in (have _ ∷ msgs) = blocks_in msgs
blocks_in (request _ ∷ msgs) = blocks_in msgs
blocks_in (other ∷ msgs) = blocks_in msgs

-- The message acknowledges nothing.
abbrev pub IsNoAck : Message → Type 0
IsNoAck (have h) = h.ack ≡ none
IsNoAck open_feed = Unit
IsNoAck (want _) = Unit
IsNoAck (request _) = Unit
IsNoAck (block _) = Unit
IsNoAck other = Unit

blocks_in-append : (xs ys : List Message) → blocks_in (xs ++ ys) ≡ blocks_in xs + blocks_in ys
blocks_in-append [] ys = omega arith
blocks_in-append (open_feed ∷ xs) ys = blocks_in-append xs ys
blocks_in-append (want _ ∷ xs) ys = blocks_in-append xs ys
blocks_in-append (have _ ∷ xs) ys = blocks_in-append xs ys
blocks_in-append (request _ ∷ xs) ys = blocks_in-append xs ys
blocks_in-append (other ∷ xs) ys = blocks_in-append xs ys
blocks_in-append (block _ ∷ xs) ys = omega (arith, blocks_in-append xs ys)

All-append : (P : Message → Type 0) (xs ys : List Message) → All P xs → All P ys → All P (xs ++ ys)
All-append P [] ys h k = k
All-append P (x ∷ xs) ys h k = (h.0, All-append P xs ys h.1 k)

-- No acknowledgement was sent or asked for, and the statistics count the blocks that were sent,
-- as a u64 does.
pub record IsCounted {H : Hypercore} (p : Peer H) : Type 0 where
  pub quiet : p.remote_ack ≡ false
  pub unacknowledged : All IsNoAck p.channel.sent
  pub counted : p.stats.uploaded_blocks ≡ blocks_in p.channel.sent % u64_mod

module _ {H : Hypercore} where
  -- A method keeps the invariant, also where it fails.
  abbrev pub Keeps : {A : Type 0} → Action H A → Type 0
  Keeps m = (p : Peer H) → IsCounted p → IsCounted (m p).1

  pub continue-IsCounted :
      {A B : Type 0} (f : A → Action H B) (r : Result (Fault H.Error) A × Peer H)
      → ((a : A) → Keeps (f a))
      → IsCounted r.1
      → IsCounted (continue f r).1
  continue-IsCounted f (ok a, p) keeps c = keeps a p c
  continue-IsCounted f (err e, p) keeps c = c

  pub >>=-Keeps :
      {A B : Type 0} (m : Action H A) (f : A → Action H B)
      → Keeps m
      → ((a : A) → Keeps (f a))
      → Keeps (m >>= f)
  >>=-Keeps m f km kf p c = continue-IsCounted f (m p) kf (km p c)

  pub pure-Keeps : {A : Type 0} (a : A) → Keeps (pure {S = Peer H} a)
  pure-Keeps a p c = c

  pub if-Keeps :
      {A : Type 0} (b : Bool) (m n : Action H A) → Keeps m → Keeps n → Keeps (if b then m else n)
  if-Keeps true m n km kn = km
  if-Keeps false m n km kn = kn

  -- A message other than a block or an acknowledgement keeps it.
  pub send-Keeps :
      (msg : Message) → IsNoAck msg → blocks_in (msg ∷ []) ≡ 0 → Keeps (send {H = H} msg)
  unfolding send
  send-Keeps msg plain no_block p c = elim (Option-cases (p.channel.link p.channel.sent msg)) [
    | inl e ↦
        rw (e, send)
          (record {
            quiet = c.quiet;
            unacknowledged =
                All-append IsNoAck p.channel.sent (msg ∷ []) c.unacknowledged (plain, tt);
            counted = omega (arith, c.counted, blocks_in-append p.channel.sent (msg ∷ []));
          })
    | inr (x, e) ↦ rw (e, send) c
  ]

  abbrev count_sent : Option Bytes → Action H (Unit {0})
  count_sent v = modify (λ q. record q { stats = add_uploaded q.stats 1 (value_len v) })

  -- A block that is sent is counted in the same step.
  IsCounted-block :
      (p : Peer H) (msg : Data)
      → IsCounted p
      → IsCounted (count_sent msg.value (with_sent p (block msg ∷ []))).1
  unfolding add_uploaded add64
  IsCounted-block p msg c = record {
    quiet = c.quiet;
    unacknowledged = All-append IsNoAck p.channel.sent (block msg ∷ []) c.unacknowledged (tt, tt);
    counted = omega (arith, c.counted, blocks_in-append p.channel.sent (block msg ∷ []));
  }

  send_then_count :
      (p : Peer H) (msg : Data)
      → IsCounted p
      → (p.channel.link p.channel.sent (block msg) ≡ none)
        ⊎ ((e : H.Error) × (p.channel.link p.channel.sent (block msg) ≡ some e))
      → IsCounted ((send (block msg) >> count_sent msg.value) p).1
  unfolding send
  send_then_count p msg c (inl e) =
      rw (ap (continue (λ _. count_sent msg.value)) (send_taken (block msg) p e))
        (IsCounted-block p msg c)
  send_then_count p msg c (inr (x, e)) =
      rw (ap (continue (λ _. count_sent msg.value)) (send_refused (block msg) p e)) c

  pub send_block-Keeps :
      (i : ℕ) (v : Option Bytes) (pf : Proof H.Node H.Signature) → Keeps (send_block {H = H} i v pf)
  unfolding send_block
  send_block-Keeps i v pf p c = send_then_count p (data_of H i v pf) c (Option-cases _)

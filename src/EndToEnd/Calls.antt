-- ===== src/EndToEnd/Calls.antt =====
-- The calls of a client, in any order and with other clients in between.
use hyperspace_rs.Base.{
  ℕ, ◌+◌, ◌<◌, ◌≡◌, ◌^◌, refl, List, [], ◌∷◌, Option, some, Bytes, Result, Fault, length, get_elem?,
  subst, arith, ℕ_discrete, true, bytes_discrete,
}
use hyperspace_rs.Base.Maps
use hyperspace_rs.FreeMap
use hyperspace_rs.FreeMap.Invariant.{new-IsValid}
use hyperspace_rs.Corestore.{Env, World}
use hyperspace_rs.Session.{Feeds, IoError}
use hyperspace_rs.RemoteCore.{Client, InnerHypercore, SeekRequest, SeekResponse}
use hyperspace_rs.RemoteCore.Methods.{
  as_u32, append_blocks, get, seek, on_append, on_download, emit,
}
use hyperspace_rs.RemoteCore.Sessions
use hyperspace_rs.RemoteCore.Sessions.{
  open_by_key, open_by_name, append_event, download_event, to_session, open_new_key, open_new_name,
}
use hyperspace_rs.EndToEnd.{served, new_session}
use hyperspace_rs.EndToEnd.Kept.{
  Kept, open-IsServed, append_blocks-Keeps, get-Keeps, seek-Keeps, remote-IsServed,
  to_session-Keeps,
}
use hyperspace_rs.EndToEnd.Fresh.{grown}

-- What happens to a client and its session, one after the other: the client calls, an event of its
-- session arrives, or the corestore and the feeds, which the session shares, change.
pub data Call (V : Env) (F : Feeds V) : Type 0 where
  by_key by_name : Bytes → Call V F
  append : ℕ → List Bytes → Call V F
  get_block : ℕ → ℕ → Call V F
  seek_bytes : ℕ → ℕ → Call V F
  append_arrives : ℕ → ℕ → ℕ → Call V F
  download_arrives : ℕ → ℕ → Option ℕ → Call V F
  elsewhere : World V → F.Store → Call V F

module _ {V : Env} {F : Feeds V} {hex : Bytes → Bytes}
    {seeks : SeekRequest → Result (Fault (IoError V.Error)) SeekResponse} where
  unfoldable pub step : Call V F → Client (served F hex seeks) → Client (served F hex seeks)
  step (by_key key) c = (open_by_key key c).1
  step (by_name name) c = (open_by_name name c).1
  step (append ref blocks) c = (append_blocks ref blocks c).1
  step (get_block ref seq) c = (get ref seq c).1
  step (seek_bytes ref offset) c = (seek ref offset c).1
  step (append_arrives id len bytes) c = (append_event id len bytes c).1
  step (download_arrives id seq bytes) c = (download_event id seq bytes c).1
  step (elsewhere w store) c = record c {
    remote = record c.remote { corestore = w; store = store };
  }

  unfoldable pub run : List (Call V F) → Client (served F hex seeks) → Client (served F hex seeks)
  unfolding step
  run [] c = c
  run (x ∷ xs) c = run xs (step x c)

  step-Kept :
      (k : ℕ) (call : Call V F) (c : Client (served F hex seeks))
      → k + 1 < 2 ^ 32
      → Kept k c
      → Kept (k + 1) (step call c)
  unfolding step append_event download_event on_append on_download emit
  step-Kept k (by_key key) c room h = (open-IsServed key [] k c room h).0
  step-Kept k (by_name name) c room h = (open-IsServed [] name k c room h).1
  step-Kept k (append ref blocks) c room h =
      grown (k + 1) room k _ refl (append_blocks-Keeps k ref blocks c h)
  step-Kept k (get_block ref seq) c room h = grown (k + 1) room k _ refl (get-Keeps k ref seq c h)
  step-Kept k (seek_bytes ref offset) c room h =
      grown (k + 1) room k _ refl (seek-Keeps k ref offset c h)
  step-Kept k (append_arrives id len bytes) c room h = grown (k + 1) room k _ refl (
      to_session-Keeps k (FreeMap.get c.sessions id) (on_append len bytes) (λ i. (refl, refl, refl))
        c h)
  step-Kept k (download_arrives id seq bytes) c room h = grown (k + 1) room k _ refl (
      to_session-Keeps k (FreeMap.get c.sessions id) (on_download seq bytes)
        (λ i. (refl, refl, refl)) c h)
  step-Kept k (elsewhere w store) c room h =
      grown (k + 1) room k _ refl
        (remote-IsServed k c (record c.remote { corestore = w; store = store }) refl h)

  pub run-Kept :
      (calls : List (Call V F)) (k : ℕ) (c : Client (served F hex seeks))
      → k + length calls < 2 ^ 32
      → Kept k c
      → Kept (k + length calls) (run calls c)
  unfolding run
  run-Kept [] k c room h = subst (λ n. Kept n c) (omega arith) h
  run-Kept (x ∷ xs) k c room h =
      subst (λ n. Kept n (run xs (step x c))) (omega arith)
        (run-Kept xs (k + 1) (step x c) (omega arith) (step-Kept k x c (omega arith) h))

module _ {V : Env} (F : Feeds V) (hex : Bytes → Bytes)
    (seeks : SeekRequest → Result (Fault (IoError V.Error)) SeekResponse) where
  -- A new client on a new session.
  abbrev pub start : World V → F.Store → Client (served F hex seeks)
  start w store = Sessions.new (new_session {V = V} {F = F} w store)

  pub start-Kept : (w : World V) (store : F.Store) → Kept 0 (start w store)
  unfolding Sessions.new new_session FreeMap.new FreeMap.get Maps.get
  start-Kept w store = record {
    valid = new-IsValid bytes_discrete;
    linked = λ i r e. absurd (ground (arith, e));
    reads = λ r i e o. absurd (ground (arith, e));
    size = omega arith;
  }

  pub run-reads :
      (w : World V) (store : F.Store) (calls : List (Call V F))
      → length calls < 2 ^ 32
      → (ref : ℕ) (inner : InnerHypercore)
      → get_elem? (run calls (start w store)).cores ref ≡ some inner
      → inner.is_open ≡ true
      → let c = run calls (start w store) in
        (FreeMap.get c.sessions inner.id ≡ some ref)
        × (feed : V.api.Feed) × (Maps.get ℕ_discrete (as_u32 inner.id) c.remote.cores ≡ some feed)
        × (inner.key ≡ some (V.public_key feed))
  run-reads w store calls room ref inner at is_open =
      (run-Kept calls 0 (start w store) (omega arith) (start-Kept w store)).reads ref inner at
        is_open

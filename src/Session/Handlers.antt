-- ===== src/Session/Handlers.antt =====
-- The handlers of a session.
use hyperspace_rs.Base
use hyperspace_rs.Base.Maps
use hyperspace_rs.Base.{
  ℕ, ◌==◌, List, [], ◌∷◌, ◌++◌, Option, none, some, Bytes, Result, ok, err, Fault, failed, panicked,
  continue, pure, gets, modify, lift, ◌>>=◌, ◌>>◌, length, if◌then◌else◌, ℕ_discrete,
}
use hyperspace_rs.Corestore.{Env, Method}
use hyperspace_rs.Corestore.Opening.{get_by_key, get_by_name}
use hyperspace_rs.Session.{
  Feeds, IoError, other, bad_id, invalid_key_length, invalid_parameters, FeedEvent, append,
  download, other_event, Notification, on_append, on_download, OpenRequest, OpenResponse,
  AppendResponse, Handler,
}

-- `map_err`; a panic stays one.
abbrev pub map_err : {E A : Type 0} → Result E A → Result (Fault (IoError E)) A
map_err (ok a) = ok a
map_err (err e) = err (failed (other e))

abbrev pub map_fault : {E A : Type 0} → Result (Fault E) A → Result (Fault (IoError E)) A
map_fault (ok a) = ok a
map_fault (err (failed e)) = err (failed (other e))
map_fault (err panicked) = err panicked

module _ {V : Env} {F : Feeds V} where
  open V use {Feed}

  -- A call of the corestore, and one of a feed.
  abbrev pub on_corestore : {A : Type 0} → Method V A → Handler V F A
  on_corestore m s = let (r, w) = m s.corestore in (map_fault r, record s { corestore = w })

  abbrev pub on_store : {A : Type 0} → (F.Store → Result V.Error A × F.Store) → Handler V F A
  on_store f s = let (r, store) = f s.store in (map_err r, record s { store = store })

  -- `cores.get(&id).ok_or(bad_id())`
  abbrev pub or_bad_id : Option Feed → Handler V F Feed
  or_bad_id none s = (err (failed bad_id), s)
  or_bad_id (some feed) s = (ok feed, s)

  unfoldable pub core_of : ℕ → Handler V F Feed
  core_of id s = or_bad_id (Maps.get ℕ_discrete id s.cores) s

  unfoldable pub get : ℕ → ℕ → Handler V F (Option Bytes)
  get id seq = do feed ← core_of id; on_store (F.get feed seq)

  -- The loop of `append`.
  unfoldable pub append_all : Feed → List Bytes → Handler V F (Unit {0})
  append_all feed [] = pure tt
  append_all feed (block ∷ blocks) = on_store (F.append feed block) >> append_all feed blocks

  unfoldable pub append_response : Feed → Handler V F AppendResponse
  append_response feed s = (
    ok (record {
      length = F.len feed s.store;
      byte_length = F.byte_len feed s.store;
      seq = F.len feed s.store;
    }),
    s,
  )

  unfoldable pub append_to : List Bytes → Feed → Handler V F AppendResponse
  append_to blocks feed = append_all feed blocks >> append_response feed

  unfoldable pub append_blocks : ℕ → List Bytes → Handler V F AppendResponse
  append_blocks id blocks = core_of id >>= append_to blocks

  -- The feed that `open` asks the corestore for: by name if there is one, else by key.
  unfoldable pub feed_for : Option Bytes → Option Bytes → Handler V F Feed
  feed_for (some name) key s = on_corestore (get_by_name name) s
  feed_for none (some key) s =
      (if length key == 32 then on_corestore (get_by_key key) else lift (err invalid_key_length)) s
  feed_for none none s = (err (failed invalid_parameters), s)

  -- The feed state with its notify task, under the id.
  unfoldable pub add_core : ℕ → Feed → Handler V F (Unit {0})
  add_core id feed s = (
    ok tt,
    record s { tasks = s.tasks ++ (id, feed) ∷ []; cores = Maps.insert ℕ_discrete id feed s.cores },
  )

  unfoldable pub open_response : Feed → Handler V F OpenResponse
  open_response feed s = (
    ok (record {
      key = V.public_key feed;
      length = F.len feed s.store;
      byte_length = F.byte_len feed s.store;
      writable = F.writable feed s.store;
    }),
    s,
  )

  unfoldable pub open_with : ℕ → Feed → Handler V F OpenResponse
  open_with id feed = add_core id feed >> open_response feed

  unfoldable pub open_core : OpenRequest → Handler V F OpenResponse
  open_core req = feed_for req.name req.key >>= open_with req.id

  -- `configure` of the network service, which has no status to give.
  unfoldable pub configure : {Status : Type 0} → Handler V F (Option Status)
  configure s = (ok none, s)

module _ {V : Env} (F : Feeds V) (id : ℕ) (feed : V.api.Feed) where
  -- What the client is told of an event, with the feed as it is then.
  unfoldable pub notification : F.Store → FeedEvent → Option Notification
  notification store append = some (
      on_append
        (record { id = id; length = F.len feed store; byte_length = F.byte_len feed store }))
  notification store (download seq) =
      some (on_download (record { id = id; seq = seq; byte_length = some (F.byte_len feed store) }))
  notification store other_event = none

  module _ {E : Type 0} (link : List Notification → Notification → Option E) where
    -- A call of the client, which takes it or is an error.
    abbrev pub deliver : Option E → Notification → Base.Action (List Notification) E (Unit {0})
    deliver none n sent = (ok tt, sent ++ n ∷ [])
    deliver (some e) n sent = (err (failed e), sent)

    abbrev pub send_some : Option Notification → Base.Action (List Notification) E (Unit {0})
    send_some none sent = (ok tt, sent)
    send_some (some n) sent = deliver (link sent n) n sent

    -- `notify_loop`, on the events and what the feeds hold when each of them is handled.
    unfoldable pub notify_loop :
        List (F.Store × FeedEvent) → Base.Action (List Notification) E (Unit {0})
    notify_loop [] = pure tt
    notify_loop ((store, event) ∷ rest) = send_some (notification store event) >> notify_loop rest

-- ===== src/EndToEnd/Notified.antt =====
-- What a session tells of its feeds, and what its client makes of it.
use hyperspace_rs.Base.Maps
use hyperspace_rs.Base.{
  ℕ, ◌<◌, ◌==◌, ◌≡◌, ◌^◌, refl, ap, ap₂, sym, ◌∙◌, List, [], ◌∷◌, ◌++◌, map, append_assoc,
  append-nil, Option, none, some, Bool, true, false, Bytes, Result, ok, Fault, get_elem?,
  Bool-cases, inl, inr, arith, if◌then◌else◌, ℕ_discrete, Subscriber, tell_all, told,
}
use hyperspace_rs.FreeMap
use hyperspace_rs.Corestore.{Env}
use hyperspace_rs.Session.{Feeds, IoError, FeedEvent, append, download, other_event, Notification}
use hyperspace_rs.Session.Handlers.{notify_loop}
use hyperspace_rs.Session.Appending.{notifications, notify_loop-tells}
use hyperspace_rs.RemoteCore.{
  Remote, Client, InnerHypercore, HypercoreEvent, SeekRequest, SeekResponse,
}
use hyperspace_rs.RemoteCore.Methods.{as_u32, on_append, on_download, emit}
use hyperspace_rs.RemoteCore.Sessions.{append_event, download_event, to_session}
use hyperspace_rs.RemoteCore.Cores.{get_elem?-update_at}
use hyperspace_rs.RemoteCore.Methods.{update_at}
use hyperspace_rs.RemoteCore.Events.{update_at-reads}
use hyperspace_rs.EndToEnd.{served}
use hyperspace_rs.EndToEnd.Held.{held_range}
use hyperspace_rs.EndToEnd.Kept.{Kept}

module _ {R : Remote} where
  -- A client that gets a notification of its session, and all of them, one after the other.
  unfoldable pub receive : Notification → Client R → Client R
  receive (Notification.on_append e) c = (append_event e.id e.length e.byte_length c).1
  receive (Notification.on_download e) c = (download_event e.id e.seq e.byte_length c).1

  unfoldable pub receive_all : List Notification → Client R → Client R
  receive_all [] c = c
  receive_all (n ∷ ns) c = receive_all ns (receive n c)

-- The events that the listeners of a core are told of.
abbrev pub heard : {Store : Type 0} → List (Store × FeedEvent) → List HypercoreEvent
heard [] = []
heard ((store, append) ∷ rest) = HypercoreEvent.append ∷ heard rest
heard ((store, download seq) ∷ rest) = HypercoreEvent.download seq ∷ heard rest
heard ((store, other_event) ∷ rest) = heard rest

-- A listener that has got the events, if it is still there.
abbrev pub hears : List HypercoreEvent → Subscriber HypercoreEvent → Subscriber HypercoreEvent
hears events s = if s.connected then record s { events = s.events ++ events } else s

hears_none : (s : Subscriber HypercoreEvent) → hears [] s ≡ s
hears_none s = elim (Bool-cases s.connected) [
  | inl h ↦
      ap (λ b. if b then record s { events = s.events ++ [] } else s) h
      ∙ ap (λ es. record s { events = es }) (append-nil s.events)
  | inr h ↦ ap (λ b. if b then record s { events = s.events ++ [] } else s) h
]

hears_more :
    (event : HypercoreEvent) (events : List HypercoreEvent) (s : Subscriber HypercoreEvent)
    → hears events (if s.connected then told event s else s) ≡ hears (event ∷ events) s
hears_more event events s = elim (Bool-cases s.connected) [
  | inl h ↦
      ap (λ b. hears events (if b then told event s else s)) h
      ∙ ap (λ b. if b then record s { events = s.events ++ event ∷ [] ++ events } else told event s)
          h
      ∙ ap (λ es. record s { events = es }) (append_assoc s.events (event ∷ []) events)
      ∙ ap (λ b. if b then record s { events = s.events ++ event ∷ events } else s) (sym h)
  | inr h ↦
      ap (λ b. hears events (if b then told event s else s)) h
      ∙ ap (λ b. if b then record s { events = s.events ++ events } else s) h
      ∙ ap (λ b. if b then record s { events = s.events ++ event ∷ events } else s) (sym h)
]

hears-nil : (listeners : List (Subscriber HypercoreEvent)) → map (hears []) listeners ≡ listeners
hears-nil [] = refl
hears-nil (s ∷ rest) = ap₂ ◌∷◌ (hears_none s) (hears-nil rest)

hears-cons :
    (event : HypercoreEvent) (events : List HypercoreEvent)
    (listeners : List (Subscriber HypercoreEvent))
    → map (hears events) (tell_all event listeners) ≡ map (hears (event ∷ events)) listeners
hears-cons event events [] = refl
hears-cons event events (s ∷ rest) =
    ap₂ ◌∷◌ (hears_more event events s) (hears-cons event events rest)

if_twice :
    {A : Type 0} (b : Bool) (x z w : A) {y : A}
    → y ≡ (if b then z else w)
    → (if b then x else y) ≡ (if b then x else w)
if_twice true x z w e = refl
if_twice false x z w e = e

read_there :
    (ref j : ℕ) (cores : List InnerHypercore) {inner : InnerHypercore}
    → get_elem? cores ref ≡ some inner
    → get_elem? cores j ≡ (if ref == j then some inner else get_elem? cores j)
read_there ref j cores at = elim (Bool-cases (ref == j)) [
  | inl h ↦
      let here : ref ≡ j = ground (arith, h) in
      ap (get_elem? cores) (sym here) ∙ at ∙ ground (arith, h)
  | inr h ↦ ground (arith, h)
]

module _ {V : Env} (F : Feeds V) (feed : V.api.Feed) where
  -- A core after the events of its feed.
  abbrev pub followed : List (F.Store × FeedEvent) → InnerHypercore → InnerHypercore
  followed [] inner = inner
  followed ((store, append) ∷ rest) inner =
      followed rest (on_append (F.len feed store) (F.byte_len feed store) inner)
  followed ((store, download seq) ∷ rest) inner =
      followed rest (on_download seq (some (F.byte_len feed store)) inner)
  followed ((store, other_event) ∷ rest) inner = followed rest inner

  followed-hears :
      (events : List (F.Store × FeedEvent)) (inner : InnerHypercore)
      → (followed events inner).listeners ≡ map (hears (heard events)) inner.listeners
  unfolding on_append on_download emit
  followed-hears [] inner = sym (hears-nil inner.listeners)
  followed-hears ((store, append) ∷ rest) inner =
      followed-hears rest _ ∙ hears-cons HypercoreEvent.append (heard rest) inner.listeners
  followed-hears ((store, download seq) ∷ rest) inner =
      followed-hears rest _ ∙ hears-cons (HypercoreEvent.download seq) (heard rest) inner.listeners
  followed-hears ((store, other_event) ∷ rest) inner = followed-hears rest inner

  -- The last event is an append: the core is as long as the feed was then.
  followed-length :
      (events : List (F.Store × FeedEvent)) (store : F.Store) (inner : InnerHypercore)
      → let after = followed (events ++ (store, append) ∷ []) inner in
        (after.length ≡ F.len feed store) × (after.byte_length ≡ F.byte_len feed store)
  unfolding on_append emit
  followed-length [] store inner = (refl, refl)
  followed-length ((s, append) ∷ rest) store inner = followed-length rest store _
  followed-length ((s, download seq) ∷ rest) store inner = followed-length rest store _
  followed-length ((s, other_event) ∷ rest) store inner = followed-length rest store inner

  -- Only the core of the session changes.
  receive_all-followed :
      {R : Remote} (id ref : ℕ) (events : List (F.Store × FeedEvent)) (c : Client R)
      (inner : InnerHypercore) (j : ℕ)
      → FreeMap.get c.sessions id ≡ some ref
      → get_elem? c.cores ref ≡ some inner
      → get_elem? (receive_all (notifications F id feed events) c).cores j
        ≡ (if ref == j then some (followed events inner) else get_elem? c.cores j)
  unfolding receive_all receive append_event download_event to_session
  receive_all-followed id ref [] c inner j held at = read_there ref j c.cores at
  receive_all-followed {R} id ref ((store, append) ∷ rest) c inner j held at =
      let f = on_append (F.len feed store) (F.byte_len feed store) in
      ap (λ o. get_elem? (receive_all (notifications F id feed rest) (to_session o f c).1).cores j)
        held
      ∙ receive_all-followed id ref rest (record c { cores = update_at ref f c.cores }) (f inner) j
          held (get_elem?-update_at ref f c.cores at)
      ∙ if_twice (ref == j) (some (followed rest (f inner))) (some (f inner)) (get_elem? c.cores j)
          (update_at-reads ref f c.cores j at)
  receive_all-followed id ref ((store, download seq) ∷ rest) c inner j held at =
      let f = on_download seq (some (F.byte_len feed store)) in
      ap (λ o. get_elem? (receive_all (notifications F id feed rest) (to_session o f c).1).cores j)
        held
      ∙ receive_all-followed id ref rest (record c { cores = update_at ref f c.cores }) (f inner) j
          held (get_elem?-update_at ref f c.cores at)
      ∙ if_twice (ref == j) (some (followed rest (f inner))) (some (f inner)) (get_elem? c.cores j)
          (update_at-reads ref f c.cores j at)
  receive_all-followed id ref ((store, other_event) ∷ rest) c inner j held at =
      receive_all-followed id ref rest c inner j held at

module _ {V : Env} {F : Feeds V} {hex : Bytes → Bytes}
    {seeks : SeekRequest → Result (Fault (IoError V.Error)) SeekResponse} where
  -- An open core of a client follows the feed that the client's session has for it: when the
  -- session has told of any events of the feed, the last of which is an append, the core's length
  -- and byte length are those of the feed as it was then, each listener that is still there has got
  -- each append and each download, once and in order, and no other core has changed. The client and
  -- its session belong together, with fewer than 2^32 sessions, and the client takes every call.
  pub notify_loop-follows :
      {E : Type 0} (link : List Notification → Notification → Option E) (k : ℕ)
      (c : Client (served F hex seeks)) (ref : ℕ) (inner : InnerHypercore)
      (events : List (F.Store × FeedEvent)) (store : F.Store)
      → k < 2 ^ 32
      → Kept k c
      → get_elem? c.cores ref ≡ some inner
      → inner.is_open ≡ true
      → ((sent : List Notification) (n : Notification) → link sent n ≡ none)
      → (feed : V.api.Feed) × (Maps.get ℕ_discrete (as_u32 inner.id) c.remote.cores ≡ some feed)
        × (inner.key ≡ some (V.public_key feed))
        × let (result, told) =
            notify_loop F (as_u32 inner.id) feed link (events ++ (store, append) ∷ []) [] in
          (result ≡ ok tt)
          × (after : InnerHypercore) × (after.length ≡ F.len feed store)
          × (after.byte_length ≡ F.byte_len feed store)
          × (after.listeners ≡ map (hears (heard (events ++ (store, append) ∷ []))) inner.listeners)
          × ((j : ℕ)
              → get_elem? (receive_all told c).cores j
                ≡ (if ref == j then some after else get_elem? c.cores j))
  notify_loop-follows link k c ref inner events store room kept at is_open takes =
      let (held, feed, reads, key) = kept.reads ref inner at is_open in
      let id = as_u32 inner.id in
      let all = events ++ (store, append) ∷ [] in
      let small : id ≡ inner.id =
        omega (arith, held_range kept.valid inner.id ref held, kept.size) in
      let run = notify_loop-tells F id feed link all [] takes in
      let (len, bytes) = followed-length F feed events store inner in
      (
        feed,
        reads,
        key,
        (
          ap (λ x. x.0) run,
          followed F feed all inner,
          len,
          bytes,
          followed-hears F feed all inner,
          λ j.
              ap (λ x. get_elem? (receive_all x.1 c).cores j) run
              ∙ receive_all-followed F feed id ref all c inner j
                  (ap (FreeMap.get c.sessions) small ∙ held) at,
        ),
      )

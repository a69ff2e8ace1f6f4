-- ===== src/EndToEnd/Tests.antt =====
-- The client and the session of EndToEnd/Sample.antt at work.
use hyperspace_rs.Base.Maps
use hyperspace_rs.Base.{
  get_elem?-end, get_elem?-append, ℕ, zero, suc, ap, ◌+◌, ◌≡◌, ◌<◌, refl, arith, List, [], ◌∷◌,
  ◌++◌, length, length-append, Option, none, some, true, Bytes, Result, ok, err, Fault, failed,
  get_elem?, ℕ_discrete, bytes_discrete,
}
use hyperspace_rs.FreeMap
use hyperspace_rs.FeedMap
use hyperspace_rs.Corestore.Sample.{plain, world}
use hyperspace_rs.Corestore.Opening
use hyperspace_rs.Session.Handlers
use hyperspace_rs.RemoteCore.{InnerHypercore}
use hyperspace_rs.RemoteCore.Methods
use hyperspace_rs.RemoteCore.Methods.{as_u32, append_blocks, get}
use hyperspace_rs.RemoteCore.Sessions
use hyperspace_rs.EndToEnd.{new_session}
use hyperspace_rs.Base.{if◌then◌else◌, ◌==◌, concat}
use hyperspace_rs.Session.{FeedEvent, append, download, Notification}
use hyperspace_rs.Session.Handlers.{notify_loop}
use hyperspace_rs.EndToEnd.Notified.{receive_all, notify_loop-follows}
use hyperspace_rs.EndToEnd.Kept.{Kept}
use hyperspace_rs.EndToEnd.Calls.{Call, by_name, run, step, run-reads, run-Kept, start-Kept}
use hyperspace_rs.EndToEnd.Written.{Leads}
use hyperspace_rs.EndToEnd.Shared.{shared, append_blocks-shared}
use hyperspace_rs.Base.{sym, ◌∙◌}
use hyperspace_rs.EndToEnd.Sample.{listed, listed_laws, no_seek, Connected, fresh}

abbrev calls : List (Call plain listed)
calls = by_name (5 ∷ []) ∷ Call.append 0 ((2 ∷ []) ∷ []) ∷ []

abbrev written : Connected
written = run calls fresh

abbrev core : InnerHypercore
core = record {
  id = 1;
  name = some (5 ∷ []);
  key = some (1 ∷ 5 ∷ []);
  length = 2;
  byte_length = 2;
  writable = true;
  is_open = true;
  listeners = [];
}

abbrev opened_core : InnerHypercore
opened_core = record core { length = 1; byte_length = 1 }

abbrev opened : Connected
opened = run (by_name (5 ∷ []) ∷ []) fresh

abbrev more : Connected
more = (append_blocks 0 ((2 ∷ []) ∷ (3 ∷ []) ∷ []) opened).1

-- What the calls do, by computation.
runs :
    (get_elem? written.cores 0 ≡ some core)
    × (get_elem? opened.cores 0 ≡ some opened_core)
    × (length opened.remote.store ≡ 1)
    × (append_blocks 0 ((2 ∷ []) ∷ (3 ∷ []) ∷ []) opened ≡ (ok tt, more))
unfolding run step Sessions.new new_session Sessions.open_or FreeMap.get_by_name Maps.get
    FreeMap.new Sessions.add_core Methods.new_core Sessions.insert_session Methods.set_id
    Methods.open_core Methods.open_unless Methods.open_inner Sessions.open_by_name
    Sessions.open_new_name Sessions.open_named Sessions.name_key Sessions.set_name Maps.insert
    hyperspace_rs.Base.add64 bytes_discrete FreeMap.insert FreeMap.insert_with_name FreeMap.set_name
    ℕ_discrete Handlers.open_core Handlers.open_with Handlers.open_response Handlers.add_core
    Handlers.feed_for Opening.get_by_name Opening.open_feed Opening.found_or Opening.key_cached
    Opening.name_cached FeedMap.get_name FeedMap.new Opening.prepare Opening.known_name
    Opening.keys_for hyperspace_rs.Corestore.Methods.generate_key_pair
    hyperspace_rs.Corestore.Methods.name_or hyperspace_rs.Corestore.Methods.key_pair_of
    hyperspace_rs.Corestore.Methods.derive_secret Opening.prepare_with Opening.keep_name
    hyperspace_rs.Corestore.Methods.derive_key hyperspace_rs.Corestore.Methods.emit
    hyperspace_rs.Corestore.Methods.feed_path hyperspace_rs.Corestore.Methods.feed_storage
    hyperspace_rs.Corestore.Methods.len_of hyperspace_rs.Corestore.Methods.name_storage
    hyperspace_rs.Corestore.Methods.open_path hyperspace_rs.Corestore.Methods.send_all
    hyperspace_rs.Corestore.Methods.write_at hyperspace_rs.Corestore.Methods.write_name_if_empty
    hyperspace_rs.Corestore.Methods.write_path hyperspace_rs.Corestore.Methods.write_unless
    Opening.build Opening.build_feed Opening.insert_feed Opening.open_storage Opening.publish
    FeedMap.add_name FeedMap.feed_of FeedMap.insert hyperspace_rs.Base.concat append_blocks
    Handlers.append_blocks Handlers.core_of Handlers.append_to Handlers.append_all
    Handlers.append_response
runs = (refl, refl, refl, refl)

-- Two sessions on the one corestore: one client appends, the other one reads.
written-Leads : Leads {V = plain} {F = listed} {seeks = no_seek} written 0 (1 ∷ 5 ∷ [])
written-Leads =
    let (_, feed, held, key) =
      run-reads {V = plain} listed (λ bytes. bytes) no_seek world ((7 ∷ []) ∷ []) calls
        (omega arith) 0 core runs.0 refl in
    (core, runs.0, held ∙ sym key)

opened-Leads : Leads {V = plain} {F = listed} {seeks = no_seek} opened 0 (1 ∷ 5 ∷ [])
opened-Leads =
    let (_, feed, held, key) =
      run-reads {V = plain} listed (λ bytes. bytes) no_seek world ((7 ∷ []) ∷ [])
        (by_name (5 ∷ []) ∷ []) (omega arith) 0 opened_core runs.1 refl in
    (opened_core, runs.1, held ∙ sym key)

append_blocks-shared_example :
    let n = length opened.remote.store in
    (inner : InnerHypercore) × (get_elem? more.cores 0 ≡ some inner)
    × (inner.length ≡ n + 2)
    × ((get 0 (n + 1) more).0 ≡ ok (some (3 ∷ [])))
    × ((get 0 (n + 1) (shared {V = plain} more written)).0 ≡ ok (some (3 ∷ [])))
    × ((get 0 0 (shared {V = plain} more written)).0
        ≡ (get 0 0 (shared {V = plain} opened written)).0)
append_blocks-shared_example =
    append_blocks-shared {V = plain} {F = listed} {hex = λ bytes. bytes} {seeks = no_seek}
      listed_laws (1 ∷ 5 ∷ []) 0 0 ((2 ∷ []) ∷ (3 ∷ []) ∷ []) 1 0 (3 ∷ []) opened more written
      opened-Leads written-Leads refl (omega (arith, runs.2)) runs.3

written-Kept : Kept {V = plain} {F = listed} {seeks = no_seek} 2 written
written-Kept =
    run-Kept {V = plain} {F = listed} {hex = λ bytes. bytes} {seeks = no_seek} calls 0 fresh
      (omega arith) (start-Kept {V = plain} listed (λ bytes. bytes) no_seek world ((7 ∷ []) ∷ []))

abbrev takes_all : List Notification → Notification → Option ℕ
takes_all sent n = none

-- A download, and then the append of another client.
abbrev told_events : List (List Bytes × FeedEvent)
told_events = (((7 ∷ []) ∷ (2 ∷ []) ∷ []), download 1) ∷ []

notify_loop-follows_example :
    (feed : Bytes) × (Maps.get ℕ_discrete 1 written.remote.cores ≡ some feed)
    × (some (1 ∷ 5 ∷ []) ≡ some feed)
    × let (result, told) =
        notify_loop {V = plain} listed 1 feed takes_all
          (told_events ++ ((7 ∷ []) ∷ (2 ∷ []) ∷ (9 ∷ 9 ∷ []) ∷ [], append) ∷ [])
          [] in
      (result ≡ ok tt)
      × (after : InnerHypercore) × (after.length ≡ 3)
      × (after.byte_length ≡ 4)
      × (after.listeners ≡ [])
      × ((j : ℕ)
          → get_elem? (receive_all told written).cores j
            ≡ (if 0 == j then some after else get_elem? written.cores j))
unfolding concat
notify_loop-follows_example =
    notify_loop-follows {V = plain} {F = listed} {hex = λ bytes. bytes} {seeks = no_seek} takes_all
      2 written 0 core told_events ((7 ∷ []) ∷ (2 ∷ []) ∷ (9 ∷ 9 ∷ []) ∷ []) (omega arith)
      written-Kept runs.0 refl (λ sent n. refl)

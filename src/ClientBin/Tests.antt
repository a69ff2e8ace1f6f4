-- ===== src/ClientBin/Tests.antt =====
-- A program on the client and the session of EndToEnd/Sample.antt.
use hyperspace_rs.Base.Maps
use hyperspace_rs.Base.{
  get_elem?-end, get_elem?-append, ℕ, zero, suc, ap, ◌+◌, ◌≡◌, ◌<◌, refl, arith, List, [], ◌∷◌,
  ◌++◌, length, length-append, Option, none, some, true, Bytes, false, Bool, Result, ok, err, Fault,
  failed, get_elem?, ℕ_discrete, bytes_discrete,
}
use hyperspace_rs.FreeMap
use hyperspace_rs.FeedMap
use hyperspace_rs.Corestore.Sample.{plain, world}
use hyperspace_rs.Corestore.Opening
use hyperspace_rs.Session.{IoError}
use hyperspace_rs.Session.Handlers
use hyperspace_rs.RemoteCore.Methods
use hyperspace_rs.RemoteCore.Methods.{as_u32, append_blocks, get}
use hyperspace_rs.RemoteCore.Sessions
use hyperspace_rs.FeedMap.Invariant.{new-IsValid}
use hyperspace_rs.ClientBin.Twice.{write-read_again}
use hyperspace_rs.EndToEnd.{served, new_session}
use hyperspace_rs.EndToEnd.Calls.{start}
use hyperspace_rs.EndToEnd.Sample.{listed, listed_laws, no_seek, Connected, fresh}
use hyperspace_rs.RemoteCore.Cores.{IsOpen}
use hyperspace_rs.EndToEnd.Kept.{Kept}
use hyperspace_rs.EndToEnd.Written.{Leads}
use hyperspace_rs.ClientBin.{
  Opts, write_core, open_from, open_shown, write, append_chunk, read_stream,
}
use hyperspace_rs.ClientBin.Opening.{open_shown-shows}
use hyperspace_rs.ClientBin.Echo.{write-read}
use hyperspace_rs.ClientBin.Reading.{copy}
use hyperspace_rs.Base.{concat, map}

abbrev unhex : Bytes → Result ℕ Bytes
unhex text = err 1

abbrev opts : Opts
opts = record { key = none; name = some (5 ∷ []); host = none; command = write_core }

abbrev opened : Connected
opened =
    (open_from (served {V = plain} listed (λ bytes. bytes) no_seek) ℕ unhex none (some (5 ∷ []))
      fresh).1

opened_ok :
    open_from
      (served {V = plain} listed (λ bytes. bytes) no_seek)
      ℕ
      unhex
      none
      (some (5 ∷ []))
      fresh
    ≡ (ok 0, opened)
unfolding Sessions.new new_session Sessions.open_or FreeMap.get_by_name Maps.get FreeMap.new
    Sessions.add_core Methods.new_core Sessions.insert_session Methods.set_id Methods.open_core
    Methods.open_unless Methods.open_inner Sessions.open_by_name Sessions.open_new_name
    Sessions.open_named Sessions.name_key Sessions.set_name Maps.insert hyperspace_rs.Base.add64
    bytes_discrete FreeMap.insert FreeMap.insert_with_name FreeMap.set_name ℕ_discrete
    Handlers.open_core Handlers.open_with Handlers.open_response Handlers.add_core Handlers.feed_for
    Opening.get_by_name Opening.open_feed Opening.found_or Opening.key_cached Opening.name_cached
    FeedMap.get_name FeedMap.new Opening.prepare Opening.known_name Opening.keys_for
    hyperspace_rs.Corestore.Methods.generate_key_pair hyperspace_rs.Corestore.Methods.name_or
    hyperspace_rs.Corestore.Methods.key_pair_of hyperspace_rs.Corestore.Methods.derive_secret
    Opening.prepare_with Opening.keep_name hyperspace_rs.Corestore.Methods.derive_key
    hyperspace_rs.Corestore.Methods.emit hyperspace_rs.Corestore.Methods.feed_path
    hyperspace_rs.Corestore.Methods.feed_storage hyperspace_rs.Corestore.Methods.len_of
    hyperspace_rs.Corestore.Methods.name_storage hyperspace_rs.Corestore.Methods.open_path
    hyperspace_rs.Corestore.Methods.send_all hyperspace_rs.Corestore.Methods.write_at
    hyperspace_rs.Corestore.Methods.write_name_if_empty hyperspace_rs.Corestore.Methods.write_path
    hyperspace_rs.Corestore.Methods.write_unless Opening.build Opening.build_feed
    Opening.insert_feed Opening.open_storage Opening.publish FeedMap.add_name FeedMap.feed_of
    FeedMap.insert hyperspace_rs.Base.concat append_blocks Handlers.append_blocks Handlers.core_of
    Handlers.append_to Handlers.append_all Handlers.append_response open_from
opened_ok = refl

open_shown-shows_example :
    (feed : Bytes) × Leads {V = plain} {F = listed} opened 0 feed
    × Kept {V = plain} {F = listed} {seeks = no_seek} 1 opened
    × IsOpen opened 0
    × (open_shown (served {V = plain} listed (λ bytes. bytes) no_seek) ℕ unhex opts fresh
        ≡ (ok (0, feed), opened))
open_shown-shows_example =
    open_shown-shows {V = plain} listed (λ bytes. bytes) no_seek ℕ world ((7 ∷ []) ∷ []) unhex opts
      opened 0 opened_ok

-- Two chunks of input, with a read of nothing between them and one after them.
abbrev chunks : List Bytes
chunks = (2 ∷ []) ∷ [] ∷ (3 ∷ 4 ∷ []) ∷ [] ∷ []

-- The same program on a feed that is empty.
abbrev empty : Connected
empty =
    (open_from (served {V = plain} listed (λ bytes. bytes) no_seek) ℕ unhex none (some (5 ∷ []))
      (start {V = plain} listed (λ bytes. bytes) no_seek world [])).1

abbrev filled : Connected
filled = (write (served {V = plain} listed (λ bytes. bytes) no_seek) ℕ 0 (map ok chunks) empty).1

-- What the two programs do, by computation.
runs :
    (open_from
        (served {V = plain} listed (λ bytes. bytes) no_seek)
        ℕ
        unhex
        none
        (some (5 ∷ []))
        (start {V = plain} listed (λ bytes. bytes) no_seek world [])
      ≡ (ok 0, empty))
    × (empty.remote.store ≡ [])
    × (write (served {V = plain} listed (λ bytes. bytes) no_seek) ℕ 0 (map ok chunks) empty
        ≡ (ok tt, filled))
unfolding Sessions.new new_session Sessions.open_or FreeMap.get_by_name Maps.get FreeMap.new
    Sessions.add_core Methods.new_core Sessions.insert_session Methods.set_id Methods.open_core
    Methods.open_unless Methods.open_inner Sessions.open_by_name Sessions.open_new_name
    Sessions.open_named Sessions.name_key Sessions.set_name Maps.insert hyperspace_rs.Base.add64
    bytes_discrete FreeMap.insert FreeMap.insert_with_name FreeMap.set_name ℕ_discrete
    Handlers.open_core Handlers.open_with Handlers.open_response Handlers.add_core Handlers.feed_for
    Opening.get_by_name Opening.open_feed Opening.found_or Opening.key_cached Opening.name_cached
    FeedMap.get_name FeedMap.new Opening.prepare Opening.known_name Opening.keys_for
    hyperspace_rs.Corestore.Methods.generate_key_pair hyperspace_rs.Corestore.Methods.name_or
    hyperspace_rs.Corestore.Methods.key_pair_of hyperspace_rs.Corestore.Methods.derive_secret
    Opening.prepare_with Opening.keep_name hyperspace_rs.Corestore.Methods.derive_key
    hyperspace_rs.Corestore.Methods.emit hyperspace_rs.Corestore.Methods.feed_path
    hyperspace_rs.Corestore.Methods.feed_storage hyperspace_rs.Corestore.Methods.len_of
    hyperspace_rs.Corestore.Methods.name_storage hyperspace_rs.Corestore.Methods.open_path
    hyperspace_rs.Corestore.Methods.send_all hyperspace_rs.Corestore.Methods.write_at
    hyperspace_rs.Corestore.Methods.write_name_if_empty hyperspace_rs.Corestore.Methods.write_path
    hyperspace_rs.Corestore.Methods.write_unless Opening.build Opening.build_feed
    Opening.insert_feed Opening.open_storage Opening.publish FeedMap.add_name FeedMap.feed_of
    FeedMap.insert hyperspace_rs.Base.concat append_blocks Handlers.append_blocks Handlers.core_of
    Handlers.append_to Handlers.append_all Handlers.append_response open_from write append_chunk
runs = (refl, refl, refl)

empty-Kept : Kept {V = plain} {F = listed} {seeks = no_seek} 1 empty × IsOpen empty 0
empty-Kept =
    let shown =
      open_shown-shows {V = plain} listed (λ bytes. bytes) no_seek ℕ world [] unhex opts empty 0
        runs.0 in
    (shown.2, shown.3)

write-read_example :
    let (bytes, ended, _, _) =
      copy
        (Fault (Fault (IoError ℕ)))
        (get {R = served {V = plain} listed (λ bytes. bytes) no_seek} 0)
        read_stream
        ((true, 1) ∷ (false, 1) ∷ (true, 2) ∷ [])
        filled in
    (bytes ≡ 2 ∷ 3 ∷ 4 ∷ []) × (ended ≡ none)
unfolding concat
write-read_example =
    write-read {V = plain} {F = listed} {hex = λ bytes. bytes} {seeks = no_seek} listed_laws
      (λ feed i seq b store h. h) 0 ℕ 1 chunks ((true, 1) ∷ (false, 1) ∷ (true, 2) ∷ []) empty
      filled empty-Kept.0 empty-Kept.1 (λ feed leads. ap length runs.1) runs.2 (omega arith)
      (omega arith)

write-read_again_example :
    (later : Connected) × (open_from
        (served {V = plain} listed (λ bytes. bytes) no_seek)
        ℕ
        unhex
        none
        (some (5 ∷ []))
        (start {V = plain} listed
          (λ bytes. bytes)
          no_seek
          filled.remote.corestore
          filled.remote.store)
      ≡ (ok 0, later))
    × let (bytes, ended, _, _) =
        copy
          (Fault (Fault (IoError ℕ)))
          (get {R = served {V = plain} listed (λ bytes. bytes) no_seek} 0)
          read_stream
          ((true, 1) ∷ (false, 1) ∷ (true, 2) ∷ [])
          later in
      (bytes ≡ 2 ∷ 3 ∷ 4 ∷ []) × (ended ≡ none)
unfolding concat
write-read_again_example =
    write-read_again {V = plain} {F = listed} {hex = λ bytes. bytes} {seeks = no_seek} listed_laws
      (λ feed i seq b store h. h) ℕ unhex (5 ∷ []) chunks ((true, 1) ∷ (false, 1) ∷ (true, 2) ∷ [])
      world [] 0 empty filled new-IsValid (λ f w' e. refl) runs.0 runs.2 (omega arith) (omega arith)

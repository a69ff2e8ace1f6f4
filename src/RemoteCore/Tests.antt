-- ===== src/RemoteCore/Tests.antt =====
-- A client whose remote end counts the calls.
use hyperspace_rs.Base.{
  ℕ, suc, ◌+◌, ◌==◌, ◌≡◌, refl, arith, List, [], ◌∷◌, ◌++◌, map, Option, none, some, Bool, true,
  false, if◌then◌else◌, Bytes, bytes_discrete, Result, ok, err, get_elem?, u64_mod, tell_all,
  ℕ_discrete,
}
use hyperspace_rs.Base.Maps
use hyperspace_rs.FreeMap
use hyperspace_rs.FreeMap.Invariant.{new-IsValid}
use hyperspace_rs.RemoteCore.{Remote, Client}
use hyperspace_rs.RemoteCore.Methods.{on_append, on_download}
use hyperspace_rs.RemoteCore.Sessions.{new, open_by_key, open_by_name, append_event, download_event}
use hyperspace_rs.RemoteCore.Methods
use hyperspace_rs.RemoteCore.Sessions
use hyperspace_rs.RemoteCore.Once.{HasRoom, open_by_name-again}
use hyperspace_rs.RemoteCore.Linked.{IsLinked, open-IsLinked}

abbrev counted : Remote
counted = record {
  Error = ℕ;
  State = ℕ;
  open_feed = λ req n.
      (ok (record { key = req.id ∷ []; length = 2; byte_length = 5; writable = true }), n + 1);
  append = λ req n. (ok (record { length = 3; byte_length = 8 }), n + 1);
  get = λ req n. (ok (some (req.seq ∷ [])), n + 1);
  seek = λ req n. (ok (record { seq = req.byte_offset; block_offset = 0 }), n + 1);
  hex = λ bytes. bytes;
}

abbrev fresh : Client counted
fresh = new 0

fresh_HasRoom : HasRoom fresh
unfolding new FreeMap.new
fresh_HasRoom = (new-IsValid bytes_discrete, omega arith)

fresh_IsLinked : IsLinked fresh
unfolding new FreeMap.new FreeMap.get Maps.get
fresh_IsLinked id ref e = absurd (ground (arith, e))

abbrev named : Client counted
named = (open_by_name (5 ∷ []) fresh).1

named_ok : open_by_name (5 ∷ []) fresh ≡ (ok 0, named)
unfolding Sessions.open_or FreeMap.get_by_name Maps.get new FreeMap.new Sessions.add_core
    Methods.new_core Sessions.insert_session Methods.set_id Methods.open_core Methods.open_unless
    Methods.open_inner open_by_name Sessions.open_new_name Sessions.open_named Sessions.name_key
    Sessions.set_name Maps.insert hyperspace_rs.Base.add64 bytes_discrete FreeMap.insert
    FreeMap.insert_with_name FreeMap.set_name ℕ_discrete
named_ok = refl

open_by_name-again_example : open_by_name (5 ∷ []) named ≡ (ok 0, named)
open_by_name-again_example = open_by_name-again (5 ∷ []) fresh named 0 fresh_HasRoom named_ok

abbrev keyed : Client counted
keyed = (open_by_key (6 ∷ []) fresh).1

open-IsLinked_example :
    IsLinked (open_by_key (6 ∷ []) fresh).1 × IsLinked (open_by_name (5 ∷ []) fresh).1
open-IsLinked_example = open-IsLinked (6 ∷ []) (5 ∷ []) fresh fresh_HasRoom fresh_IsLinked

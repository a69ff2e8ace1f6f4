-- ===== src/EndToEnd.antt =====
-- The client of client/src/session.rs on the session of server/src/rpc/session.rs, as
-- server/src/rpc/mod.rs connects them. The messages between them are taken to arrive unchanged.
pub mod Opened
pub mod Served
pub mod Held
pub mod Fresh
pub mod Kept
pub mod Calls
pub mod Written
pub mod Notified
pub mod ByName
pub mod Shared
pub mod Sample
mod Tests
use hyperspace_rs.Base.{[], Bytes, Result, ok, err, Fault}
use hyperspace_rs.Corestore.{Env, World}
use hyperspace_rs.Session.{Feeds, IoError, Session}
use hyperspace_rs.Session
use hyperspace_rs.Session.Handlers.{open_core, append_blocks, get}
use hyperspace_rs.RemoteCore
use hyperspace_rs.RemoteCore.{Remote, SeekRequest, SeekResponse}

-- `Session::new`: a session with no feeds on the corestore of the server.
unfoldable pub new_session : {V : Env} {F : Feeds V} → World V → F.Store → Session V F
new_session corestore store = record {
  corestore = corestore;
  store = store;
  cores = [];
  tasks = [];
}

abbrev pub to_open : RemoteCore.OpenRequest → Session.OpenRequest
to_open req = record { id = req.id; key = req.key; name = req.name }

abbrev pub from_open :
    {E : Type 0} → Result E Session.OpenResponse → Result E RemoteCore.OpenResponse
from_open (ok res) = ok (record {
  key = res.key;
  length = res.length;
  byte_length = res.byte_length;
  writable = res.writable;
})
from_open (err e) = err e

abbrev pub from_append :
    {E : Type 0} → Result E Session.AppendResponse → Result E RemoteCore.AppendResponse
from_append (ok res) = ok (record { length = res.length; byte_length = res.byte_length })
from_append (err e) = err e

module _ {V : Env} (F : Feeds V) (hex : Bytes → Bytes) where
  -- The remote end of a client that is connected to a session. The session has no `seek`, which
  -- the generated code answers.
  abbrev pub served : (SeekRequest → Result (Fault (IoError V.Error)) SeekResponse) → Remote
  served seek = record {
    Error = Fault (IoError V.Error);
    State = Session V F;
    open_feed = λ req s. let (r, s') = open_core (to_open req) s in (from_open r, s');
    append = λ req s. let (r, s') = append_blocks req.id req.blocks s in (from_append r, s');
    get = λ req s. get req.id req.seq s;
    seek = λ req s. (seek req, s);
    hex = hex;
  }

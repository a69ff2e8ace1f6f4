-- ===== src/RemoteCore/Sessions.antt =====
-- The methods of `RemoteCorestore`, with the events that the remote end sends.
use hyperspace_rs.Base.{ℕ, [], Option, none, some, Bytes, ok, pure, ◌>>=◌, ◌>>◌, bytes_discrete}
use hyperspace_rs.FreeMap
use hyperspace_rs.RemoteCore.{Remote, Client, Method, InnerHypercore}
use hyperspace_rs.RemoteCore.Methods.{
  read, write, new_core, set_id, open_core, on_append, on_download,
}

module _ {R : Remote} where
  unfoldable pub new : R.State → Client R
  new remote = record { sessions = FreeMap.new; cores = []; resource_counter = 1; remote = remote }

  unfoldable pub insert_session : ℕ → Bytes → Method R ℕ
  insert_session ref name c =
      let (sessions, id) = FreeMap.insert_with_name bytes_discrete c.sessions ref name in
      (ok id, record c { sessions = sessions })

  unfoldable pub set_name : ℕ → Bytes → Method R (Unit {0})
  set_name id name c =
      (ok tt, record c { sessions = FreeMap.set_name bytes_discrete c.sessions id name })

  -- A new core, with its session under a name: its reference and its id.
  unfoldable pub add_core : Option Bytes → Option Bytes → Bytes → Method R (ℕ × ℕ)
  add_core key name session = do
    ref ← new_core key name
    id ← insert_session ref session
    set_id ref id
    pure (ref, id)

  -- The name of a session after the key that the remote end gave, if it gave one.
  unfoldable pub name_key : ℕ → Option Bytes → Method R (Unit {0})
  name_key id none c = (ok tt, c)
  name_key id (some key) c = set_name id (R.hex key) c

  unfoldable pub open_new_key : Bytes → Method R ℕ
  open_new_key key = do (ref, id) ← add_core (some key) none (R.hex key); open_core ref; pure ref

  -- The end of `open_by_name`, once the core has its session.
  unfoldable pub open_named : ℕ × ℕ → Method R ℕ
  open_named (ref, id) = do open_core ref; inner ← read ref; name_key id inner.key; pure ref

  unfoldable pub open_new_name : Bytes → Method R ℕ
  open_new_name name = add_core none (some name) name >>= open_named

  -- The core of a session, or that of a new one.
  unfoldable pub open_or : Option ℕ → Method R ℕ → Method R ℕ
  open_or (some ref) new c = (open_core ref >> pure ref) c
  open_or none new c = new c

  unfoldable pub open_by_key : Bytes → Method R ℕ
  open_by_key key c =
      open_or (FreeMap.get_by_name bytes_discrete c.sessions (R.hex key)) (open_new_key key) c

  unfoldable pub open_by_name : Bytes → Method R ℕ
  open_by_name name c =
      open_or (FreeMap.get_by_name bytes_discrete c.sessions name) (open_new_name name) c

  -- An event for a session that is not there is passed over.
  unfoldable pub to_session : Option ℕ → (InnerHypercore → InnerHypercore) → Method R (Unit {0})
  to_session none f c = (ok tt, c)
  to_session (some ref) f c = write ref f c

  unfoldable pub append_event : ℕ → ℕ → ℕ → Method R (Unit {0})
  append_event id length byte_length c =
      to_session (FreeMap.get c.sessions id) (on_append length byte_length) c

  unfoldable pub download_event : ℕ → ℕ → Option ℕ → Method R (Unit {0})
  download_event id seq byte_length c =
      to_session (FreeMap.get c.sessions id) (on_download seq byte_length) c

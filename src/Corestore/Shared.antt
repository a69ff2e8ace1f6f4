-- ===== src/Corestore/Shared.antt =====
-- `Corestore`: the methods of the inner corestore under its lock. Each call holds the lock from its
-- start to its end, so what tasks do with the shared corestore is a sequence of calls.
use hyperspace_rs.Base.{
  ◌≡◌, refl, ap, sym, subst, ◌∙◌, List, [], ◌∷◌, ℕ, Option, none, some, Bytes, Result, ok, err,
  Fault, pure, gets, ◌>>=◌, continue, Preserves, >>=-Preserves, continue-Preserves,
}
use hyperspace_rs.Base
use hyperspace_rs.Corestore.{FilePath, Env, InnerCorestore, World, Bare, Method}
use hyperspace_rs.Corestore.Methods
use hyperspace_rs.Corestore.Methods.{open_store, empty_store, feed_storage, key_file}
use hyperspace_rs.Corestore.Opening
use hyperspace_rs.Corestore.Opening.{found_dkey, get_from_disk, feed_of_key}

module _ {V : Env} where
  open V use {Feed}

  -- The new corestore behind its lock, with its world.
  abbrev pub share :
      Result (Fault V.Error) (InnerCorestore V) × Bare V → Result (Fault V.Error) (World V) × Bare V
  share (ok store, b) = (ok (record { store = store; disk = b.disk; drawn = b.drawn }), b)
  share (err e, b) = (err e, b)

  -- `Corestore::open`
  unfoldable pub open_shared : FilePath → Base.Action (Bare V) V.Error (World V)
  open_shared path b = share (open_store path b)

  unfoldable pub subscribe : Method V ℕ
  subscribe w = Methods.subscribe w

  unfoldable pub get_by_key : Bytes → Method V Feed
  get_by_key key w = Opening.get_by_key key w

  unfoldable pub get_by_name : Bytes → Method V Feed
  get_by_name name w = Opening.get_by_name name w

  unfoldable pub get_by_dkey : Bytes → Method V (Option Feed)
  get_by_dkey dkey w = Opening.get_by_dkey dkey w

  -- `feeds` and `FeedsIterator`: the feeds that are there while the lock is held.
  unfoldable pub feeds : Method V (List Feed)
  feeds w = Methods.feeds w

-- A call of a task.
pub data Call : Type 0 where
  subscribes : Call
  by_key by_name by_dkey : Bytes → Call
  lists : Call

module _ {V : Env} where
  -- The corestore after a call, whether it has succeeded or not.
  unfoldable pub after_call : Call → World V → World V
  after_call subscribes w = (subscribe w).1
  after_call (by_key key) w = (get_by_key key w).1
  after_call (by_name name) w = (get_by_name name w).1
  after_call (by_dkey dkey) w = (get_by_dkey dkey w).1
  after_call lists w = (feeds w).1

  unfoldable pub after_calls : List Call → World V → World V
  after_calls [] w = w
  after_calls (call ∷ calls) w = after_calls calls (after_call call w)

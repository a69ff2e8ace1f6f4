-- ===== src/RemoteCore/Methods.antt =====
-- The methods of `RemoteHypercore` and `InnerHypercore`.
use mathlib.Core.Option
use hyperspace_rs.Base.{
  ℕ, zero, suc, ◌%◌, ◌^◌, leb, add64, List, [], ◌∷◌, ◌++◌, Option, some, Bool, true, false,
  if◌then◌else◌, Bytes, Result, ok, lift_fault, unwrap, pure, ◌>>=◌, length, get_elem?, tell_all,
  Subscriber,
}
use hyperspace_rs.RemoteCore.{
  Remote, Method, InnerHypercore, HypercoreEvent, append, download, OpenResponse, default_core,
}

-- The list with its `i`-th entry changed.
abbrev pub update_at {ℓ} : {A : Type ℓ} → ℕ → (A → A) → List A → List A
update_at i f [] = []
update_at zero f (x ∷ xs) = f x ∷ xs
update_at (suc i) f (x ∷ xs) = x ∷ update_at i f xs

-- `as u32`
abbrev pub as_u32 : ℕ → ℕ
as_u32 n = n % 2 ^ 32

unfoldable pub emit : HypercoreEvent → InnerHypercore → InnerHypercore
emit event inner = record inner { listeners = tell_all event inner.listeners }

-- `InnerHypercore::subscribe`: the new listener's place stands for the receiver.
unfoldable pub subscribe : InnerHypercore → InnerHypercore × ℕ
subscribe inner =
    let new : Subscriber HypercoreEvent = record { connected = true; events = [] } in
    (record inner { listeners = inner.listeners ++ new ∷ [] }, length inner.listeners)

unfoldable pub on_append : ℕ → ℕ → InnerHypercore → InnerHypercore
on_append length byte_length inner =
    emit append (record inner { length = length; byte_length = byte_length })

unfoldable pub on_download : ℕ → Option ℕ → InnerHypercore → InnerHypercore
on_download seq byte_length inner =
    let bytes = Option.get_or byte_length inner.byte_length in
    let len = if leb inner.length seq then add64 seq 1 else inner.length in
    emit (download seq) (record inner { byte_length = bytes; length = len })

-- What an opened core knows.
abbrev pub opened : OpenResponse → InnerHypercore → InnerHypercore
opened res inner = record inner {
  key = some res.key;
  is_open = true;
  length = res.length;
  byte_length = res.byte_length;
  writable = res.writable;
}

module _ {R : Remote} where
  -- A change of one core, under its lock.
  abbrev pub write : ℕ → (InnerHypercore → InnerHypercore) → Method R (Unit {0})
  write ref f c = (ok tt, record c { cores = update_at ref f c.cores })

  -- A reading of one core: a reference always leads to one.
  abbrev pub read : ℕ → Method R InnerHypercore
  read ref c = unwrap (get_elem? c.cores ref) c

  -- A call of the remote end.
  abbrev pub call : {A : Type 0} → (R.State → Result R.Error A × R.State) → Method R A
  call f c = let (r, remote) = f c.remote in (lift_fault r, record c { remote = remote })

  -- `RemoteHypercore::new`
  unfoldable pub new_core : Option Bytes → Option Bytes → Method R ℕ
  new_core key name c =
      (ok (length c.cores), record c { cores = c.cores ++ default_core key name ∷ [] })

  unfoldable pub set_id : ℕ → ℕ → Method R (Unit {0})
  set_id ref id = write ref (λ inner. record inner { id = id })

  unfoldable pub open_inner : ℕ → InnerHypercore → Method R (Unit {0})
  open_inner ref inner = do
    res ← call (R.open_feed (record { id = as_u32 inner.id; key = inner.key; name = inner.name }))
    write ref (opened res)

  -- `open`: only a core that is not open calls the remote end.
  unfoldable pub open_unless : ℕ → InnerHypercore → Bool → Method R (Unit {0})
  open_unless ref inner true c = (ok tt, c)
  open_unless ref inner false c = open_inner ref inner c

  unfoldable pub open_core : ℕ → Method R (Unit {0})
  open_core ref = do inner ← read ref; open_unless ref inner inner.is_open

  unfoldable pub append_blocks : ℕ → List Bytes → Method R (Unit {0})
  append_blocks ref blocks = do
    inner ← read ref
    res ← call (R.append (record { id = as_u32 inner.id; blocks = blocks }))
    write ref (λ i. record i { length = res.length; byte_length = res.byte_length })

  -- `fetch_add`
  unfoldable pub fetch_add : Method R ℕ
  fetch_add c = (ok c.resource_counter, record c { resource_counter = add64 c.resource_counter 1 })

  unfoldable pub get : ℕ → ℕ → Method R (Option Bytes)
  get ref seq = do
    inner ← read ref
    resource_id ← fetch_add
    call (R.get (record { id = as_u32 inner.id; seq = seq; resource_id = resource_id }))

  unfoldable pub seek : ℕ → ℕ → Method R (ℕ × ℕ)
  seek ref byte_offset = do
    inner ← read ref
    res ← call (R.seek (record { id = as_u32 inner.id; byte_offset = byte_offset }))
    pure (res.seq, res.block_offset)

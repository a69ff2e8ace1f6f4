-- ===== src/EndToEnd/Kept.antt =====
-- Each call of a client, and what ties its cores to the feeds of its session.
use hyperspace_rs.Base.{
  ℕ, ◌+◌, ◌<◌, ◌≡◌, ◌^◌, refl, sym, List, Option, none, some, Bytes, Result, Fault, get_elem?,
  subst, pure, ◌>>=◌, Preserves, >>=-Preserves, unwrap-Preserves,
}
use hyperspace_rs.Corestore.{Env}
use hyperspace_rs.Session.{Feeds, IoError, Session}
use hyperspace_rs.Session.Handlers
use hyperspace_rs.RemoteCore.{
  Client, Method, InnerHypercore, SeekRequest, SeekResponse, Remote, AppendRequest, AppendResponse,
}
use hyperspace_rs.RemoteCore.Methods.{
  as_u32, read, write, call, append_blocks, fetch_add, get, seek,
}
use hyperspace_rs.RemoteCore.Sessions.{
  open_by_key, open_by_name, to_session, open_new_key, open_new_name,
}
use hyperspace_rs.RemoteCore.Linked.{write-IsLinked}
use hyperspace_rs.EndToEnd.{served}
use hyperspace_rs.EndToEnd.Opened.{append_blocks-cores, get-cores}
use hyperspace_rs.EndToEnd.Served.{AllRead, AllRead-update_at}
use hyperspace_rs.EndToEnd.Held.{IsServed, open_or-IsServed}
use hyperspace_rs.EndToEnd.Fresh.{open_new_name-IsServed, open_new_key-IsServed, grown}

module _ {V : Env} {F : Feeds V} {hex : Bytes → Bytes}
    {seeks : SeekRequest → Result (Fault (IoError V.Error)) SeekResponse} where
  abbrev pub Kept : ℕ → Client (served F hex seeks) → Type 0
  Kept k c = IsServed {V = V} {F = F} {hex = hex} {seek = seeks} k c

  -- Opening a core by key or by name, whether it succeeds or not, keeps the client and its session
  -- together, with one more entry at most, as long as a u32 holds the ids: every core of the
  -- client that is open has an id under which the session has a feed, and that feed has the
  -- core's key.
  pub open-IsServed :
      (key name : Bytes) (k : ℕ) (c : Client (served F hex seeks))
      → k + 1 < 2 ^ 32
      → IsServed k c
      → IsServed (k + 1) (open_by_key key c).1 × IsServed (k + 1) (open_by_name name c).1
  unfolding open_by_key open_by_name
  open-IsServed key name k c room h = (
    open_or-IsServed (k + 1) room (hex key) _ (open_new_key key) c refl
        (open_new_key-IsServed (k + 1) room key k c refl h) (grown (k + 1) room k c refl h),
    open_or-IsServed (k + 1) room name _ (open_new_name name) c refl
        (open_new_name-IsServed (k + 1) room name k c refl h) (grown (k + 1) room k c refl h),
  )

  write-IsServed :
      (k ref : ℕ) (f : InnerHypercore → InnerHypercore) (c : Client (served F hex seeks))
      → ((inner : InnerHypercore)
          → ((f inner).id ≡ inner.id)
            × ((f inner).key ≡ inner.key)
            × ((f inner).is_open ≡ inner.is_open))
      → IsServed k c
      → IsServed k (write ref f c).1
  write-IsServed k ref f c same h = record {
    valid = h.valid;
    linked = write-IsLinked ref f c (λ i. (same i).0) h.linked;
    reads = AllRead-update_at V ref f c.sessions c.remote.cores c.cores same h.reads;
    size = h.size;
  }

  -- A call of the session that leaves its ids alone.
  pub remote-IsServed :
      (k : ℕ) (c : Client (served F hex seeks)) (s : Session V F)
      → s.cores ≡ c.remote.cores
      → Kept k c
      → Kept k (record c { remote = s })
  remote-IsServed k c s same h = record {
    valid = h.valid;
    linked = λ i r e. h.linked i r e;
    reads = subst (λ feeds. AllRead V c.sessions feeds c.cores) (sym same) h.reads;
    size = h.size;
  }

  read-Keeps : (k ref : ℕ) → Preserves (Kept k) (read ref)
  read-Keeps k ref c = unwrap-Preserves (Fault (IoError V.Error)) (Kept k) (get_elem? c.cores ref) c

  pub append_blocks-Keeps :
      (k ref : ℕ) (blocks : List Bytes) → Preserves (Kept k) (append_blocks ref blocks)
  unfolding append_blocks
  append_blocks-Keeps k ref blocks =
      >>=-Preserves P (read ref)
        (λ inner. call (R.append (request inner)) >>= λ res. write ref (longer res))
        (read-Keeps k ref)
        (λ inner.
          >>=-Preserves P (call (R.append (request inner))) (λ res. write ref (longer res))
            (λ c h.
              remote-IsServed k c (Handlers.append_blocks (as_u32 inner.id) blocks c.remote).1
                (append_blocks-cores (as_u32 inner.id) blocks c.remote) h)
            (λ res c h. write-IsServed k ref (longer res) c (λ i. (refl, refl, refl)) h))
    where
      R : Remote
      R = served F hex seeks

      P : Client (served F hex seeks) → Type 0
      P = Kept k

      request : InnerHypercore → AppendRequest
      request inner = record { id = as_u32 inner.id; blocks = blocks }

      longer : AppendResponse → InnerHypercore → InnerHypercore
      longer res i = record i { length = res.length; byte_length = res.byte_length }

  pub get-Keeps : (k ref seq : ℕ) → Preserves (Kept k) (get ref seq)
  unfolding get fetch_add
  get-Keeps k ref seq =
      >>=-Preserves P (read ref) (λ inner. fetch_add >>= asked inner) (read-Keeps k ref)
        (λ inner.
          >>=-Preserves P fetch_add (asked inner)
            (λ c h. record {
              valid = h.valid;
              linked = λ i r e. h.linked i r e;
              reads = λ r i e o. h.reads r i e o;
              size = h.size;
            })
            (λ n c h.
              remote-IsServed k c (Handlers.get (as_u32 inner.id) seq c.remote).1
                (get-cores (as_u32 inner.id) seq c.remote) h))
    where
      P : Client (served F hex seeks) → Type 0
      P = Kept k

      asked : InnerHypercore → ℕ → Method (served F hex seeks) (Option Bytes)
      asked inner resource_id = call (
          Remote.get (served F hex seeks)
            (record { id = as_u32 inner.id; seq = seq; resource_id = resource_id }))

  pub seek-Keeps : (k ref offset : ℕ) → Preserves (Kept k) (seek ref offset)
  unfolding seek
  seek-Keeps k ref offset =
      >>=-Preserves P (read ref) (λ inner. asked inner >>= λ res. pure (res.seq, res.block_offset))
        (read-Keeps k ref)
        (λ inner.
          >>=-Preserves P (asked inner) (λ res. pure (res.seq, res.block_offset))
            (λ c h. remote-IsServed k c c.remote refl h) (λ res c h. h))
    where
      P : Client (served F hex seeks) → Type 0
      P = Kept k

      asked : InnerHypercore → Method (served F hex seeks) SeekResponse
      asked inner =
          call (
            Remote.seek (served F hex seeks)
              (record { id = as_u32 inner.id; byte_offset = offset }))

  pub to_session-Keeps :
      (k : ℕ) (o : Option ℕ) (f : InnerHypercore → InnerHypercore)
      → ((inner : InnerHypercore)
          → ((f inner).id ≡ inner.id)
            × ((f inner).key ≡ inner.key)
            × ((f inner).is_open ≡ inner.is_open))
      → Preserves (Kept k) (to_session o f)
  unfolding to_session
  to_session-Keeps k none f same c h = h
  to_session-Keeps k (some ref) f same c h = write-IsServed k ref f c same h

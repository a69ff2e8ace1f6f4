-- ===== src/EndToEnd/Written.antt =====
-- An `append` of a client, and a `get` after it.
use hyperspace_rs.Base.Maps
use hyperspace_rs.Base.{
  ℕ, zero, suc, ◌+◌, ◌<◌, ◌≡◌, refl, ap, ap₂, sym, ◌∙◌, List, [], ◌∷◌, some, Bytes, Result, ok, err,
  Fault, get_elem?, arith, ℕ_discrete, >>=-ok, >>=-inv, ok-injective, ◌>>=◌, lift_fault, add64,
}
use hyperspace_rs.Corestore.{Env}
use hyperspace_rs.Session.{Feeds, IoError, Session}
use hyperspace_rs.Session
use hyperspace_rs.Session.Handlers
use hyperspace_rs.Session.Handlers.{
  core_of, or_bad_id, on_store, append_all, append_to, append_response, map_err,
}
use hyperspace_rs.Session.Appending.{Lengthens, map_err-ok, core_of-ok}
use hyperspace_rs.RemoteCore.{
  Remote, Client, InnerHypercore, SeekRequest, SeekResponse, AppendResponse,
}
use hyperspace_rs.RemoteCore.Methods.{as_u32, read, write, call, append_blocks, fetch_add, get}
use hyperspace_rs.RemoteCore.Cores.{read-ok, read-eq, get_elem?-update_at}
use hyperspace_rs.EndToEnd.{served, from_append}
use hyperspace_rs.EndToEnd.Opened.{append_all-Holds}

-- A feed keeps its blocks: an append that succeeds makes it longer by one, gives the block at its
-- old length, and leaves the blocks below as they were.
pub record FeedLaws {V : Env} (F : Feeds V) : Type 0 where
  pub lengthens : Lengthens F
  pub appended :
      (feed : V.api.Feed) (block : Bytes) (store : F.Store)
      → (F.append feed block store).0 ≡ ok tt
      → (F.get feed (F.len feed store) (F.append feed block store).1).0 ≡ ok (some block)
  pub kept :
      (feed : V.api.Feed) (block : Bytes) (store : F.Store) (seq : ℕ)
      → (F.append feed block store).0 ≡ ok tt
      → seq < F.len feed store
      → (F.get feed seq (F.append feed block store).1).0 ≡ (F.get feed seq store).0

module _ {V : Env} {F : Feeds V} (laws : FeedLaws F) where
  pub append_all-kept :
      (feed : V.api.Feed) (blocks : List Bytes) (s s' : Session V F) (seq : ℕ)
      → append_all feed blocks s ≡ (ok tt, s')
      → seq < F.len feed s.store
      → (F.get feed seq s'.store).0 ≡ (F.get feed seq s.store).0
  unfolding append_all
  append_all-kept feed [] s s' seq e low = ap (λ x. (F.get feed seq x.1.store).0) (sym e)
  append_all-kept feed (block ∷ blocks) s s' seq e low =
      let (_, t, p, q) = >>=-inv (on_store (F.append feed block)) (λ _. append_all feed blocks) e in
      let one = map_err-ok (F.append feed block s.store).0 (ap (λ x. x.0) p) in
      let moved = ap (λ x. x.1.store) p in
      let longer = laws.lengthens feed block s.store one in
      append_all-kept feed blocks t s' seq q (omega (arith, longer, ap (F.len feed) moved, low))
      ∙ ap (λ x. (F.get feed seq x).0) (sym moved)
      ∙ laws.kept feed block s.store seq one low

  pub append_all-reads :
      (feed : V.api.Feed) (blocks : List Bytes) (s s' : Session V F) (i : ℕ) (b : Bytes)
      → append_all feed blocks s ≡ (ok tt, s')
      → get_elem? blocks i ≡ some b
      → (F.get feed (F.len feed s.store + i) s'.store).0 ≡ ok (some b)
  unfolding append_all
  append_all-reads feed [] s s' i b e at = absurd (ground (arith, at))
  append_all-reads feed (block ∷ blocks) s s' zero b e at =
      let (_, t, p, q) = >>=-inv (on_store (F.append feed block)) (λ _. append_all feed blocks) e in
      let one = map_err-ok (F.append feed block s.store).0 (ap (λ x. x.0) p) in
      let moved = ap (λ x. x.1.store) p in
      let longer = laws.lengthens feed block s.store one in
      ap (λ n. (F.get feed n s'.store).0) (omega arith)
      ∙ append_all-kept feed blocks t s' (F.len feed s.store) q
          (omega (arith, longer, ap (F.len feed) moved))
      ∙ ap (λ x. (F.get feed (F.len feed s.store) x).0) (sym moved)
      ∙ laws.appended feed block s.store one
      ∙ ground (arith, at)
  append_all-reads feed (block ∷ blocks) s s' (suc i) b e at =
      let (_, t, p, q) = >>=-inv (on_store (F.append feed block)) (λ _. append_all feed blocks) e in
      let one = map_err-ok (F.append feed block s.store).0 (ap (λ x. x.0) p) in
      let moved = ap (λ x. x.1.store) p in
      let longer = laws.lengthens feed block s.store one in
      ap (λ n. (F.get feed n s'.store).0) (omega (arith, longer, ap (F.len feed) moved))
      ∙ append_all-reads feed blocks t s' i b q at

from_append-ok :
    {E : Type 0} (r : Result E Session.AppendResponse) {res : AppendResponse}
    → lift_fault (from_append r) ≡ ok res
    → (given : Session.AppendResponse) × (r ≡ ok given) × (given.length ≡ res.length)
from_append-ok (ok given) e = (given, refl, ap (λ x. x.length) (ok-injective e))
from_append-ok (err x) e = absurd (ground (arith, e))

module _ {V : Env} {F : Feeds V} where
  -- What the handler has done when it succeeds.
  append_blocks-served :
      (id : ℕ) (blocks : List Bytes) (s s' : Session V F) (res : Session.AppendResponse)
      → Handlers.append_blocks id blocks s ≡ (ok res, s')
      → (feed : V.api.Feed) × (Maps.get ℕ_discrete id s.cores ≡ some feed)
        × (append_all feed blocks s ≡ (ok tt, s'))
        × (res.length ≡ F.len feed s'.store)
  unfolding Handlers.append_blocks append_to append_response
  append_blocks-served id blocks s s' res e =
      let (feed, t, p, q) = >>=-inv (core_of id) (append_to blocks) e in
      let (held, same) = core_of-ok id s t feed p in
      let (_, u, p', q') = >>=-inv (append_all feed blocks) (λ _. append_response feed) q in
      let last = ap (λ x. x.1) q' in
      (
        feed,
        held,
        ap (append_all feed blocks) same ∙ p' ∙ ap (λ x. (ok tt, x)) last,
        ap (λ x. x.length) (sym (ok-injective (ap (λ x. x.0) q')))
            ∙ ap (λ x. F.len feed x.store) last,
      )

module _ {V : Env} {F : Feeds V} {hex : Bytes → Bytes}
    {seeks : SeekRequest → Result (Fault (IoError V.Error)) SeekResponse} where
  -- The core at the reference, whose id leads to the feed in the session.
  abbrev pub Leads : Client (served F hex seeks) → ℕ → V.api.Feed → Type 0
  Leads c ref feed =
      (inner : InnerHypercore) × (get_elem? c.cores ref ≡ some inner)
      × (Maps.get ℕ_discrete (as_u32 inner.id) c.remote.cores ≡ some feed)

  -- What an `append` of a client has done when it succeeds.
  pub append_blocks-runs :
      (ref : ℕ) (blocks : List Bytes) (c c' : Client (served F hex seeks))
      → append_blocks ref blocks c ≡ (ok tt, c')
      → (feed : V.api.Feed) × (inner : InnerHypercore) × Leads c ref feed
        × (append_all feed blocks c.remote ≡ (ok tt, c'.remote))
        × (get_elem? c'.cores ref ≡ some inner)
        × (Maps.get ℕ_discrete (as_u32 inner.id) c'.remote.cores ≡ some feed)
        × (inner.length ≡ F.len feed c'.remote.store)
  unfolding append_blocks
  append_blocks-runs ref blocks c c' e =
      let (inner, t, p, q) =
        >>=-inv (read ref) (λ i. call (asked i) >>= λ res. write ref (longer res)) e in
      let (at, same) = read-ok ref c t inner p in
      let (res, u, p', q') = >>=-inv (call (asked inner)) (λ res. write ref (longer res)) q in
      let (given, answered, long) =
        from_append-ok (Handlers.append_blocks (as_u32 inner.id) blocks t.remote).0
          (ap (λ x. x.0) p') in
      let same_remote = ap (λ x. x.1.remote) p' ∙ ap (λ x. x.1.remote) q' in
      let (feed, held, run, size) =
        append_blocks-served (as_u32 inner.id) blocks t.remote c'.remote given
          (ap₂ (λ r m. (r, m)) answered same_remote) in
      let held' =
        ap (λ x. Maps.get ℕ_discrete (as_u32 inner.id) x.remote.cores) (sym same) ∙ held in
      (
        feed,
        longer res inner,
        (inner, at, held'),
        ap (λ x. append_all feed blocks x.remote) (sym same) ∙ run,
        ap (λ x. get_elem? x.1.cores ref) (sym q')
            ∙ get_elem?-update_at ref (longer res) u.cores (
                ap (λ x. get_elem? x.1.cores ref) (sym p')
                ∙ ap (λ x. get_elem? x.cores ref) same
                ∙ at),
        ap (λ x. Maps.get ℕ_discrete (as_u32 inner.id) x.1.cores) (sym run)
            ∙ ap (Maps.get ℕ_discrete (as_u32 inner.id))
                (append_all-Holds t.remote.cores feed blocks t.remote refl)
            ∙ held,
        sym long ∙ size,
      )
    where
      longer : AppendResponse → InnerHypercore → InnerHypercore
      longer res i = record i { length = res.length; byte_length = res.byte_length }

      asked :
          InnerHypercore
          → Session V F
          → Result (Fault (IoError V.Error)) AppendResponse × Session V F
      asked i = Remote.append (served F hex seeks) (record { id = as_u32 i.id; blocks = blocks })

  -- A `get` of a client, with what it leaves.
  pub get-runs :
      (ref seq : ℕ) (c : Client (served F hex seeks)) (feed : V.api.Feed) (inner : InnerHypercore)
      → get_elem? c.cores ref ≡ some inner
      → Maps.get ℕ_discrete (as_u32 inner.id) c.remote.cores ≡ some feed
      → get ref seq c ≡ (
        lift_fault (map_err (F.get feed seq c.remote.store).0),
        record c {
          resource_counter = add64 c.resource_counter 1;
          remote = record c.remote { store = (F.get feed seq c.remote.store).1 };
        },
      )
  unfolding get fetch_add Handlers.get core_of
  get-runs ref seq c feed inner at held =
      >>=-ok (read ref)
        (λ i. fetch_add >>= λ resource_id. call (
          Remote.get (served F hex seeks)
            (record { id = as_u32 i.id; seq = seq; resource_id = resource_id })))
        (read-eq ref c at)
      ∙ ap
          (λ x. (
            lift_fault x.0,
            record c { resource_counter = add64 c.resource_counter 1; remote = x.1 },
          ))
          (>>=-ok (core_of (as_u32 inner.id)) (λ f. on_store (F.get f seq))
            (ap (λ o. or_bad_id o c.remote) held))

  -- What the feed gives, the client gets.
  pub get-Leads :
      (ref seq : ℕ) (c : Client (served F hex seeks)) (feed : V.api.Feed) (b : Bytes)
      → Leads c ref feed
      → (F.get feed seq c.remote.store).0 ≡ ok (some b)
      → (get ref seq c).0 ≡ ok (some b)
  get-Leads ref seq c feed b (inner, at, held) gives =
      ap (λ x. x.0) (get-runs ref seq c feed inner at held) ∙ ap (λ r. lift_fault (map_err r)) gives

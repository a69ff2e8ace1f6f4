-- ===== src/EndToEnd/Held.antt =====
-- What opening a core does to the cores of a client and the feeds of its session.
use hyperspace_rs.Base.Maps
use hyperspace_rs.Base.{
  ℕ, zero, suc, ◌<◌, ◌≤◌, ◌≡◌, ◌^◌, refl, ap, sym, ◌∙◌, Option, none, some, Bool, true, false,
  Bytes, Result, ok, err, Fault, length, get_elem?, arith, Option-cases, inl, inr, bytes_discrete,
  subst, continue, pure, ◌>>=◌, ◌>>◌, >>=-ok, Preserves, >>=-Preserves, unwrap-Preserves,
  lift_fault,
}
use hyperspace_rs.FreeMap
use hyperspace_rs.FreeMap.Invariant.{IsValid, set_name-IsValid}
use hyperspace_rs.Corestore.{Env}
use hyperspace_rs.Session.{Feeds, IoError, Session}
use hyperspace_rs.Session
use hyperspace_rs.Session.Handlers
use hyperspace_rs.RemoteCore
use hyperspace_rs.RemoteCore.{
  Remote, Client, Method, InnerHypercore, OpenRequest, SeekRequest, SeekResponse, default_core,
}
use hyperspace_rs.RemoteCore.Methods.{
  as_u32, update_at, read, write, open_core, open_unless, open_inner, opened,
}
use hyperspace_rs.RemoteCore.Sessions.{set_name, name_key, open_named, open_or}
use hyperspace_rs.RemoteCore.Cores.{read-eq}
use hyperspace_rs.RemoteCore.Linked.{IsLinked, write-IsLinked}
use hyperspace_rs.EndToEnd.{served, to_open, from_open}
use hyperspace_rs.EndToEnd.Opened.{Answered, open_core-Answered}
use hyperspace_rs.EndToEnd.Served.{AllRead, AllRead-opened}

-- The ids of a valid map.
pub held_range :
    {m : FreeMap.InnerMap Bytes ℕ} (valid : IsValid bytes_discrete m) (i ref : ℕ)
    → FreeMap.get m i ≡ some ref
    → (1 ≤ i) × (i ≤ length m.map)
unfolding FreeMap.get
held_range valid zero ref e = absurd (ground (arith, e, valid.dense.positive))
held_range valid (suc i) ref e = (omega arith, ground (arith, e, valid.dense.fresh (suc i)))

held_id :
    (m : FreeMap.InnerMap Bytes ℕ) (name : Bytes) (ref : ℕ)
    → FreeMap.get_by_name bytes_discrete m name ≡ some ref
    → (id : ℕ) × (FreeMap.get m id ≡ some ref)
unfolding FreeMap.get_by_name FreeMap.get
held_id m name ref e = elim (Option-cases (Maps.get bytes_discrete name m.name_id)) [
  | inl h ↦ absurd (ground (arith, e, h))
  | inr (id, h) ↦ (id, ground (arith, e, h))
]

module _ {V : Env} {F : Feeds V} {hex : Bytes → Bytes}
    {seek : SeekRequest → Result (Fault (IoError V.Error)) SeekResponse} where
  -- A client and its session: the sessions are a valid map of at most `n` entries, their cores know
  -- their ids, and every open core reads the feed of its key.
  pub record IsServed (n : ℕ) (c : Client (served F hex seek)) : Type 0 where
    pub valid : IsValid bytes_discrete c.sessions
    pub linked : IsLinked c
    pub reads : AllRead V c.sessions c.remote.cores c.cores
    pub size : length c.sessions.map ≤ n

  -- With a session whose core is at the reference.
  abbrev pub Held : ℕ → ℕ → ℕ → Client (served F hex seek) → Type 0
  Held n id ref c = IsServed n c × (FreeMap.get c.sessions id ≡ some ref)

  module _ (n : ℕ) (room : n < 2 ^ 32) where
    open_inner-Held :
        (id ref : ℕ) (inner : InnerHypercore) (c : Client (served F hex seek))
        → get_elem? c.cores ref ≡ some inner
        → inner.id ≡ id
        → Held n id ref c
        → Held n id ref (open_inner ref inner c).1
    unfolding open_inner
    open_inner-Held id ref inner c at known (h, held) =
        answered (Handlers.open_core (to_open request) c.remote)
          (open_core-Answered (to_open request) c.remote)
      where
        request : OpenRequest
        request = record { id = as_u32 inner.id; key = inner.key; name = inner.name }

        answered :
            (x : Result (Fault (IoError V.Error)) Session.OpenResponse × Session V F)
            → Answered (to_open request) c.remote.cores x.0 x.1
            → Held n id ref
                (continue
                  (λ res. write ref (opened res))
                  (lift_fault (from_open x.0), record c { remote = x.1 })).1
        answered (ok res, s) (feed, key, cores) =
            let given : RemoteCore.OpenResponse = record {
              key = res.key;
              length = res.length;
              byte_length = res.byte_length;
              writable = res.writable;
            } in
            (
              record {
                valid = h.valid;
                linked = write-IsLinked ref (opened given) c (λ i. refl) h.linked;
                reads =
                    subst
                      (λ feeds. AllRead V c.sessions feeds (update_at ref (opened given) c.cores))
                      (sym cores)
                      (AllRead-opened V ref inner.id (opened given) feed c.sessions c.remote.cores
                        c.cores (λ i r e. omega (arith, held_range h.valid i r e, h.size))
                        (ap (FreeMap.get c.sessions) known ∙ held)
                        (λ other e. ground (arith, sym e ∙ at)) (λ i. (refl, ap some key)) h.reads);
                size = h.size;
              },
              held,
            )
        answered (err e, s) same = (
          record {
            valid = h.valid;
            linked = λ i r e'. h.linked i r e';
            reads = subst (λ feeds. AllRead V c.sessions feeds c.cores) (sym same) h.reads;
            size = h.size;
          },
          held,
        )

    open_unless-Held :
        (id ref : ℕ) (inner : InnerHypercore) (b : Bool) (c : Client (served F hex seek))
        → get_elem? c.cores ref ≡ some inner
        → inner.id ≡ id
        → Held n id ref c
        → Held n id ref (open_unless ref inner b c).1
    unfolding open_unless
    open_unless-Held id ref inner true c at known h = h
    open_unless-Held id ref inner false c at known h = open_inner-Held id ref inner c at known h

    open_core-Held : (id ref : ℕ) → Preserves (Held n id ref) (open_core ref)
    unfolding open_core
    open_core-Held id ref c (h, held) =
        let (inner, at, known) = h.linked id ref held in
        subst (λ x. Held n id ref x.1)
          (sym (>>=-ok (read ref) (λ i. open_unless ref i i.is_open) (read-eq ref c at)))
          (open_unless-Held id ref inner inner.is_open c at known (h, held))

    name_key-Held : (id ref : ℕ) (key : Option Bytes) → Preserves (Held n id ref) (name_key id key)
    unfolding name_key set_name FreeMap.set_name FreeMap.get
    name_key-Held id ref none c h = h
    name_key-Held id ref (some key) c (h, held) =
        let (low, high) = held_range h.valid id ref held in
        (
          record {
            valid = set_name-IsValid bytes_discrete h.valid id (hex key) low high;
            linked = λ i r e. h.linked i r e;
            reads = λ r inner e o. h.reads r inner e o;
            size = h.size;
          },
          held,
        )

    pub open_named-Held : (id ref : ℕ) → Preserves (Held n id ref) (open_named (ref, id))
    unfolding open_named
    open_named-Held id ref =
        >>=-Preserves (Held n id ref) (open_core ref)
          (λ _. read ref >>= λ inner. name_key id inner.key >> pure ref) (open_core-Held id ref)
          (λ _.
            >>=-Preserves (Held n id ref) (read ref) (λ inner. name_key id inner.key >> pure ref)
              (λ c.
                unwrap-Preserves (Fault (IoError V.Error)) (Held n id ref) (get_elem? c.cores ref)
                  c)
              (λ inner.
                >>=-Preserves (Held n id ref) (name_key id inner.key) (λ _. pure ref)
                  (name_key-Held id ref inner.key) (λ _ c h. h)))

    pub open_known-Held : (id ref : ℕ) → Preserves (Held n id ref) (open_core ref >> pure ref)
    open_known-Held id ref =
        >>=-Preserves (Held n id ref) (open_core ref) (λ _. pure ref) (open_core-Held id ref)
          (λ _ c h. h)

    pub open_or-IsServed :
        (name : Bytes) (o : Option ℕ) (new : Method (served F hex seek) ℕ)
        (c : Client (served F hex seek))
        → FreeMap.get_by_name bytes_discrete c.sessions name ≡ o
        → IsServed n (new c).1
        → IsServed n c
        → IsServed n (open_or o new c).1
    unfolding open_or
    open_or-IsServed name none new c at fresh h = fresh
    open_or-IsServed name (some ref) new c at fresh h =
        let (id, held) = held_id c.sessions name ref at in (open_known-Held id ref c (h, held)).0

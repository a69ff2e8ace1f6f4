-- ===== src/RemoteCore/Linked.antt =====
-- What ties the sessions of a client to the ids of its cores, through every call.
use hyperspace_rs.Base.{
  get_elem?-end, get_elem?-append, ℕ, ◌==◌, ◌≡◌, refl, ap, sym, ◌∙◌, List, [], ◌∷◌, ◌++◌, Option,
  none, some, Bool, true, false, Bytes, pure, Preserves, >>=-Preserves, continue-Preserves,
  unwrap-Preserves, ◌>>=◌, ◌>>◌, length, get_elem?, arith, Bool-cases, inl, inr, bytes_discrete,
  ℕ_discrete,
}
use hyperspace_rs.FreeMap
use hyperspace_rs.FreeMap.Lookup.{insert_with_name-reads, set_name-reads}
use hyperspace_rs.RemoteCore.{Remote, Client, Method, InnerHypercore, OpenRequest, default_core}
use hyperspace_rs.RemoteCore.Methods.{
  read, write, call, update_at, new_core, set_id, open_core, open_unless, open_inner, opened,
  as_u32,
}
use hyperspace_rs.RemoteCore.Sessions.{
  add_core, insert_session, set_name, name_key, open_named, open_new_key, open_new_name, open_or,
  open_by_key, open_by_name,
}
use hyperspace_rs.RemoteCore.Cores.{get_elem?-update_at, get_elem?-update_at_other, get_elem?-bound}
use hyperspace_rs.RemoteCore.Once.{HasRoom}

-- The core at the reference knows the id.
abbrev pub Knows : List InnerHypercore → ℕ → ℕ → Type 0
Knows cores ref id = (inner : InnerHypercore) × (get_elem? cores ref ≡ some inner) × (inner.id ≡ id)

-- A change of a core that leaves its id alone.
Knows-update_at :
    (at : ℕ) (f : InnerHypercore → InnerHypercore) (cores : List InnerHypercore) (ref id : ℕ)
    → ((inner : InnerHypercore) → (f inner).id ≡ inner.id)
    → Knows cores ref id
    → Knows (update_at at f cores) ref id
Knows-update_at at f cores ref id same (inner, e, p) = elim (Bool-cases (at == ref)) [
  | inl h ↦
      let here : at ≡ ref = ground (arith, h) in
      (
        f inner,
        ap (λ i. get_elem? (update_at i f cores) ref) here ∙ get_elem?-update_at ref f cores e,
        same inner ∙ p,
      )
  | inr h ↦ (inner, get_elem?-update_at_other at ref f cores h ∙ e, p)
]

module _ {R : Remote} where
  abbrev pub IsLinked : Client R → Type 0
  IsLinked c = (id ref : ℕ) → FreeMap.get c.sessions id ≡ some ref → Knows c.cores ref id

  pub write-IsLinked :
      (ref : ℕ) (f : InnerHypercore → InnerHypercore) (c : Client R)
      → ((inner : InnerHypercore) → (f inner).id ≡ inner.id)
      → IsLinked c
      → IsLinked (write ref f c).1
  write-IsLinked at f c same linked id ref e =
      Knows-update_at at f c.cores ref id same (linked id ref e)

  -- A method keeps the links.
  abbrev Keeps : {A : Type 0} → Method R A → Type 0
  Keeps m = Preserves IsLinked m

  read-Keeps : (ref : ℕ) → Keeps (read ref)
  read-Keeps ref c linked = unwrap-Preserves R.Error IsLinked (get_elem? c.cores ref) c linked

  open_inner-Keeps : (ref : ℕ) (inner : InnerHypercore) → Keeps (open_inner ref inner)
  unfolding open_inner
  open_inner-Keeps ref inner =
      let request : OpenRequest = record {
        id = as_u32 inner.id;
        key = inner.key;
        name = inner.name;
      } in
      >>=-Preserves IsLinked (call (R.open_feed request)) (λ res. write ref (opened res))
        (λ c linked. linked) (λ res c linked. write-IsLinked ref (opened res) c (λ i. refl) linked)

  open_unless-Keeps :
      (ref : ℕ) (inner : InnerHypercore) (b : Bool) → Keeps (open_unless ref inner b)
  unfolding open_unless
  open_unless-Keeps ref inner true c linked = linked
  open_unless-Keeps ref inner false c linked = open_inner-Keeps ref inner c linked

  open_core-Keeps : (ref : ℕ) → Keeps (open_core ref)
  unfolding open_core
  open_core-Keeps ref =
      >>=-Preserves IsLinked (read ref) (λ inner. open_unless ref inner inner.is_open)
        (read-Keeps ref) (λ inner. open_unless-Keeps ref inner inner.is_open)

  name_key-Keeps : (id : ℕ) (key : Option Bytes) → Keeps (name_key id key)
  unfolding name_key set_name
  name_key-Keeps id none c linked = λ i ref e. linked i ref e
  name_key-Keeps id (some key) c linked = λ i ref e.
      linked i ref (sym ((set_name-reads bytes_discrete c.sessions id (R.hex key)).1 i) ∙ e)

  open_named-Keeps : (ref id : ℕ) → Keeps (open_named (ref, id))
  unfolding open_named
  open_named-Keeps ref id =
      >>=-Preserves IsLinked (open_core ref)
        (λ _. read ref >>= λ inner. name_key id inner.key >> pure ref) (open_core-Keeps ref)
        (λ _.
          >>=-Preserves IsLinked (read ref) (λ inner. name_key id inner.key >> pure ref)
            (read-Keeps ref)
            (λ inner.
              >>=-Preserves IsLinked (name_key id inner.key) (λ _. pure ref)
                (name_key-Keeps id inner.key) (λ _ c linked. linked)))

  -- A new core is given the id of its session; every other session leads where it led.
  pub add_core-IsLinked :
      (key name : Option Bytes) (session_name : Bytes) (c : Client R)
      → HasRoom c
      → IsLinked c
      → IsLinked (add_core key name session_name c).1
  unfolding add_core new_core insert_session set_id
  add_core-IsLinked key name session_name c (valid, room) linked i ref e =
      let n = length c.cores in
      let reads = insert_with_name-reads bytes_discrete valid n session_name room in
      let id = (FreeMap.insert_with_name bytes_discrete c.sessions n session_name).1 in
      let f : InnerHypercore → InnerHypercore = λ inner. record inner { id = id } in
      let cores = c.cores ++ default_core key name ∷ [] in
      elim (ℕ_discrete id i) [
        | yes same ↦
            let here : n ≡ ref = ground (arith, reads.1 i, e) in
            (
              f (default_core key name),
              ap (get_elem? (update_at n f cores)) (sym here)
                  ∙ get_elem?-update_at n f cores (get_elem?-end c.cores (default_core key name)),
              same,
            )
        | no other ↦
            let (inner, at, known) = linked i ref (ground (arith, reads.1 i, e)) in
            let apart : (n == ref) ≡ false = ground (arith, get_elem?-bound c.cores ref at) in
            (
              inner,
              get_elem?-update_at_other n ref f cores apart
                  ∙ get_elem?-append c.cores (default_core key name ∷ []) ref at,
              known,
            )
      ]

  open_new_name-Keeps :
      (name : Bytes) (c : Client R) → HasRoom c → IsLinked c → IsLinked (open_new_name name c).1
  unfolding open_new_name
  open_new_name-Keeps name c room linked =
      continue-Preserves IsLinked open_named (add_core none (some name) name c)
        (λ r. open_named-Keeps r.0 r.1) (add_core-IsLinked none (some name) name c room linked)

  open_new_key-Keeps :
      (key : Bytes) (c : Client R) → HasRoom c → IsLinked c → IsLinked (open_new_key key c).1
  unfolding open_new_key
  open_new_key-Keeps key c room linked =
      continue-Preserves IsLinked (λ r. open_core r.0 >> pure r.0)
        (add_core (some key) none (R.hex key) c)
        (λ r.
          >>=-Preserves IsLinked (open_core r.0) (λ _. pure r.0) (open_core-Keeps r.0)
            (λ _ c linked. linked))
        (add_core-IsLinked (some key) none (R.hex key) c room linked)

  open_or-IsLinked :
      (o : Option ℕ) (new : Method R ℕ) (c : Client R)
      → IsLinked (new c).1
      → IsLinked c
      → IsLinked (open_or o new c).1
  unfolding open_or
  open_or-IsLinked none new c fresh linked = fresh
  open_or-IsLinked (some ref) new c fresh linked =
      >>=-Preserves IsLinked (open_core ref) (λ _. pure ref) (open_core-Keeps ref)
        (λ _ c linked. linked) c linked

  -- Opening a core by name or by key, whether it succeeds or not, keeps the sessions linked: the
  -- core of every session knows the session's id, under which the remote end sends its events.
  -- The sessions are a valid map with room for one more.
  pub open-IsLinked :
      (key name : Bytes) (c : Client R)
      → HasRoom c
      → IsLinked c
      → IsLinked (open_by_key key c).1 × IsLinked (open_by_name name c).1
  unfolding open_by_key open_by_name
  open-IsLinked key name c room linked = (
    open_or-IsLinked _ (open_new_key key) c (open_new_key-Keeps key c room linked) linked,
    open_or-IsLinked _ (open_new_name name) c (open_new_name-Keeps name c room linked) linked,
  )

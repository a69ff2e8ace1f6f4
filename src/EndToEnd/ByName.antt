-- ===== src/EndToEnd/ByName.antt =====
-- A new client that opens a core by name, and the corestore.
use hyperspace_rs.Base.Maps
use hyperspace_rs.Base.{
  ℕ, ◌≡◌, refl, ap, sym, ◌∙◌, List, [], ◌∷◌, Option, none, some, Bytes, Result, ok, err, Fault,
  failed, panicked, continue, lift_fault, arith, pure, ◌>>=◌, ◌>>◌, ℕ_discrete, bytes_discrete,
  subst, ok-injective, get_elem?,
}
use hyperspace_rs.FreeMap
use hyperspace_rs.Corestore.{Env, World}
use hyperspace_rs.Corestore.Opening.{get_by_name}
use hyperspace_rs.Session.{Feeds, IoError}
use hyperspace_rs.Session.Handlers
use hyperspace_rs.Session.Handlers.{map_fault}
use hyperspace_rs.RemoteCore.{Client, SeekRequest, SeekResponse}
use hyperspace_rs.RemoteCore.Methods
use hyperspace_rs.RemoteCore.Methods.{write, read, opened}
use hyperspace_rs.RemoteCore.Sessions
use hyperspace_rs.RemoteCore.Sessions.{open_by_name, name_key, add_core}
use hyperspace_rs.EndToEnd.{served, from_open, new_session}
use hyperspace_rs.EndToEnd.Calls.{start}
use hyperspace_rs.EndToEnd.Written.{Leads}

module _ {V : Env} (F : Feeds V) (hex : Bytes → Bytes)
    (seeks : SeekRequest → Result (Fault (IoError V.Error)) SeekResponse) (name : Bytes)
    (w : World V) (store : F.Store) where
  -- The client with its session, before the session's core is opened.
  abbrev added : Client (served F hex seeks)
  added = (add_core {R = served F hex seeks} none (some name) name (start F hex seeks w store)).1

  -- What follows the answer of the corestore.
  abbrev answered :
      Result (Fault V.Error) V.api.Feed × World V
      → Result (Fault (Fault (IoError V.Error))) ℕ × Client (served F hex seeks)
  answered (r, w') =
      let (a, s) =
        continue (Handlers.open_with {F = F} 1)
          (map_fault r, record (new_session {V = V} {F = F} w store) { corestore = w' }) in
      continue (λ _. read 0 >>= λ inner. name_key 1 inner.key >> pure 0)
        (continue (λ res. write 0 (opened res))
          (lift_fault (from_open a), record added { remote = s }))

  open_by_name-answered :
      open_by_name {R = served F hex seeks} name (start F hex seeks w store)
      ≡ answered (get_by_name name w)
  unfolding open_by_name Sessions.open_or Sessions.new FreeMap.new FreeMap.get_by_name Maps.get
      Sessions.open_new_name Sessions.add_core Methods.new_core Sessions.insert_session
      Methods.set_id Sessions.open_named Methods.open_core Methods.open_unless Methods.open_inner
      Handlers.open_core Handlers.feed_for new_session FreeMap.insert_with_name FreeMap.insert
      FreeMap.set_name Maps.insert hyperspace_rs.Base.add64
  open_by_name-answered = refl

  answered-Leads :
      (r : Result (Fault V.Error) V.api.Feed × World V) (c' : Client (served F hex seeks)) (ref : ℕ)
      → answered r ≡ (ok ref, c')
      → (f : V.api.Feed) × (r ≡ (ok f, c'.remote.corestore))
        × (c'.remote.store ≡ store)
        × Leads c' ref f
  unfolding Handlers.open_with Handlers.add_core Handlers.open_response Sessions.add_core
      Methods.new_core Sessions.insert_session Methods.set_id name_key Sessions.set_name
      Sessions.new FreeMap.new new_session FreeMap.insert_with_name FreeMap.insert FreeMap.set_name
      Maps.insert Maps.get hyperspace_rs.Base.add64 ℕ_discrete
  answered-Leads (err (failed x), w') c' ref e = absurd (ground (arith, ap (λ x. x.0) e))
  answered-Leads (err panicked, w') c' ref e = absurd (ground (arith, ap (λ x. x.0) e))
  answered-Leads (ok f, w') c' ref e =
      let here : (answered (ok f, w')).1 ≡ c' = ap (λ x. x.1) e in
      let zeroth : 0 ≡ ref = ok-injective (ap (λ x. x.0) e) in
      (
        f,
        ap (λ c. (ok f, c.remote.corestore)) here,
        sym (ap (λ c. c.remote.store) here),
        subst (λ c. Leads c ref f) here
            (subst (λ n. Leads (answered (ok f, w')).1 n f) zeroth (_, refl, refl)),
      )

  -- The corestore has given the feed that the core leads to, and the blocks are as they were.
  pub open_by_name-Leads :
      (c' : Client (served F hex seeks)) (ref : ℕ)
      → open_by_name name (start F hex seeks w store) ≡ (ok ref, c')
      → (f : V.api.Feed) × (get_by_name name w ≡ (ok f, c'.remote.corestore))
        × (c'.remote.store ≡ store)
        × Leads c' ref f
  open_by_name-Leads c' ref e =
      answered-Leads (get_by_name name w) c' ref (sym open_by_name-answered ∙ e)

  -- When the corestore gives a feed, the core is opened.
  pub open_by_name-opens :
      (f : V.api.Feed) (w' : World V)
      → get_by_name name w ≡ (ok f, w')
      → (c' : Client (served F hex seeks)) × (open_by_name name (start F hex seeks w store)
          ≡ (ok 0, c'))
        × (c'.remote.store ≡ store)
        × Leads c' 0 f
  unfolding Handlers.open_with Handlers.add_core Handlers.open_response Sessions.add_core
      Methods.new_core Sessions.insert_session Methods.set_id name_key Sessions.set_name
      Sessions.new FreeMap.new new_session FreeMap.insert_with_name FreeMap.insert FreeMap.set_name
      Maps.insert Maps.get hyperspace_rs.Base.add64 ℕ_discrete
  open_by_name-opens f w' gives =
      ((answered (ok f, w')).1, open_by_name-answered ∙ ap answered gives, refl, (_, refl, refl))

-- ===== src/Session/Appending.antt =====
-- `append` and the notifications.
use hyperspace_rs.Base.Maps
use hyperspace_rs.Base.{
  ℕ, ◌+◌, ◌≡◌, ap, sym, subst, ◌∙◌, List, [], ◌∷◌, ◌++◌, append-nil, append_assoc, Option, none,
  some, Bytes, Result, ok, err, failed, Action, continue, ◌>>=◌, >>=-inv, >>=-ok, >>=-err,
  ℕ_discrete, arith, ok-injective, length, Option-cases, inl, inr,
}
use hyperspace_rs.Corestore.{Env}
use hyperspace_rs.Session.{
  Feeds, FeedEvent, append, download, other_event, Notification, Session, AppendResponse, other,
}
use hyperspace_rs.Session.Handlers.{
  core_of, or_bad_id, append_all, append_to, append_blocks, append_response, on_store, map_err,
  notification, notify_loop, send_some, deliver,
}

-- A block that is appended makes the feed longer by one.
abbrev pub Lengthens : {V : Env} → Feeds V → Type 0
Lengthens {V} F =
    (feed : V.api.Feed) (block : Bytes) (store : F.Store)
    → (F.append feed block store).0 ≡ ok tt
    → F.len feed (F.append feed block store).1 ≡ F.len feed store + 1

pub map_err-ok : {E A : Type 0} (r : Result E A) {a : A} → map_err r ≡ ok a → r ≡ ok a
map_err-ok (ok b) e = ground (arith, e)
map_err-ok (err x) e = absurd (ground (arith, e))

module _ {V : Env} {F : Feeds V} where
  pub append_all-length :
      Lengthens F
      → (feed : V.api.Feed) (blocks : List Bytes) (s s' : Session V F)
      → append_all feed blocks s ≡ (ok tt, s')
      → F.len feed s'.store ≡ F.len feed s.store + length blocks
  unfolding append_all
  append_all-length lengthens feed [] s s' e = omega (arith, ap (λ x. F.len feed x.1.store) e)
  append_all-length lengthens feed (block ∷ blocks) s s' e =
      let (_, t, p, q) = >>=-inv (on_store (F.append feed block)) (λ _. append_all feed blocks) e in
      let one =
        lengthens feed block s.store
          (map_err-ok (F.append feed block s.store).0 (ap (λ x. x.0) p)) in
      let moved = ap (λ x. F.len feed x.1.store) p in
      omega (arith, append_all-length lengthens feed blocks t s' q, one, moved)

  pub core_of-ok :
      (id : ℕ) (s t : Session V F) (feed : V.api.Feed)
      → core_of id s ≡ (ok feed, t)
      → (Maps.get ℕ_discrete id s.cores ≡ some feed) × (s ≡ t)
  unfolding core_of
  core_of-ok id s t feed e = elim (Option-cases (Maps.get ℕ_discrete id s.cores)) [
    | inl n ↦ absurd (ground (arith, ap (λ x. x.0) (sym (ap (λ o. or_bad_id o s) n) ∙ e)))
    | inr (f, h) ↦
        let q = sym (ap (λ o. or_bad_id o s) h) ∙ e in
        (h ∙ ap some (ok-injective (ap (λ x. x.0) q)), ap (λ x. x.1) q)
  ]

  -- An `append` that succeeds has made the feed of the id longer by the number of blocks, and
  -- answers with the feed's new length, where appending a block makes a feed longer by one.
  append_blocks-length :
      Lengthens F
      → (id : ℕ) (blocks : List Bytes) (s s' : Session V F) (res : AppendResponse)
      → append_blocks id blocks s ≡ (ok res, s')
      → (feed : V.api.Feed) × (Maps.get ℕ_discrete id s.cores ≡ some feed)
        × (res.length ≡ F.len feed s.store + length blocks)
        × (F.len feed s'.store ≡ res.length)
        × (res.seq ≡ res.length)
  unfolding append_blocks append_to append_response
  append_blocks-length lengthens id blocks s s' res e =
      let (feed, t, p, q) = >>=-inv (core_of id) (append_to blocks) e in
      let (held, same) = core_of-ok id s t feed p in
      let (_, u, p', q') = >>=-inv (append_all feed blocks) (λ _. append_response feed) q in
      let grown = append_all-length lengthens feed blocks t u p' in
      let given = ok-injective (ap (λ x. x.0) q') in
      (
        feed,
        held,
        ap (λ x. x.length) (sym given)
            ∙ grown
            ∙ ap (λ x. F.len feed x.store + length blocks) (sym same),
        ap (λ x. F.len feed x.store) (sym (ap (λ x. x.1) q')) ∙ ap (λ x. x.length) given,
        ap (λ x. x.seq) (sym given) ∙ ap (λ x. x.length) given,
      )

  append_all-fails :
      (feed : V.api.Feed) (xs : List Bytes) (y : Bytes) (ys : List Bytes) (s t : Session V F)
      (e : V.Error) (store : F.Store)
      → append_all feed xs s ≡ (ok tt, t)
      → F.append feed y t.store ≡ (err e, store)
      → append_all feed (xs ++ y ∷ ys) s ≡ (err (failed (other e)), record t { store = store })
  unfolding append_all
  append_all-fails feed [] y ys s t e store run fails =
      let same = ap (λ x. x.1) run in
      subst (λ x. append_all feed (y ∷ ys) x ≡ (err (failed (other e)), record t { store = store }))
        (sym same)
        (>>=-err (on_store (F.append feed y)) (λ _. append_all feed ys)
          (ap (λ r. (map_err r.0, record t { store = r.1 })) fails))
  append_all-fails feed (x ∷ xs) y ys s t e store run fails =
      let (_, u, p, q) = >>=-inv (on_store (F.append feed x)) (λ _. append_all feed xs) run in
      >>=-ok (on_store (F.append feed x)) (λ _. append_all feed (xs ++ y ∷ ys)) p
      ∙ append_all-fails feed xs y ys u t e store q fails

  -- An `append` is no transaction: where a block is refused, the answer is that error, the blocks
  -- before it stay appended, and those after it are not looked at.
  pub append_blocks-partial :
      (id : ℕ) (feed : V.api.Feed) (xs : List Bytes) (y : Bytes) (ys : List Bytes)
      (s t : Session V F) (e : V.Error) (store : F.Store)
      → Maps.get ℕ_discrete id s.cores ≡ some feed
      → append_all feed xs s ≡ (ok tt, t)
      → F.append feed y t.store ≡ (err e, store)
      → append_blocks id (xs ++ y ∷ ys) s ≡ (err (failed (other e)), record t { store = store })
  unfolding append_blocks append_to core_of
  append_blocks-partial id feed xs y ys s t e store held run fails =
      >>=-ok (core_of id) (append_to (xs ++ y ∷ ys)) (ap (λ o. or_bad_id o s) held)
      ∙ >>=-err (append_all feed (xs ++ y ∷ ys)) (λ _. append_response feed)
          (append_all-fails feed xs y ys s t e store run fails)

module _ {V : Env} (F : Feeds V) (id : ℕ) (feed : V.api.Feed) where
  -- The notifications of a sequence of events: one for each append and each download.
  abbrev pub notifications : List (F.Store × FeedEvent) → List Notification
  notifications [] = []
  notifications ((store, append) ∷ rest) =
      Notification.on_append
        (record { id = id; length = F.len feed store; byte_length = F.byte_len feed store })
      ∷ notifications rest
  notifications ((store, download seq) ∷ rest) =
      Notification.on_download
        (record { id = id; seq = seq; byte_length = some (F.byte_len feed store) })
      ∷ notifications rest
  notifications ((store, other_event) ∷ rest) = notifications rest

  sends :
      {E : Type 0} (link : List Notification → Notification → Option E) (sent : List Notification)
      → ((sent : List Notification) (n : Notification) → link sent n ≡ none)
      → (n : Notification) (rest : Unit {0} → Action (List Notification) E (Unit {0}))
      → (send_some F id feed link (some n) >>= rest) sent ≡ rest tt (sent ++ n ∷ [])
  sends link sent takes n rest =
      ap (λ o. continue rest (deliver F id feed link o n sent)) (takes sent n)

  -- A client that takes every call is told of every append and every download of the feed, in
  -- their order and each once, under the id of the session, and of nothing else.
  pub notify_loop-tells :
      {E : Type 0} (link : List Notification → Notification → Option E)
      (events : List (F.Store × FeedEvent)) (sent : List Notification)
      → ((sent : List Notification) (n : Notification) → link sent n ≡ none)
      → notify_loop F id feed link events sent ≡ (ok tt, sent ++ notifications events)
  unfolding notify_loop notification
  notify_loop-tells link [] sent takes = ap (λ xs. (ok tt, xs)) (sym (append-nil sent))
  notify_loop-tells link ((store, append) ∷ rest) sent takes =
      sends link sent takes _ (λ _. notify_loop F id feed link rest)
      ∙ notify_loop-tells link rest (sent ++ _ ∷ []) takes
      ∙ ap (λ xs. (ok tt, xs)) (append_assoc sent (_ ∷ []) (notifications rest))
  notify_loop-tells link ((store, download seq) ∷ rest) sent takes =
      sends link sent takes _ (λ _. notify_loop F id feed link rest)
      ∙ notify_loop-tells link rest (sent ++ _ ∷ []) takes
      ∙ ap (λ xs. (ok tt, xs)) (append_assoc sent (_ ∷ []) (notifications rest))
  notify_loop-tells link ((store, other_event) ∷ rest) sent takes =
      notify_loop-tells link rest sent takes

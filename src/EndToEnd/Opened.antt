-- ===== src/EndToEnd/Opened.antt =====
-- What opening a feed does to the feeds of a session, on every outcome.
use hyperspace_rs.Base.Maps
use hyperspace_rs.Base.{
  ◌≡◌, ℕ, refl, ap, List, [], ◌∷◌, Option, none, some, Bytes, Result, ok, err, Fault, HashMap,
  continue, Preserves, >>=-Preserves, ℕ_discrete, length, ◌==◌, if◌then◌else◌, Bool-cases, inl, inr,
  lift,
}
use hyperspace_rs.Corestore.{Env}
use hyperspace_rs.Corestore.Opening.{get_by_key}
use hyperspace_rs.Session.{Feeds, IoError, Session, OpenRequest, OpenResponse, invalid_key_length}
use hyperspace_rs.Session.Handlers.{
  open_core, open_with, open_response, add_core, feed_for, append_all, append_blocks, append_to,
  append_response, core_of, or_bad_id, get, on_store, on_corestore,
}

module _ {V : Env} {F : Feeds V} where
  feed_for-cores :
      (name key : Option Bytes) (s : Session V F) → (feed_for name key s).1.cores ≡ s.cores
  unfolding feed_for
  feed_for-cores (some name) key s = refl
  feed_for-cores none (some key) s = elim (Bool-cases (length key == 32)) [
    | inl e ↦
        ap
          (λ b.
            ((if b then on_corestore (get_by_key key) else lift (err invalid_key_length))
              s).1.cores)
          e
    | inr e ↦
        ap
          (λ b.
            ((if b then on_corestore (get_by_key key) else lift (err invalid_key_length))
              s).1.cores)
          e
  ]
  feed_for-cores none none s = refl

  -- A feed was put under the id and its key is the answer's, or there is an error and the feeds
  -- are those from before.
  abbrev pub Answered :
      OpenRequest
      → HashMap ℕ V.api.Feed
      → Result (Fault (IoError V.Error)) OpenResponse
      → Session V F
      → Type 0
  Answered req cores (ok res) s' =
      (feed : V.api.Feed) × (res.key ≡ V.public_key feed)
      × (s'.cores ≡ Maps.insert ℕ_discrete req.id feed cores)
  Answered req cores (err e) s' = s'.cores ≡ cores

  pub open_core-Answered :
      (req : OpenRequest) (s : Session V F)
      → Answered req s.cores (open_core req s).0 (open_core req s).1
  unfolding open_core open_with add_core open_response
  open_core-Answered req s =
      answered (feed_for req.name req.key s) (feed_for-cores req.name req.key s)
    where
      answered :
          (r : Result (Fault (IoError V.Error)) V.api.Feed × Session V F)
          → r.1.cores ≡ s.cores
          → Answered req s.cores (continue (open_with req.id) r).0 (continue (open_with req.id) r).1
      answered (ok feed, t) same = (feed, refl, ap (Maps.insert ℕ_discrete req.id feed) same)
      answered (err e, t) same = same

  -- Appending and getting leave the ids alone.
  abbrev pub Holds : HashMap ℕ V.api.Feed → Session V F → Type 0
  Holds cores s = s.cores ≡ cores

  core_of-Holds : (cores : HashMap ℕ V.api.Feed) (id : ℕ) → Preserves (Holds cores) (core_of id)
  unfolding core_of
  core_of-Holds cores id s h = by_cases (Maps.get ℕ_discrete id s.cores)
    where
      by_cases : (o : Option V.api.Feed) → Holds cores (or_bad_id o s).1
      by_cases none = h
      by_cases (some feed) = h

  pub append_all-Holds :
      (cores : HashMap ℕ V.api.Feed) (feed : V.api.Feed) (blocks : List Bytes)
      → Preserves (Holds cores) (append_all feed blocks)
  unfolding append_all
  append_all-Holds cores feed [] = λ s h. h
  append_all-Holds cores feed (block ∷ blocks) =
      >>=-Preserves (Holds cores) (on_store (F.append feed block)) (λ _. append_all feed blocks)
        (λ s h. h) (λ _. append_all-Holds cores feed blocks)

  pub append_blocks-cores :
      (id : ℕ) (blocks : List Bytes) (s : Session V F)
      → (append_blocks id blocks s).1.cores ≡ s.cores
  unfolding append_blocks append_to append_response
  append_blocks-cores id blocks s =
      >>=-Preserves (Holds s.cores) (core_of id) (append_to blocks) (core_of-Holds s.cores id)
        (λ feed.
          >>=-Preserves (Holds s.cores) (append_all feed blocks) (λ _. append_response feed)
            (append_all-Holds s.cores feed blocks) (λ _ t h. h))
        s refl

  pub get-cores : (id seq : ℕ) (s : Session V F) → (get id seq s).1.cores ≡ s.cores
  unfolding get
  get-cores id seq s =
      >>=-Preserves (Holds s.cores) (core_of id) (λ feed. on_store (F.get feed seq))
        (core_of-Holds s.cores id) (λ feed t h. h) s refl

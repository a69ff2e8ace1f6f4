-- ===== src/Corestore/Named.antt =====
-- Feeds opened by name: their keys, and how they are found again.
use mathlib.Core.Option
use hyperspace_rs.Base.{
  lift_fault, Option, none, some, Bytes, pure, unwrap, ◌>>=◌, Result, ok, err, inl, inr, ◌≡◌, refl,
  ◌∙◌, ap, sym, subst, continue, >>=-inv, Option-cases, arith,
}
use hyperspace_rs.FeedMap
use hyperspace_rs.FeedMap.Invariant.{IsValid, dkey_of}
use hyperspace_rs.FeedMap.Insert.{insert-reads}
use hyperspace_rs.Corestore.{Env, World, Method}
use hyperspace_rs.Corestore.Methods.{
  namespace, derive_key, derive_secret, generate_key_pair, name_or, key_pair_of,
}
use hyperspace_rs.Corestore.Opening.{
  publish, prepare, prepare_with, keys_for, known_name, keep_name, build_feed, build, open_storage,
  open_feed, key_cached, name_cached, get_by_name, get_by_key, get_by_dkey, found_dkey,
}
use hyperspace_rs.Corestore.Prepare.{prepare-IsOnDisk}
use hyperspace_rs.Corestore.Publish.{publish-ok}
use hyperspace_rs.Corestore.Opened.{
  open_new-IsAdded, open_feed-key_cached, open_feed-name_cached, open_feed-new,
}

-- A feed is built with the key that the builder was given.
abbrev pub IsKeyed : Env → Type 0
IsKeyed V =
    (key : Bytes) (secret : Option V.SecretKey) (s : V.Storage) (d : V.Disk) (f : V.api.Feed)
    → (V.build key secret s d).0 ≡ ok f
    → V.public_key f ≡ key

lift_fault-ok : {E A : Type 0} (r : Result E A) {a : A} → lift_fault r ≡ ok a → r ≡ ok a
lift_fault-ok (ok b) e = ground (arith, e)
lift_fault-ok (err x) e = absurd (ground (arith, e))

-- The public key of the name, where its secret is one.
unfoldable pub key_of_name : Env → Bytes → Bytes → Option Bytes
key_of_name V master_key name =
    Option.map V.public_of (V.secret_of (derive_key V master_key namespace name))

module _ {V : Env} where
  -- The key pair for a secret: what `generate_key_pair` ends with.
  pair_of : Bytes → V.SecretKey → Method V (Bytes × Option V.SecretKey × Option Bytes)
  pair_of name secret = pure (V.public_of secret, some secret, some name)

  key_pair_of-run :
      (name : Bytes) (w : World V) (o : Option V.SecretKey)
      → V.secret_of (derive_key V w.store.master_key namespace name) ≡ o
      → key_pair_of name w ≡ continue (pair_of name) (unwrap o w)
  unfolding key_pair_of derive_secret pair_of
  key_pair_of-run name w o e = ap (λ x. continue (pair_of name) (unwrap x w)) e

  pub key_pair_of-ok :
      (name : Bytes) (w t : World V) {keys : Bytes × Option V.SecretKey × Option Bytes}
      → key_pair_of name w ≡ (ok keys, t)
      → (secret : V.SecretKey) × (V.secret_of (derive_key V w.store.master_key namespace name)
          ≡ some secret)
        × (keys ≡ (V.public_of secret, some secret, some name))
        × (t ≡ w)
  unfolding pair_of
  key_pair_of-ok name w t e =
      elim (Option-cases (V.secret_of (derive_key V w.store.master_key namespace name))) [
        | inl p ↦ absurd (ground (arith, ap (λ x. x.0) (sym (key_pair_of-run name w none p) ∙ e)))
        | inr (s, p) ↦
            let run = sym (key_pair_of-run name w (some s) p) ∙ e in
            (s, p, ground (arith, ap (λ x. x.0) run), sym (ap (λ x. x.1) run))
      ]

  pub build_feed-key :
      IsKeyed V
      → (k : Bytes) (s : Option V.SecretKey) (w t : World V) (f : V.api.Feed)
      → build_feed k s w ≡ (ok f, t)
      → V.public_key f ≡ k
  unfolding build_feed build
  build_feed-key keyed k s w t f e =
      let (storage, u, _, q) = >>=-inv (open_storage k) (build k s) e in
      keyed k s storage u.disk f (lift_fault-ok (V.build k s storage u.disk).0 (ap (λ x. x.0) q))

  -- The feed built, and the name it goes by.
  abbrev pub with_name : Option Bytes → V.api.Feed → Method V (V.api.Feed × Option Bytes)
  with_name g feed = pure (feed, g)

  pub prepare_with-ok :
      (k : Bytes) (s : Option V.SecretKey) (g : Option Bytes) (w t : World V) (f : V.api.Feed)
      (g' : Option Bytes)
      → prepare_with (k, s, g) w ≡ (ok (f, g'), t)
      → (g' ≡ g) × (IsKeyed V → V.public_key f ≡ k)
  unfolding prepare_with
  prepare_with-ok k s g w t f g' e =
      let (_, u, _, q) =
        >>=-inv (keep_name (V.discovery_key k) g) (λ _. build_feed k s >>= with_name g) e in
      let (f', v, p, q') = >>=-inv (build_feed k s) (with_name g) q in
      (
        ground (arith, ap (λ x. x.0) q'),
        λ keyed. ground (arith, ap (λ x. x.0) q', build_feed-key keyed k s u v f' p),
      )

  -- Opening by name: the key pair of the name, then the feed.
  pub prepare-named :
      (name : Bytes) (w : World V)
      → prepare none (some name) w ≡ (key_pair_of name >>= prepare_with) w
  unfolding prepare known_name keys_for generate_key_pair name_or
  prepare-named name w = refl

  -- A new feed for a name: it is kept under that name, and its key is that of the name.
  prepare-named_ok :
      (name : Bytes) (w t : World V) (f : V.api.Feed) (g : Option Bytes)
      → prepare none (some name) w ≡ (ok (f, g), t)
      → (g ≡ some name)
        × (IsKeyed V → key_of_name V w.store.master_key name ≡ some (V.public_key f))
  unfolding key_of_name
  prepare-named_ok name w t f g e =
      let ((k, s, h), u, p, q) =
        >>=-inv (key_pair_of name) prepare_with (sym (prepare-named name w) ∙ e) in
      let (secret, at, keys, _) = key_pair_of-ok name w u p in
      let (same, key) = prepare_with-ok k s h u t f g q in
      (
        same ∙ ap (λ x. x.2) keys,
        λ keyed. ap (Option.map V.public_of) at ∙ sym (ap some (key keyed ∙ ap (λ x. x.0) keys)),
      )

  -- A name that was opened: what the map held for it, or a new feed.
  name_read_new :
      (name : Bytes) (w w' : World V) (f : V.api.Feed)
      → IsValid w.store.feeds
      → (prepare none (some name) >>= publish) w ≡ (ok f, w')
      → name_cached w'.store.feeds (some name) ≡ some f
  unfolding name_cached
  name_read_new name w w' f valid e =
      let ((f', g), t, p, q) = >>=-inv (prepare none (some name)) publish e in
      let (at, added, _) = publish-ok f' g t w' f q in
      let same = sym (ap (λ x. x.1.store) p) ∙ prepare-IsOnDisk none (some name) w in
      let held =
        added
        ∙ ap (λ s. (FeedMap.insert s.feeds f' g).0) same
        ∙ ap (λ g. (FeedMap.insert w.store.feeds f' g).0) (prepare-named_ok name w t f' g p).0 in
      ap (λ m. FeedMap.get_name m name) held
      ∙ (insert-reads valid f' (some name)).2 name
      ∙ ground (arith, at)

  -- A feed opened by name is found again: after `get_by_name` has succeeded, another call of it
  -- with the name gives the same feed and changes nothing, not even the disk. The map of feeds
  -- is valid before.
  pub get_by_name-again :
      (name : Bytes) (w w' : World V) (f : V.api.Feed)
      → IsValid w.store.feeds
      → get_by_name name w ≡ (ok f, w')
      → get_by_name name w' ≡ (ok f, w')
  unfolding get_by_name key_cached
  get_by_name-again name w w' f valid e =
      elim (Option-cases (name_cached w.store.feeds (some name))) [
        | inr (h, p) ↦
            let q = sym (open_feed-name_cached none (some name) w refl p) ∙ e in
            subst (λ x. open_feed none (some name) x ≡ (ok f, x)) (ap (λ x. x.1) q)
              (open_feed-name_cached none (some name) w refl (ground (arith, p, ap (λ x. x.0) q)))
        | inl p ↦
            open_feed-name_cached none (some name) w' refl
              (name_read_new name w w' f valid (sym (open_feed-new none (some name) w refl p) ∙ e))
      ]

  -- The key of a new feed depends on nothing but the name and the corestore's master key, when a
  -- feed is built with the key that the builder was given: it is the public key of the name.
  pub get_by_name-key :
      IsKeyed V
      → (name : Bytes) (w w' : World V) (f : V.api.Feed)
      → FeedMap.get_name w.store.feeds name ≡ none
      → get_by_name name w ≡ (ok f, w')
      → key_of_name V w.store.master_key name ≡ some (V.public_key f)
  unfolding get_by_name key_cached name_cached
  get_by_name-key keyed name w w' f new e =
      let ((f', g), t, p, q) =
        >>=-inv (prepare none (some name)) publish
          (sym (open_feed-new none (some name) w refl new) ∙ e) in
      let (at, _, _) = publish-ok f' g t w' f q in
      (prepare-named_ok name w t f' g p).1 keyed ∙ ap (λ h. some (V.public_key h)) (sym at)

  -- After a new feed is opened, whether by key or by name, it is found under its own key and
  -- under its discovery key, and neither call changes anything. The map of feeds is valid
  -- before.
  pub open_feed-found :
      (key name : Option Bytes) (w w' : World V) (f : V.api.Feed)
      → IsValid w.store.feeds
      → key_cached w.store.feeds key ≡ none
      → name_cached w.store.feeds name ≡ none
      → open_feed key name w ≡ (ok f, w')
      → (get_by_key (V.public_key f) w' ≡ (ok f, w'))
        × (get_by_dkey (dkey_of V.api f) w' ≡ (ok (some f), w'))
  unfolding get_by_key get_by_dkey key_cached found_dkey
  open_feed-found key name w w' f valid d p e =
      let added = open_new-IsAdded key name w w' f (sym (open_feed-new key name w d p) ∙ e) in
      let (by_key, by_dkey, _) = insert-reads valid f added.named in
      let held : FeedMap.get_dkey w'.store.feeds (dkey_of V.api f) ≡ some f =
        ap (λ m. FeedMap.get_dkey m (dkey_of V.api f)) added.added
        ∙ by_dkey (dkey_of V.api f)
        ∙ ground arith in
      (
        open_feed-key_cached (some (V.public_key f)) none w' (
            ap (λ m. FeedMap.get_key m (V.public_key f)) added.added
            ∙ by_key (V.public_key f)
            ∙ ground arith),
        ap (λ o. found_dkey (dkey_of V.api f) o w') held,
      )

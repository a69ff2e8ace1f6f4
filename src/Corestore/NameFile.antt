-- ===== src/Corestore/NameFile.antt =====
-- The name file of a feed that is opened by name, through the steps of the opening.
use hyperspace_rs.Base.{
  ℕ, ltb, length, Option, none, some, Bool, true, false, [], ◌∷◌, ◌++◌, Bytes, pure, ◌>>=◌, ◌>>◌,
  ok, ◌≡◌, refl, ◌∙◌, ap, sym, subst, >>=-inv, ok-injective, if◌then◌else◌,
}
use hyperspace_rs.FeedMap
use hyperspace_rs.FeedMap.{FeedMap}
use hyperspace_rs.Corestore.{FilePath, Env, World}
use hyperspace_rs.Corestore.Methods.{
  unwrap_or_zero, name_file, feed_path, feed_storage, name_storage, open_path, len_of, write_at,
  write_unless, write_path, write_name_if_empty, key_pair_of,
}
use hyperspace_rs.Corestore.Opening.{
  keep_name, build_feed, open_storage, build, prepare, prepare_with, publish, key_cached,
  name_cached, get_by_name,
}
use hyperspace_rs.Corestore.Publish.{publish-run, publish-ok}
use hyperspace_rs.Corestore.Opened.{open_feed-new}
use hyperspace_rs.Corestore.Named.{
  IsKeyed, key_pair_of-ok, prepare_with-ok, prepare-named, build_feed-key, with_name,
}
use hyperspace_rs.Corestore.MasterKey.{unwrap_ok-inv}

-- What files the disk and hypercore leave alone: opening a file changes no contents, a file that
-- was empty holds what is written to it, and a feed keeps nothing in a file called `name`.
pub record NameLaws (V : Env) : Type 0 where
  pub len_opened : (p q : FilePath) (d : V.Disk) → V.file_len (V.open_file p d).1 q ≡ V.file_len d q
  pub read_opened :
      (p q : FilePath) (i n : ℕ) (d : V.Disk)
      → V.read_file (V.open_file p d).1 q i n ≡ V.read_file d q i n
  pub len_written :
      (p : FilePath) (bytes : Bytes) (d : V.Disk)
      → unwrap_or_zero (V.file_len d p) ≡ 0
      → (V.write_file p 0 bytes d).0 ≡ ok tt
      → V.file_len (V.write_file p 0 bytes d).1 p ≡ ok (length bytes)
  pub read_written :
      (p : FilePath) (bytes : Bytes) (d : V.Disk)
      → (V.write_file p 0 bytes d).0 ≡ ok tt
      → V.read_file (V.write_file p 0 bytes d).1 p 0 (length bytes) ≡ ok bytes
  pub len_stored :
      (dir p : FilePath) (d : V.Disk)
      → V.file_len (V.storage_disk dir d).1 (p ++ name_file ∷ [])
        ≡ V.file_len d (p ++ name_file ∷ [])
  pub read_stored :
      (dir p : FilePath) (i n : ℕ) (d : V.Disk)
      → V.read_file (V.storage_disk dir d).1 (p ++ name_file ∷ []) i n
        ≡ V.read_file d (p ++ name_file ∷ []) i n
  pub len_built :
      (key : Bytes) (secret : Option V.SecretKey) (s : V.Storage) (p : FilePath) (d : V.Disk)
      → V.file_len (V.build key secret s d).1 (p ++ name_file ∷ [])
        ≡ V.file_len d (p ++ name_file ∷ [])
  pub read_built :
      (key : Bytes) (secret : Option V.SecretKey) (s : V.Storage) (p : FilePath) (i n : ℕ)
      (d : V.Disk)
      → V.read_file (V.build key secret s d).1 (p ++ name_file ∷ []) i n
        ≡ V.read_file d (p ++ name_file ∷ []) i n

-- The file holds the name.
abbrev pub Keeps : (V : Env) → V.Disk → FilePath → Bytes → Type 0
Keeps V d p name = (V.file_len d p ≡ ok (length name)) × (V.read_file d p 0 (length name) ≡ ok name)

-- The file of the name of the feed with the key.
abbrev pub name_path : (V : Env) → FilePath → Bytes → FilePath
name_path V storage_path key = feed_path V storage_path (V.discovery_key key) ++ name_file ∷ []

module _ {V : Env} (laws : NameLaws V) where
  write_path-Keeps :
      (p : FilePath) (name : Bytes) (w w' : World V)
      → unwrap_or_zero (V.file_len w.disk p) ≡ 0
      → write_path p name w ≡ (ok tt, w')
      → Keeps V w'.disk p name
  unfolding write_path
  write_path-Keeps p name w w' empty e =
      let (r, disk) = V.write_file p 0 name w.disk in
      let (wrote, same) = unwrap_ok-inv r (record w { disk = disk }) w' e in
      let moved = ap (λ x. x.disk) same in
      (
        ap (λ d. V.file_len d p) (sym moved) ∙ laws.len_written p name w.disk empty wrote,
        ap (λ d. V.read_file d p 0 (length name)) (sym moved)
            ∙ laws.read_written p name w.disk wrote,
      )

  write_at-Keeps :
      (p : FilePath) (name : Bytes) (w w' : World V) (b : Bool)
      → unwrap_or_zero (V.file_len w.disk p) ≡ 0
      → write_at name p w ≡ (ok b, w')
      → Keeps V w'.disk p name
  unfolding write_at len_of write_unless
  write_at-Keeps p name w w' b empty e =
      let q =
        sym (ap (λ n. (if ltb 0 n then pure false else (write_path p name >> pure true)) w) empty)
        ∙ e in
      let (_, u, p', q') = >>=-inv (write_path p name) (λ _. pure true) q in
      subst (λ x. Keeps V x.disk p name) (ap (λ x. x.1) q') (write_path-Keeps p name w u empty p')

  keep_name-Keeps :
      (key name : Bytes) (w w' : World V)
      → let p = name_path V w.store.storage_path key in
        unwrap_or_zero (V.file_len w.disk p) ≡ 0
        → keep_name (V.discovery_key key) (some name) w ≡ (ok tt, w')
        → Keeps V w'.disk p name
  unfolding keep_name write_name_if_empty name_storage feed_storage open_path
  keep_name-Keeps key name w w' empty e =
      let dkey = V.discovery_key key in
      let p = name_path V w.store.storage_path key in
      let (b, t, e1, e2) = >>=-inv (write_name_if_empty dkey name) (λ _. pure tt) e in
      let (p', u, e3, e4) = >>=-inv (name_storage dkey) (write_at name) e1 in
      let (_, v, e5, e6) = >>=-inv (open_path p) (λ _. pure p) e3 in
      let here : p ≡ p' = ok-injective (ap (λ x. x.0) e6) in
      let disk = ap (λ x. x.1.disk) e5 ∙ ap (λ x. x.1.disk) e6 in
      subst (λ x. Keeps V x.disk p name) (ap (λ x. x.1) e2)
        (write_at-Keeps p name u t b
          (ap (λ d. unwrap_or_zero (V.file_len d p)) (sym disk)
            ∙ ap unwrap_or_zero (laws.len_opened p p w.disk)
            ∙ empty)
          (ap (λ x. write_at name x u) here ∙ e4))

  -- Building a feed leaves the name files alone.
  build_feed-Keeps :
      (key : Bytes) (secret : Option V.SecretKey) (q : FilePath) (name : Bytes) (w w' : World V)
      (f : V.api.Feed)
      → build_feed key secret w ≡ (ok f, w')
      → Keeps V w.disk (q ++ name_file ∷ []) name
      → Keeps V w'.disk (q ++ name_file ∷ []) name
  unfolding build_feed open_storage build
  build_feed-Keeps key secret q name w w' f e (len, reads) =
      let dir = feed_path V w.store.storage_path (V.discovery_key key) in
      let file = q ++ name_file ∷ [] in
      let (s, t, p, r) = >>=-inv (open_storage key) (build key secret) e in
      let stored = ap (λ x. x.1.disk) p in
      let built = ap (λ x. x.1.disk) r in
      (
        ap (λ d. V.file_len d file) (sym built)
            ∙ laws.len_built key secret s q t.disk
            ∙ ap (λ d. V.file_len d file) (sym stored)
            ∙ laws.len_stored dir q w.disk
            ∙ len,
        ap (λ d. V.read_file d file 0 (length name)) (sym built)
            ∙ laws.read_built key secret s q 0 (length name) t.disk
            ∙ ap (λ d. V.read_file d file 0 (length name)) (sym stored)
            ∙ laws.read_stored dir q 0 (length name) w.disk
            ∙ reads,
      )

  prepare_with-Keeps :
      IsKeyed V
      → (k : Bytes) (secret : Option V.SecretKey) (name : Bytes) (w w' : World V) (f : V.api.Feed)
        (g : Option Bytes)
      → let p = name_path V w.store.storage_path k in
        unwrap_or_zero (V.file_len w.disk p) ≡ 0
        → prepare_with (k, secret, some name) w ≡ (ok (f, g), w')
        → Keeps V w'.disk p name × (V.public_key f ≡ k)
  unfolding prepare_with
  prepare_with-Keeps keyed k secret name w w' f g empty e =
      let (_, t, p, q) =
        >>=-inv (keep_name (V.discovery_key k) (some name))
          (λ _. build_feed k secret >>= with_name (some name)) e in
      let (f', u, p', q') = >>=-inv (build_feed k secret) (with_name (some name)) q in
      let kept =
        build_feed-Keeps k secret (feed_path V w.store.storage_path (V.discovery_key k)) name t u f'
          p' (keep_name-Keeps k name w t empty p) in
      (
        subst (λ x. Keeps V x.disk (name_path V w.store.storage_path k) name) (ap (λ x. x.1) q')
            kept,
        ap V.public_key (sym (ap (λ x. x.0) (ok-injective (ap (λ x. x.0) q'))))
            ∙ build_feed-key keyed k secret t u f' p',
      )

  pub get_by_name-Keeps :
      IsKeyed V
      → (name : Bytes) (w w' : World V) (f : V.api.Feed)
      → let p = name_path V w.store.storage_path (V.public_key f) in
        FeedMap.get_name w.store.feeds name ≡ none
        → unwrap_or_zero (V.file_len w.disk p) ≡ 0
        → get_by_name name w ≡ (ok f, w')
        → Keeps V w'.disk p name
  unfolding get_by_name name_cached key_cached
  get_by_name-Keeps keyed name w w' f no_name empty e =
      let fresh = sym (open_feed-new none (some name) w refl no_name) ∙ e in
      let ((f', g), t, p, q) = >>=-inv (prepare none (some name)) publish fresh in
      let ((k, s, h), u, p', q') =
        >>=-inv (key_pair_of name) prepare_with (sym (prepare-named name w) ∙ p) in
      let (secret, _, keys, same) = key_pair_of-ok name w u p' in
      let (at, _, _) = publish-ok f' g t w' f q in
      let disk : t.disk ≡ w'.disk = ap (λ x. x.1.disk) (sym (publish-run f' g t) ∙ q) in
      let key : V.public_key f ≡ k =
        ap V.public_key at ∙ (prepare_with-ok k s h u t f' g q').1 keyed in
      let run =
        ap (λ x. prepare_with (k, s, x) w) (sym (ap (λ x. x.2) keys))
        ∙ ap (prepare_with (k, s, h)) (sym same)
        ∙ q' in
      let path = ap (name_path V w.store.storage_path) key in
      let (kept, _) =
        prepare_with-Keeps keyed k s name w t f' g
          (ap (λ x. unwrap_or_zero (V.file_len w.disk x)) (sym path) ∙ empty) run in
      subst (λ x. Keeps V w'.disk x name) (sym path)
        (subst (λ d. Keeps V d (name_path V w.store.storage_path k) name) disk kept)

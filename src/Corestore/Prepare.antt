-- ===== src/Corestore/Prepare.antt =====
-- The steps of `open_feed` before the feed is inserted, and the disk.

use hyperspace_rs.Base.{
  ℕ, Option, none, some, true, false, Bytes, lift, pure, unwrap, unwrap_ok, ◌>>=◌, ◌>>◌, Result, ok,
  err, Bool, ltb, if◌then◌else◌, ◌≡◌, refl, ◌∙◌, continue, [], ◌∷◌, ◌++◌, Fault,
}
use hyperspace_rs.Corestore.{Env, World, Method, FilePath}
use hyperspace_rs.Corestore.Methods.{
  read_name, write_name_if_empty, generate_key_pair, generate_key, name_or, derive_secret,
  name_storage, feed_storage, open_path, len_of, name_of, name_at, write_unless, write_at,
  key_pair_of, feed_path, name_file, read_bytes, write_path, namespace, derive_key,
}
use hyperspace_rs.Corestore.Opening.{
  known_name, keys_for, keep_name, build_feed, prepare, open_storage, build, prepare_with,
}

module _ {V : Env} where
  -- A method that leaves the corestore itself as it was.
  abbrev pub IsOnDisk : {A : Type 0} → Method V A → Type 0
  IsOnDisk m = (w : World V) → (m w).1.store ≡ w.store

  continue-store :
      {A B : Type 0} (f : A → Method V B) (r : Result (Fault V.Error) A × World V)
      → ((a : A) → IsOnDisk (f a))
      → (continue f r).1.store ≡ r.1.store
  continue-store f (ok a, w) h = h a w
  continue-store f (err e, w) h = refl

  pub >>=-IsOnDisk :
      {A B : Type 0} (m : Method V A) (f : A → Method V B)
      → IsOnDisk m
      → ((a : A) → IsOnDisk (f a))
      → IsOnDisk (m >>= f)
  >>=-IsOnDisk m f h k w = continue-store f (m w) k ∙ h w

  unwrap-IsOnDisk : {A : Type 0} (o : Option A) → IsOnDisk (unwrap o)
  unwrap-IsOnDisk none w = refl
  unwrap-IsOnDisk (some a) w = refl

  unwrap_ok-IsOnDisk : {A : Type 0} (r : Result V.Error A) → IsOnDisk (unwrap_ok r)
  unwrap_ok-IsOnDisk (err e) w = refl
  unwrap_ok-IsOnDisk (ok a) w = refl

  if-IsOnDisk :
      {A : Type 0} (b : Bool) (m k : Method V A)
      → IsOnDisk m
      → IsOnDisk k
      → IsOnDisk (if b then m else k)
  if-IsOnDisk true m k h j = h
  if-IsOnDisk false m k h j = j

  open_path-IsOnDisk : (path : FilePath) → IsOnDisk (open_path {V = V} path)
  unfolding open_path
  open_path-IsOnDisk path w = refl

  pub feed_storage-IsOnDisk : (dkey name : Bytes) → IsOnDisk (feed_storage {V = V} dkey name)
  unfolding feed_storage
  feed_storage-IsOnDisk dkey name w =
      let path = feed_path V w.store.storage_path dkey ++ name ∷ [] in
      >>=-IsOnDisk (open_path path) (λ _. pure path) (open_path-IsOnDisk path) (λ _ w. refl) w

  name_storage-IsOnDisk : (dkey : Bytes) → IsOnDisk (name_storage {V = V} dkey)
  unfolding name_storage
  name_storage-IsOnDisk dkey = feed_storage-IsOnDisk dkey name_file

  read_bytes-IsOnDisk : (path : FilePath) (len : ℕ) → IsOnDisk (read_bytes {V = V} path len)
  unfolding read_bytes
  read_bytes-IsOnDisk path len w = unwrap_ok-IsOnDisk (V.read_file w.disk path 0 len) w

  len_of-IsOnDisk : (path : FilePath) → IsOnDisk (len_of {V = V} path)
  unfolding len_of
  len_of-IsOnDisk path w = refl

  name_of-IsOnDisk : (path : FilePath) (len : ℕ) → IsOnDisk (name_of {V = V} path len)
  unfolding name_of
  name_of-IsOnDisk path len =
      if-IsOnDisk (ltb 0 len) (read_bytes path len >>= λ name. pure (some name)) (pure none)
        (>>=-IsOnDisk (read_bytes path len) (λ name. pure (some name))
          (read_bytes-IsOnDisk path len) (λ _ w. refl))
        (λ w. refl)

  name_at-IsOnDisk : (path : FilePath) → IsOnDisk (name_at {V = V} path)
  unfolding name_at
  name_at-IsOnDisk path =
      >>=-IsOnDisk (len_of path) (name_of path) (len_of-IsOnDisk path) (name_of-IsOnDisk path)

  read_name-IsOnDisk : (dkey : Bytes) → IsOnDisk (read_name {V = V} dkey)
  unfolding read_name
  read_name-IsOnDisk dkey =
      >>=-IsOnDisk (name_storage dkey) name_at (name_storage-IsOnDisk dkey) name_at-IsOnDisk

  write_path-IsOnDisk : (path : FilePath) (bytes : Bytes) → IsOnDisk (write_path {V = V} path bytes)
  unfolding write_path
  write_path-IsOnDisk path bytes w =
      let (r, disk) = V.write_file path 0 bytes w.disk in
      unwrap_ok-IsOnDisk r (record w { disk = disk })

  write_unless-IsOnDisk :
      (path : FilePath) (name : Bytes) (len : ℕ) → IsOnDisk (write_unless {V = V} path name len)
  unfolding write_unless
  write_unless-IsOnDisk path name len =
      if-IsOnDisk (ltb 0 len) (pure false) (write_path path name >> pure true) (λ w. refl)
        (>>=-IsOnDisk (write_path path name) (λ _. pure true) (write_path-IsOnDisk path name)
          (λ _ w. refl))

  write_at-IsOnDisk : (name : Bytes) (path : FilePath) → IsOnDisk (write_at {V = V} name path)
  unfolding write_at
  write_at-IsOnDisk name path =
      >>=-IsOnDisk (len_of path) (write_unless path name) (len_of-IsOnDisk path)
        (write_unless-IsOnDisk path name)

  write_name-IsOnDisk : (dkey name : Bytes) → IsOnDisk (write_name_if_empty {V = V} dkey name)
  unfolding write_name_if_empty
  write_name-IsOnDisk dkey name =
      >>=-IsOnDisk (name_storage dkey) (write_at name) (name_storage-IsOnDisk dkey)
        (write_at-IsOnDisk name)

  name_or-IsOnDisk : (name : Option Bytes) → IsOnDisk (name_or {V = V} name)
  unfolding name_or generate_key
  name_or-IsOnDisk none w = refl
  name_or-IsOnDisk (some name) w = refl

  key_pair_of-IsOnDisk : (name : Bytes) → IsOnDisk (key_pair_of {V = V} name)
  unfolding key_pair_of derive_secret
  key_pair_of-IsOnDisk name w =
      let secret = V.secret_of (derive_key V w.store.master_key namespace name) in
      >>=-IsOnDisk (unwrap secret) (λ s. pure (V.public_of s, some s, some name))
        (unwrap-IsOnDisk secret) (λ _ w. refl) w

  generate_key_pair-IsOnDisk : (name : Option Bytes) → IsOnDisk (generate_key_pair {V = V} name)
  unfolding generate_key_pair
  generate_key_pair-IsOnDisk name =
      >>=-IsOnDisk (name_or name) key_pair_of (name_or-IsOnDisk name) key_pair_of-IsOnDisk

  known_name-IsOnDisk : (key name : Option Bytes) → IsOnDisk (known_name {V = V} key name)
  unfolding known_name
  known_name-IsOnDisk key (some name) w = refl
  known_name-IsOnDisk none none w = refl
  known_name-IsOnDisk (some key) none w = read_name-IsOnDisk _ w

  keys_for-IsOnDisk : (key name : Option Bytes) → IsOnDisk (keys_for {V = V} key name)
  unfolding keys_for
  keys_for-IsOnDisk key (some name) w = generate_key_pair-IsOnDisk (some name) w
  keys_for-IsOnDisk none none w = generate_key_pair-IsOnDisk none w
  keys_for-IsOnDisk (some key) none w =
      >>=-IsOnDisk (lift (V.check_public key)) (λ k. pure (k, none, none)) (λ w. refl) (λ _ w. refl)
        w

  keep_name-IsOnDisk : (dkey : Bytes) (name : Option Bytes) → IsOnDisk (keep_name {V = V} dkey name)
  unfolding keep_name
  keep_name-IsOnDisk dkey none w = refl
  keep_name-IsOnDisk dkey (some name) w =
      >>=-IsOnDisk (write_name_if_empty dkey name) (λ _. pure tt) (write_name-IsOnDisk dkey name)
        (λ _ w. refl) w

  open_storage-IsOnDisk : (public_key : Bytes) → IsOnDisk (open_storage {V = V} public_key)
  unfolding open_storage
  open_storage-IsOnDisk public_key w = refl

  build-IsOnDisk :
      (public_key : Bytes) (secret_key : Option V.SecretKey) (storage : V.Storage)
      → IsOnDisk (build {V = V} public_key secret_key storage)
  unfolding build
  build-IsOnDisk public_key secret_key storage w = refl

  build_feed-IsOnDisk :
      (public_key : Bytes) (secret_key : Option V.SecretKey)
      → IsOnDisk (build_feed {V = V} public_key secret_key)
  unfolding build_feed
  build_feed-IsOnDisk public_key secret_key =
      >>=-IsOnDisk (open_storage public_key) (build public_key secret_key)
        (open_storage-IsOnDisk public_key) (build-IsOnDisk public_key secret_key)

  prepare_with-IsOnDisk :
      (keys : Bytes × Option V.SecretKey × Option Bytes) → IsOnDisk (prepare_with {V = V} keys)
  unfolding prepare_with
  prepare_with-IsOnDisk (k, s, g) =
      >>=-IsOnDisk (keep_name (V.discovery_key k) g)
        (λ _. build_feed k s >>= λ feed. pure (feed, g)) (keep_name-IsOnDisk (V.discovery_key k) g)
        (λ _.
          >>=-IsOnDisk (build_feed k s) (λ feed. pure (feed, g)) (build_feed-IsOnDisk k s)
            (λ _ w. refl))

  -- Preparing a feed, whether it succeeds or not, leaves the corestore as it was.
  pub prepare-IsOnDisk : (key name : Option Bytes) → IsOnDisk (prepare {V = V} key name)
  unfolding prepare
  prepare-IsOnDisk key name =
      >>=-IsOnDisk (known_name key name) (λ n. keys_for key n >>= prepare_with)
        (known_name-IsOnDisk key name)
        (λ n.
          >>=-IsOnDisk (keys_for key n) prepare_with (keys_for-IsOnDisk key n)
            prepare_with-IsOnDisk)

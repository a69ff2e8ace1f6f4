-- ===== src/Corestore/Sample.antt =====
-- A corestore on a disk that is a function from paths to contents.
use mathlib.Core.Path.{ap₂}
use hyperspace_rs.Base
use hyperspace_rs.Base.{
  ℕ, zero, suc, ◌+◌, refl, ltb, List, [], ◌∷◌, ◌++◌, map, length, take, drop, some, true, ite,
  Bytes, bytes_discrete, Result, ok, err, if◌then◌else◌,
}
use hyperspace_rs.FeedMap
use hyperspace_rs.Corestore.{FilePath, Env, World}

unfoldable pub path_discrete : Discrete FilePath
path_discrete [] [] = yes refl
path_discrete [] (q ∷ qs) = no (λ e. cc)
path_discrete (p ∷ ps) [] = no (λ e. cc)
path_discrete (p ∷ ps) (q ∷ qs) = elim (bytes_discrete p q) [
  | no ne ↦ no (λ e. ne (cc))
  | yes e ↦ elim (path_discrete ps qs) [ yes h ↦ yes (ap₂ ◌∷◌ e h) | no ne ↦ no (λ h. ne (cc)) ]
]

-- The disk: the contents of the files, where a file that is not there is empty.
abbrev pub Disk : Type 0
Disk = FilePath → Bytes

abbrev pub write_file : FilePath → ℕ → Bytes → Disk → Result ℕ (Unit {0}) × Disk
write_file p i bytes d = (ok tt, λ q. ite (path_discrete p q) (take i (d p) ++ bytes) (d q))

abbrev pub read_file : Disk → FilePath → ℕ → ℕ → Result ℕ Bytes
read_file d p i n = if ltb (length (drop i (d p))) n then err 4 else ok (take n (drop i (d p)))

abbrev pub copies : ℕ → ℕ → Bytes
copies zero b = []
copies (suc n) b = b ∷ copies n b

-- A feed is known by its key, and the keys are not hidden in any way.
abbrev pub plain : Env
plain = record {
  api = record { Feed = Bytes; public_key = λ f. f; discovery_key = λ k. map (λ b. b + 1) k };
  Error = ℕ;
  hex = λ bytes. bytes;
  blake2b = λ key parts. key ++ Base.concat (drop 1 parts);
  SecretKey = Bytes;
  secret_of = λ seed. some seed;
  public_of = λ secret. secret;
  check_public = λ key. ok key;
  random_key = copies 32;
  Disk = Disk;
  open_file = λ p d. (ok tt, d);
  file_len = λ d p. ok (length (d p));
  read_file = read_file;
  write_file = write_file;
  Storage = FilePath;
  storage_disk = λ p d. (ok p, d);
  build = λ key secret storage d. (ok key, d);
}

-- A corestore with no feeds and one subscriber.
abbrev pub world : World plain
world = record {
  store = record {
    master_key = 1 ∷ [];
    feeds = FeedMap.new;
    name = [];
    storage_path = [];
    subscribers = record { connected = true; events = [] } ∷ [];
  };
  disk = λ _. [];
  drawn = 0;
}

-- ===== src/Corestore/MasterKey.antt =====
-- The master key of a corestore, from one opening to the next.

use hyperspace_rs.Base.{
  ℕ, suc, length, take, take_of_length-le, [], ◌∷◌, ◌++◌, Bytes, pure, unwrap_ok, ◌>>=◌, Result, ok,
  err, ◌≡◌, lift_fault, Fault, refl, ◌∙◌, ap, sym, >>=-inv, >>=-ok, arith,
}
use hyperspace_rs.Corestore.{Env, Bare, FilePath, InnerCorestore}
use hyperspace_rs.Corestore.Methods.{
  open_store, open_master_key, read_master_key, master_key_of, written_key, empty_store,
  master_key_filename,
}

-- What the disk and the random number generator promise: opening a file changes no contents,
-- what was written is read back, and a key has 32 bytes.
pub record DiskLaws (V : Env) : Type 0 where
  pub read_opened :
      (p q : FilePath) (i n : ℕ) (d : V.Disk)
      → V.read_file (V.open_file p d).1 q i n ≡ V.read_file d q i n
  pub read_written :
      (p : FilePath) (bytes : Bytes) (d : V.Disk)
      → (V.write_file p 0 bytes d).0 ≡ ok tt
      → V.read_file (V.write_file p 0 bytes d).1 p 0 (length bytes) ≡ ok bytes
  pub key_length : (i : ℕ) → length (V.random_key i) ≡ 32

-- The master key of the corestore that was opened.
key_in : {V : Env} → Bytes → Result (Fault V.Error) (InnerCorestore V) → Bytes
key_in other (ok s) = s.master_key
key_in other (err e) = other

pub unwrap_ok-inv :
    {S E A : Type 0} (r : Result E A) (s s' : S) {a : A}
    → unwrap_ok {S = S} r s ≡ (ok a, s')
    → (r ≡ ok a) × (s ≡ s')
unwrap_ok-inv (ok a) s s' e = (ground (arith, ap (λ x. x.0) e), ap (λ x. x.1) e)
unwrap_ok-inv (err x) s s' e = absurd (ground (arith, ap (λ x. x.0) e))

module _ {V : Env} (laws : DiskLaws V) where
  -- Where the key file is read back, it holds the key that was given out.
  written_key-kept :
      (file : FilePath) (key k : Bytes) (b b' : Bare V)
      → length key ≡ 32
      → written_key file key b ≡ (ok k, b')
      → V.read_file b'.disk file 0 32 ≡ ok k
  unfolding written_key
  written_key-kept file key k b b' n e =
      let whole : take 32 key ≡ key = take_of_length-le 32 key (omega (arith, n)) in
      let (r, disk) = V.write_file file 0 (take 32 key) b.disk in
      let (_, u, p, q) =
        >>=-inv {S = Bare V} {E = V.Error} (unwrap_ok r) (λ _. pure key)
          {s = record { disk = disk; drawn = suc b.drawn }} e in
      let (wrote, same) = unwrap_ok-inv r (record { disk = disk; drawn = suc b.drawn }) u p in
      ap (λ x. V.read_file x.disk file 0 32) (sym (same ∙ ap (λ x. x.1) q))
      ∙ ap (λ m. V.read_file disk file 0 m) (sym (ap length whole ∙ n))
      ∙ laws.read_written file (take 32 key) b.disk wrote
      ∙ ap ok whole
      ∙ ground (arith, ap (λ x. x.0) q)

  read_master_key-kept :
      (file : FilePath) (b b' : Bare V) (k : Bytes) (r : Result V.Error Bytes)
      → V.read_file b.disk file 0 32 ≡ r
      → master_key_of file r b ≡ (ok k, b')
      → V.read_file b'.disk file 0 32 ≡ ok k
  unfolding master_key_of
  read_master_key-kept file b b' k (ok key) at e =
      ap (λ x. V.read_file x.1.disk file 0 32) (sym e)
      ∙ at
      ∙ ap ok (ground (arith, ap (λ x. x.0) e))
  read_master_key-kept file b b' k (err x) at e =
      written_key-kept file (V.random_key b.drawn) k b b' (laws.key_length b.drawn) e

  -- A corestore that was opened keeps its master key: as long as its key file is left as it
  -- was, opening it again gives the same master key and draws no other, whenever the file
  -- opens. The disk gives back what was written, opening a file changes no contents, and a
  -- random key has 32 bytes.
  pub open_store-again :
      (path : FilePath) (b b' later : Bare V) (s : InnerCorestore V)
      → let file = path ++ master_key_filename ∷ [] in
        open_store path b ≡ (ok s, b')
        → V.read_file later.disk file 0 32 ≡ V.read_file b'.disk file 0 32
        → (V.open_file file later.disk).0 ≡ ok tt
        → open_store path later ≡ (
          ok (empty_store path s.master_key),
          record { disk = (V.open_file file later.disk).1; drawn = later.drawn },
        )
  unfolding open_store open_master_key read_master_key empty_store master_key_of key_in
  open_store-again path b b' later s e kept opens =
      let file = path ++ master_key_filename ∷ [] in
      let (_, t, _, q) =
        >>=-inv (open_master_key file)
          (λ _. read_master_key file >>= λ key. pure (empty_store path key)) e in
      let (key, u, p, q') = >>=-inv (read_master_key file) (λ key. pure (empty_store path key)) q in
      let held =
        laws.read_opened file file 0 32 later.disk
        ∙ kept
        ∙ ap (λ x. V.read_file x.1.disk file 0 32) (sym q')
        ∙ read_master_key-kept file t u key (V.read_file t.disk file 0 32) refl p in
      let opened : Bare V = record {
        disk = (V.open_file file later.disk).1;
        drawn = later.drawn;
      } in
      >>=-ok (open_master_key file)
        (λ _. read_master_key file >>= λ key. pure (empty_store path key))
        (ap (λ r. (lift_fault r, opened)) opens)
      ∙ >>=-ok (read_master_key file) (λ key. pure (empty_store path key))
          (ap (λ r. master_key_of file r opened) held)
      ∙ ap (λ m. (ok (empty_store path m), opened)) (ap (λ x. key_in key x.0) q')

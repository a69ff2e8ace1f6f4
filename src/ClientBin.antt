-- ===== src/ClientBin.antt =====
-- client/src/bin.rs: the command line client, which opens a core and copies it to the output, or
-- the input to it. The socket, the arguments and the logging are left out.
pub mod Opening
pub mod Writing
pub mod Reading
pub mod Echo
pub mod Twice
mod Tests
use hyperspace_rs.Base
use hyperspace_rs.Base.{
  ℕ, ltb, ◌==◌, List, [], ◌∷◌, ◌++◌, length, Option, none, some, false, true, Bytes, Result, ok,
  err, Fault, failed, panicked, pure, lift, unwrap, ◌>>=◌, ◌>>◌, if◌then◌else◌,
}
use hyperspace_rs.RemoteCore.{Remote, Client, Method}
use hyperspace_rs.RemoteCore.Methods.{read, append_blocks}
use hyperspace_rs.RemoteCore.Sessions.{open_by_key, open_by_name}
use hyperspace_rs.ReadStream.{ReadStream, new}

pub data Command : Type 0 where
  read_core write_core : Command

pub record Opts : Type 0 where
  pub key : Option Bytes
  pub name : Option Bytes
  pub host : Option Bytes
  pub command : Command

-- What ends the program: an error of the core, of the input or the output, or of its arguments.
pub data CliError (E I : Type 0) : Type 0 where
  core_error : E → CliError E I
  io_error : I → CliError E I
  invalid_key : CliError E I
  wrong_length : ℕ → CliError E I
  key_or_name_required : CliError E I

abbrev pub map_fault : {E I A : Type 0} → Result (Fault E) A → Result (Fault (CliError E I)) A
map_fault (ok a) = ok a
map_fault (err (failed e)) = err (failed (core_error e))
map_fault (err panicked) = err panicked

module _ (R : Remote) (I : Type 0) where
  abbrev pub Cli : Type 0 → Type 0
  Cli A = Base.Action (Client R) (CliError R.Error I) A

  abbrev pub on_core : {A : Type 0} → Method R A → Cli A
  on_core m c = let (r, c') = m c in (map_fault r, c')

  -- `hex::decode(key)`, given what it answers, and the test of the length.
  unfoldable pub open_key : Result I Bytes → Cli ℕ
  open_key (err e) c = lift (err invalid_key) c
  open_key (ok key) c =
      (if length key == 32
          then on_core (open_by_key key)
          else lift (err (wrong_length (length key))))
        c

  -- The core that the arguments name: a key goes before a name.
  unfoldable pub open_from : (Bytes → Result I Bytes) → Option Bytes → Option Bytes → Cli ℕ
  open_from unhex (some key) name = open_key (unhex key)
  open_from unhex none (some name) = on_core (open_by_name name)
  open_from unhex none none = lift (err key_or_name_required)

  -- A read of the input: nothing is appended where it gave no bytes.
  unfoldable pub append_chunk : ℕ → Bytes → Cli (Unit {0})
  append_chunk ref chunk =
      if ltb 0 (length chunk) then on_core (append_blocks ref (chunk ∷ [])) else pure tt

  -- The loop of `write`, on what the reads of the input give: it ends by an error only, so a success
  -- says that it is still running after those reads.
  unfoldable pub write : ℕ → List (Result I Bytes) → Cli (Unit {0})
  write ref [] = pure tt
  write ref (err e ∷ reads) = lift (err (io_error e))
  write ref (ok chunk ∷ reads) = append_chunk ref chunk >> write ref reads

  -- `async_main` up to the command: the core, whose key is shown.
  unfoldable pub open_shown : (Bytes → Result I Bytes) → Opts → Cli (ℕ × Bytes)
  open_shown unhex opts = do
    core ← open_from unhex opts.key opts.name
    inner ← on_core (read core)
    key ← unwrap inner.key
    pure (core, key)

-- The stream that `read` copies to the output: live, and from the first block on.
unfoldable pub read_stream : ReadStream
read_stream = new 0 none true

-- ===== src/Server.antt =====
-- common/src/lib.rs and server/src: the socket of the server, and what its network task does with
-- the replicator. The paths, sockets and the swarm are those of other crates.
pub mod Socket
pub mod Network
pub mod Unordered
pub mod Listen
mod Tests
use mathlib.Core.Option
use hyperspace_rs.Base.{List, [], ◌∷◌, ◌++◌, Option, Bytes}
use hyperspace_rs.Corestore.{FilePath}

-- `"hyperspace"` and `".sock"` as bytes.
abbrev pub socket_name : Bytes
socket_name = b'h' ∷ b'y' ∷ b'p' ∷ b'e' ∷ b'r' ∷ b's' ∷ b'p' ∷ b'a' ∷ b'c' ∷ b'e' ∷ []

abbrev pub extension : Bytes
extension = b'.' ∷ b's' ∷ b'o' ∷ b'c' ∷ b'k' ∷ []

-- `socket_path`, in the directory for temporary files.
unfoldable pub socket_path : FilePath → Option Bytes → FilePath
socket_path temp_dir name = temp_dir ++ (Option.get_or name socket_name ++ extension) ∷ []

-- ===== src/ClientBin/Echo.antt =====
-- `write`, and then `read`, on one session.
use mathlib.Core.Option
use hyperspace_rs.Base.{
  ℕ, zero, suc, ◌+◌, ◌<◌, ◌≤◌, ◌≡◌, none, refl, ap, ap₂, sym, ◌∙◌, List, [], ◌∷◌, map, length, take,
  some, Bool, Bytes, Result, ok, Fault, get_elem?, subst, arith, range_from, concat, u64_mod,
  lift_fault,
}
use hyperspace_rs.Corestore.{Env}
use hyperspace_rs.Session.{Feeds, IoError}
use hyperspace_rs.Session.Handlers.{map_err}
use hyperspace_rs.RemoteCore.{Client, SeekRequest, SeekResponse}
use hyperspace_rs.RemoteCore.Methods.{get}
use hyperspace_rs.RemoteCore.Cores.{IsOpen}
use hyperspace_rs.EndToEnd.{served}
use hyperspace_rs.EndToEnd.Kept.{Kept}
use hyperspace_rs.EndToEnd.Written.{FeedLaws, Leads, append_all-reads, get-runs}
use hyperspace_rs.ClientBin.{write, read_stream}
use hyperspace_rs.ClientBin.Writing.{nonempty, write-runs}
use hyperspace_rs.ClientBin.Reading.{copy, count_there, Gives, read_copies}

-- Getting a block leaves the blocks that are there.
abbrev pub KeepsBlocks : {V : Env} → Feeds V → Type 0
KeepsBlocks {V} F =
    (feed : V.api.Feed) (i seq : ℕ) (b : Bytes) (store : F.Store)
    → (F.get feed i store).0 ≡ ok (some b)
    → (F.get feed i (F.get feed seq store).1).0 ≡ ok (some b)

-- The block at a place, of those that are there.
abbrev block_of : List Bytes → ℕ → Bytes
block_of blocks i = Option.get_or (get_elem? blocks i) []

get_elem?-below : (xs : List Bytes) (i : ℕ) → i < length xs → get_elem? xs i ≡ some (block_of xs i)
get_elem?-below [] i h = absurd (omega arith)
get_elem?-below (x ∷ xs) zero h = refl
get_elem?-below (x ∷ xs) (suc i) h = get_elem?-below xs i (omega arith)

block_of-shift :
    (x : Bytes) (xs : List Bytes) (i n : ℕ)
    → map (block_of (x ∷ xs)) (range_from (i + 1) n) ≡ map (block_of xs) (range_from i n)
block_of-shift x xs i zero = refl
block_of-shift x xs i (suc n) =
    ap₂ ◌∷◌ (ap (block_of (x ∷ xs)) {y = suc i} (omega arith)) (block_of-shift x xs (i + 1) n)

map_block_of-range_from :
    (xs : List Bytes) (n : ℕ) → n ≤ length xs → map (block_of xs) (range_from 0 n) ≡ take n xs
map_block_of-range_from xs zero h = refl
map_block_of-range_from [] (suc n) h = absurd (omega arith)
map_block_of-range_from (x ∷ xs) (suc n) h =
    ap (λ ys. x ∷ ys) (block_of-shift x xs 0 n ∙ map_block_of-range_from xs n (omega arith))

module _ {V : Env} {F : Feeds V} {hex : Bytes → Bytes}
    {seeks : SeekRequest → Result (Fault (IoError V.Error)) SeekResponse} (laws : FeedLaws F)
    (keeps : KeepsBlocks F) (ref : ℕ) where
  -- The feed that the core leads to holds the blocks from its start on.
  abbrev pub Holds : V.api.Feed → List Bytes → Client (served F hex seeks) → Type 0
  Holds feed blocks c =
      Leads c ref feed
      × ((i : ℕ) (b : Bytes)
          → get_elem? blocks i ≡ some b
          → (F.get feed i c.remote.store).0 ≡ ok (some b))

  Holds-Gives :
      (feed : V.api.Feed) (blocks : List Bytes)
      → Gives
          (Fault (Fault (IoError V.Error)))
          (get ref)
          (block_of blocks)
          (length blocks)
          (Holds feed blocks)
  Holds-Gives feed blocks q c inside ((inner, at, held), there) =
      let run = get-runs ref q c feed inner at held in
      (
        ap (λ x. x.0) run
            ∙ ap (λ r. lift_fault (map_err r))
                (there q (block_of blocks q) (get_elem?-below blocks q inside)),
        subst (λ x. Holds feed blocks x.1) (sym run)
            ((inner, at, held), λ i b e. keeps feed i q b c.remote.store (there i b e)),
      )

  -- What the feed holds from its start on, `read` puts out.
  pub read-Holds :
      (feed : V.api.Feed) (blocks : List Bytes) (polls : List (Bool × ℕ))
      (c : Client (served F hex seeks))
      → count_there polls ≤ length blocks
      → count_there polls < u64_mod
      → Holds feed blocks c
      → let (bytes, ended, _, _) =
          copy (Fault (Fault (IoError V.Error))) (get ref) read_stream polls c in
        (bytes ≡ concat (take (count_there polls) blocks)) × (ended ≡ none)
  read-Holds feed blocks polls c inside room holds =
      let (bytes, on) =
        read_copies (Fault (Fault (IoError V.Error))) (get ref) (block_of blocks) (length blocks)
          (Holds feed blocks) (Holds-Gives feed blocks) polls c room inside holds in
      (bytes ∙ ap concat (map_block_of-range_from blocks (count_there polls) inside), on)

  -- What `write` has put into an empty feed, `read` puts out again: as many polls as find their
  -- block there give that many of the chunks that were not empty, whole and in their order, and the
  -- stream goes on. The core is open, the client and its session belong together, the feeds keep
  -- what is appended to them, also when blocks are got from them, and fewer than 2^64 are asked for.
  pub write-read :
      (I : Type 0) (k : ℕ) (chunks : List Bytes) (polls : List (Bool × ℕ))
      (c c' : Client (served F hex seeks))
      → Kept k c
      → IsOpen c ref
      → ((feed : V.api.Feed) → Leads c ref feed → F.len feed c.remote.store ≡ 0)
      → write (served F hex seeks) I ref (map ok chunks) c ≡ (ok tt, c')
      → count_there polls ≤ length (nonempty chunks)
      → count_there polls < u64_mod
      → let (bytes, ended, _, _) =
          copy (Fault (Fault (IoError V.Error))) (get ref) read_stream polls c' in
        (bytes ≡ concat (take (count_there polls) (nonempty chunks))) × (ended ≡ none)
  write-read I k chunks polls c c' kept (inner, at, is_open) empty e inside room =
      let (_, feed, held, _) = kept.reads ref inner at is_open in
      let (run, leads) = write-runs I ref chunks c c' feed e (inner, at, held) in
      let start = empty feed (inner, at, held) in
      let there : (i : ℕ) (b : Bytes)
          → get_elem? (nonempty chunks) i ≡ some b
          → (F.get feed i c'.remote.store).0 ≡ ok (some b) =
        λ i b h.
          ap (λ n. (F.get feed n c'.remote.store).0) (omega (arith, start))
          ∙ append_all-reads laws feed (nonempty chunks) c.remote c'.remote i b run h in
      read-Holds feed (nonempty chunks) polls c' inside room (leads, there)

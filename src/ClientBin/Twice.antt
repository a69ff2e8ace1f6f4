-- ===== src/ClientBin/Twice.antt =====
-- Two runs of the program with one name, on one server: the first one writes, the second one reads.
use hyperspace_rs.Base.{
  ℕ, ◌<◌, ◌≤◌, ◌≡◌, refl, ap, ap₂, sym, ◌∙◌, subst, List, [], ◌∷◌, map, none, some, Bool, Bytes,
  Result, ok, Fault, length, take, concat, get_elem?, u64_mod, arith, Preserves, >>=-Preserves,
}
use hyperspace_rs.FeedMap.Invariant.{IsValid}
use hyperspace_rs.Corestore.{Env, World}
use hyperspace_rs.Corestore.Opening.{get_by_name}
use hyperspace_rs.Corestore.Named.{get_by_name-again}
use hyperspace_rs.Session.{Feeds, IoError}
use hyperspace_rs.Session.Handlers.{append_all, on_store}
use hyperspace_rs.RemoteCore.{Client, SeekRequest, SeekResponse}
use hyperspace_rs.RemoteCore.Methods.{get}
use hyperspace_rs.RemoteCore.Sessions.{open_by_name}
use hyperspace_rs.EndToEnd.{served}
use hyperspace_rs.EndToEnd.Calls.{start}
use hyperspace_rs.EndToEnd.Written.{FeedLaws, append_all-reads}
use hyperspace_rs.EndToEnd.ByName.{open_by_name-Leads, open_by_name-opens}
use hyperspace_rs.ClientBin.{open_from, write, read_stream, map_fault}
use hyperspace_rs.ClientBin.Writing.{nonempty, write-runs, map_fault-ok}
use hyperspace_rs.ClientBin.Reading.{copy, count_there}
use hyperspace_rs.ClientBin.Echo.{KeepsBlocks, read-Holds}

-- Appending leaves the corestore alone.
append_all-corestore :
    {V : Env} {F : Feeds V} (w : World V) (feed : V.api.Feed) (blocks : List Bytes)
    → Preserves (λ s. s.corestore ≡ w) (append_all {V = V} {F = F} feed blocks)
unfolding append_all
append_all-corestore w feed [] = λ s h. h
append_all-corestore {F = F} w feed (block ∷ blocks) =
    >>=-Preserves (λ s. s.corestore ≡ w) (on_store (F.append feed block))
      (λ _. append_all feed blocks) (λ s h. h) (λ _. append_all-corestore w feed blocks)

module _ {V : Env} {F : Feeds V} {hex : Bytes → Bytes}
    {seeks : SeekRequest → Result (Fault (IoError V.Error)) SeekResponse} (laws : FeedLaws F)
    (keeps : KeepsBlocks F) (I : Type 0) where
  -- When a program has opened a core by name and written its input to it, a later program that is
  -- given the name opens the same feed on a session of its own, and puts out again what was
  -- written: as many polls as find their block there give that many of the chunks that were not
  -- empty, whole and in their order, and the stream goes on. The map of feeds is valid, the feed
  -- was empty, the feeds keep what is appended to them, also when blocks are got from them, and
  -- fewer than 2^64 are asked for.
  pub write-read_again :
      (unhex : Bytes → Result I Bytes) (name : Bytes) (chunks : List Bytes)
      (polls : List (Bool × ℕ)) (w : World V) (store : F.Store) (ref : ℕ)
      (c c' : Client (served F hex seeks))
      → IsValid w.store.feeds
      → ((f : V.api.Feed) (w' : World V) → get_by_name name w ≡ (ok f, w') → F.len f store ≡ 0)
      → open_from (served F hex seeks) I unhex none (some name) (start F hex seeks w store)
        ≡ (ok ref, c)
      → write (served F hex seeks) I ref (map ok chunks) c ≡ (ok tt, c')
      → count_there polls ≤ length (nonempty chunks)
      → count_there polls < u64_mod
      → (later : Client (served F hex seeks)) × (open_from
            (served F hex seeks)
            I
            unhex
            none
            (some name)
            (start F hex seeks c'.remote.corestore c'.remote.store)
          ≡ (ok 0, later))
        × let (bytes, ended, _, _) =
            copy (Fault (Fault (IoError V.Error))) (get 0) read_stream polls later in
          (bytes ≡ concat (take (count_there polls) (nonempty chunks))) × (ended ≡ none)
  unfolding open_from
  write-read_again unhex name chunks polls w store ref c c' valid empty e wrote inside room =
      let opened =
        ap₂ (λ r x. (r, x))
          (map_fault-ok (open_by_name name (start F hex seeks w store)).0 (ap (λ x. x.0) e))
          (ap (λ x. x.1) e) in
      let (f, got, same, leads) = open_by_name-Leads F hex seeks name w store c ref opened in
      let (run, _) = write-runs I ref chunks c c' f wrote leads in
      let kept : c'.remote.corestore ≡ c.remote.corestore =
        ap (λ x. x.1.corestore) (sym run)
        ∙ append_all-corestore c.remote.corestore f (nonempty chunks) c.remote refl in
      let again =
        subst (λ x. get_by_name name x ≡ (ok f, x)) (sym kept)
          (get_by_name-again name w c.remote.corestore f valid got) in
      let (later, opens, as_left, leads') =
        open_by_name-opens F hex seeks name c'.remote.corestore c'.remote.store f
          c'.remote.corestore again in
      let start_len : F.len f c.remote.store ≡ 0 =
        ap (F.len f) same ∙ empty f c.remote.corestore got in
      let there : (i : ℕ) (b : Bytes)
          → get_elem? (nonempty chunks) i ≡ some b
          → (F.get f i later.remote.store).0 ≡ ok (some b) =
        λ i b h.
          ap (λ s. (F.get f i s).0) as_left
          ∙ ap (λ n. (F.get f n c'.remote.store).0) (omega (arith, start_len))
          ∙ append_all-reads laws f (nonempty chunks) c.remote c'.remote i b run h in
      (
        later,
        ap (λ x. (map_fault x.0, x.1)) opens,
        read-Holds laws keeps 0 f (nonempty chunks) polls later inside room (leads', there),
      )

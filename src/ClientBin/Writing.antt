-- ===== src/ClientBin/Writing.antt =====
-- What `write` leaves in the feed.
use hyperspace_rs.Base.{
  ℕ, ltb, ◌+◌, ◌≡◌, ap, ap₂, sym, ◌∙◌, List, [], ◌∷◌, map, length, some, true, Bytes, Result, ok,
  err, Fault, get_elem?, subst, >>=-ok, >>=-inv, arith, pure, if◌then◌else◌,
}
use hyperspace_rs.Corestore.{Env}
use hyperspace_rs.Session.{Feeds, IoError, Session}
use hyperspace_rs.Session.Handlers.{append_all, on_store}
use hyperspace_rs.RemoteCore.{Client, SeekRequest, SeekResponse}
use hyperspace_rs.RemoteCore.Methods.{append_blocks, get}
use hyperspace_rs.RemoteCore.Cores.{IsOpen}
use hyperspace_rs.EndToEnd.{served}
use hyperspace_rs.EndToEnd.Kept.{Kept}
use hyperspace_rs.EndToEnd.Written.{
  FeedLaws, Leads, append_blocks-runs, append_all-reads, get-Leads,
}
use hyperspace_rs.ClientBin.{write, append_chunk, on_core, map_fault}

-- The reads of the input that gave bytes.
abbrev pub nonempty : List Bytes → List Bytes
nonempty [] = []
nonempty ([] ∷ chunks) = nonempty chunks
nonempty ((b ∷ bs) ∷ chunks) = (b ∷ bs) ∷ nonempty chunks

pub map_fault-ok :
    {E I A : Type 0} (r : Result (Fault E) A) {a : A} → map_fault {I = I} r ≡ ok a → r ≡ ok a
map_fault-ok (ok b) e = ground (arith, e)
map_fault-ok (err (Fault.failed x)) e = absurd (ground (arith, e))
map_fault-ok (err Fault.panicked) e = absurd (ground (arith, e))

append_all-cons :
    {V : Env} {F : Feeds V} (feed : V.api.Feed) (block : Bytes) (blocks : List Bytes)
    (s t u : Session V F)
    → append_all feed (block ∷ []) s ≡ (ok tt, t)
    → append_all feed blocks t ≡ (ok tt, u)
    → append_all feed (block ∷ blocks) s ≡ (ok tt, u)
unfolding append_all
append_all-cons {F = F} feed block blocks s t u first rest =
    let (_, v, p, q) = >>=-inv (on_store (F.append feed block)) (λ _. append_all feed []) first in
    >>=-ok (on_store (F.append feed block)) (λ _. append_all feed blocks) p
    ∙ ap (append_all feed blocks) (ap (λ x. x.1) q)
    ∙ rest

module _ {V : Env} {F : Feeds V} {hex : Bytes → Bytes}
    {seeks : SeekRequest → Result (Fault (IoError V.Error)) SeekResponse} (I : Type 0) where
  chunk-runs :
      (ref : ℕ) (chunk : Bytes) (c c' : Client (served F hex seeks)) (feed : V.api.Feed)
      → on_core (served F hex seeks) I (append_blocks ref (chunk ∷ [])) c ≡ (ok tt, c')
      → Leads c ref feed
      → (append_all feed (chunk ∷ []) c.remote ≡ (ok tt, c'.remote)) × Leads c' ref feed
  chunk-runs ref chunk c c' feed e (inner, at, held) =
      let run = map_fault-ok (append_blocks ref (chunk ∷ []) c).0 (ap (λ x. x.0) e) in
      let (feed', inner', (old, at', held'), all, there, leads, _) =
        append_blocks-runs ref (chunk ∷ []) c c' (ap₂ (λ r x. (r, x)) run (ap (λ x. x.1) e)) in
      let same : feed' ≡ feed = ground (arith, at, at', held, held') in
      (
        ap (λ f. append_all f (chunk ∷ []) c.remote) (sym same) ∙ all,
        (inner', there, leads ∙ ap some same),
      )

  pub write-runs :
      (ref : ℕ) (chunks : List Bytes) (c c' : Client (served F hex seeks)) (feed : V.api.Feed)
      → write (served F hex seeks) I ref (map ok chunks) c ≡ (ok tt, c')
      → Leads c ref feed
      → (append_all feed (nonempty chunks) c.remote ≡ (ok tt, c'.remote)) × Leads c' ref feed
  unfolding write append_chunk append_all
  write-runs ref [] c c' feed e leads =
      (ap (λ x. (ok tt, x.1.remote)) e, subst (λ x. Leads x.1 ref feed) e leads)
  write-runs ref ([] ∷ chunks) c c' feed e leads = write-runs ref chunks c c' feed e leads
  write-runs ref ((b ∷ bs) ∷ chunks) c c' feed e leads =
      let (_, t, p, q) =
        >>=-inv (append_chunk (served F hex seeks) I ref (b ∷ bs))
          (λ _. write (served F hex seeks) I ref (map ok chunks)) e in
      let there : ltb 0 (length (b ∷ bs)) ≡ true = ground arith in
      let appended =
        sym (
          ap
            (λ x.
              (if x
                  then on_core (served F hex seeks) I (append_blocks ref ((b ∷ bs) ∷ []))
                  else pure tt)
                c)
            there)
        ∙ p in
      let (first, on) = chunk-runs ref (b ∷ bs) c t feed appended leads in
      let (rest, last) = write-runs ref chunks t c' feed q on in
      (append_all-cons feed (b ∷ bs) (nonempty chunks) c.remote t.remote c'.remote first rest, last)

  -- As long as the input can be read and the session takes what is appended, `write` has put the
  -- chunks that the reads gave into the feed, one block each, in their order and without those that
  -- were empty: the client gets them back behind what the feed held before. The core is open, the
  -- client and its session belong together, and the feeds keep what is appended to them.
  write-get :
      FeedLaws F
      → (k ref : ℕ) (chunks : List Bytes) (c c' : Client (served F hex seeks)) → Kept k c
      → IsOpen c ref
      → write (served F hex seeks) I ref (map ok chunks) c ≡ (ok tt, c')
      → (n : ℕ) × ((i : ℕ) (b : Bytes)
          → get_elem? (nonempty chunks) i ≡ some b
          → (get ref (n + i) c').0 ≡ ok (some b))
  write-get laws k ref chunks c c' kept (inner, at, is_open) e =
      let (_, feed, held, _) = kept.reads ref inner at is_open in
      let (run, leads) = write-runs ref chunks c c' feed e (inner, at, held) in
      (
        F.len feed c.remote.store,
        λ i b in_chunks.
            get-Leads ref (F.len feed c.remote.store + i) c' feed b leads
              (append_all-reads laws feed (nonempty chunks) c.remote c'.remote i b run in_chunks),
      )

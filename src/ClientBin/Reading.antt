-- ===== src/ClientBin/Reading.antt =====
-- What `read` copies to the output.
use mathlib.Core.Option
use hyperspace_rs.Base.{
  ℕ, suc, ◌+◌, ◌<◌, ◌≤◌, ◌==◌, ◌≡◌, refl, ap, sym, ◌∙◌, List, [], ◌∷◌, ◌++◌, map, Option, none,
  some, Bool, true, false, Bytes, Result, ok, err, arith, u64_mod, range_from, concat,
  if◌then◌else◌,
}
use hyperspace_rs.ReadStream.{
  Poll, pending, ready, ReadStream, GetOutput, get_future, onappend_future, new, poll_next,
  transpose,
}
use hyperspace_rs.ReadStream.Range.{seq_of}
use hyperspace_rs.ReadStream.Wait.{poll_next_live}
use hyperspace_rs.ClientBin.{read_stream}

-- The polls whose block is there; each poll is given with the length that the core has then.
abbrev pub count_there : List (Bool × ℕ) → ℕ
count_there [] = 0
count_there ((true, len) ∷ polls) = suc (count_there polls)
count_there ((false, len) ∷ polls) = count_there polls

abbrev pub written : {E : Type 0} → Poll (Option (Result E Bytes)) → Bytes
written pending = []
written (ready none) = []
written (ready (some (ok block))) = block
written (ready (some (err e))) = []

-- How the copying ends after a poll, if it does: at the end of the stream, or with an error.
abbrev pub ending : {E : Type 0} → Poll (Option (Result E Bytes)) → Option (Result E (Unit {0}))
ending pending = none
ending (ready none) = some (ok tt)
ending (ready (some (ok block))) = none
ending (ready (some (err e))) = some (err e)

-- The future gets the block of the stream's index.
seq_next : (b : Bool) (i : ℕ) → seq_of (if b then onappend_future i else get_future i) ≡ i
seq_next true i = refl
seq_next false i = refl

poll_next-live :
    {E : Type 0} (s : ReadStream) (result : GetOutput E) (len : ℕ)
    → (poll_next s (ready result) len).1.live ≡ s.live
unfolding poll_next
poll_next-live s result len = ground arith

-- A source of blocks, as the stream's futures ask it: what it answers, and its state after that.
module _ {S : Type 0} (E : Type 0) (ask : ℕ → S → GetOutput E × S) where
  -- What a poll answers: nothing yet, or what the future gets.
  unfoldable pub answer : ReadStream → Bool → S → Poll (GetOutput E) × S
  answer s true c = let (result, c') = ask (seq_of s.future) c in (ready result, c')
  answer s false c = (pending, c)

  -- What a poll writes, and what the ones after it do unless it is the last.
  abbrev go_on :
      Poll (Option (Result E Bytes))
      → Bytes × Option (Result E (Unit {0})) × ReadStream × S
      → ReadStream × S
      → Bytes × Option (Result E (Unit {0})) × ReadStream × S
  go_on polled (bytes, ended, s, c) state = elim (ending polled) [
    | none ↦ (written polled ++ bytes, ended, s, c)
    | some result ↦ (written polled, some result, state.0, state.1)
  ]

  -- `copy`: what a sequence of polls writes to an output that takes it, and how it has ended.
  unfoldable pub copy :
      ReadStream → List (Bool × ℕ) → S → Bytes × Option (Result E (Unit {0})) × ReadStream × S
  copy s [] c = ([], none, s, c)
  copy s ((there, len) ∷ polls) c =
      let (asked, c') = answer s there c in
      let (polled, s') = poll_next s asked len in
      let rest = copy s' polls c' in go_on polled rest (s', c')

  -- The blocks below `end` are there, and stay so.
  abbrev pub Gives : (ℕ → Bytes) → ℕ → (S → Type 0) → Type 0
  Gives block end P =
      (q : ℕ) (c : S) → q < end → P c → ((ask q c).0 ≡ ok (some (block q))) × P (ask q c).1

  module _ (block : ℕ → Bytes) (end : ℕ) (P : S → Type 0) (gives : Gives block end P) where
    copy_waits :
        (s : ReadStream) (len : ℕ)
        → s.finished ≡ false
        → poll_next {E = E} s pending len ≡ (pending, s)
    unfolding poll_next
    copy_waits s len unfinished = rw unfinished

    copy_live :
        (polls : List (Bool × ℕ)) (s : ReadStream) (c : S)
        → s.live ≡ true
        → s.finished ≡ false
        → seq_of s.future ≡ s.index
        → s.index + count_there polls < u64_mod
        → s.index + count_there polls ≤ end
        → P c
        → ((copy s polls c).0 ≡ concat (map block (range_from s.index (count_there polls))))
          × ((copy s polls c).1 ≡ none)
    unfolding copy answer concat
    copy_live [] s c live unfinished at room inside p = (refl, refl)
    copy_live ((false, len) ∷ polls) s c live unfinished at room inside p =
        let same = copy_waits s len unfinished in
        let (bytes, last) = copy_live polls s c live unfinished at room inside p in
        (
          ap (λ r. (go_on r.0 (copy r.1 polls c) (r.1, c)).0) same ∙ bytes,
          ap (λ r. (go_on r.0 (copy r.1 polls c) (r.1, c)).1) same ∙ last,
        )
    copy_live ((true, len) ∷ polls) s c live unfinished at room inside p =
        let (result, c') = ask (seq_of s.future) c in
        let s' = (poll_next s (ready result) len).1 in
        let (given, p') = gives (seq_of s.future) c (omega (arith, at)) p in
        let (polled, unfinished', index, future) =
          poll_next_live s len result live unfinished (omega arith) in
        let at' : seq_of s'.future ≡ s'.index =
          ap seq_of future
          ∙ seq_next (Option.get_or s.end len == s.index + 1) (s.index + 1)
          ∙ sym index in
        let (bytes, last) =
          copy_live polls s' c' (poll_next-live s result len ∙ live) unfinished' at'
            (omega (arith, index)) (omega (arith, index)) p' in
        let one : (poll_next s (ready result) len).0 ≡ ready (some (ok (block s.index))) =
          polled ∙ ap (λ r. ready (transpose r)) given ∙ ap (λ i. ready (some (ok (block i)))) at in
        (
          ap (λ r. (go_on r (copy s' polls c') (s', c')).0) one
              ∙ ap (λ bs. block s.index ++ bs)
                  (bytes ∙ ap (λ i. concat (map block (range_from i (count_there polls)))) index),
          ap (λ r. (go_on r (copy s' polls c') (s', c')).1) one ∙ last,
        )

    -- As long as the blocks that are asked for arrive, `read` writes the blocks from the first one
    -- on, whole, in order and without end, whatever the length of the core is at each poll and
    -- however many polls find their block not there yet. The source has all these blocks, and
    -- there are fewer than 2^64.
    pub read_copies :
        (polls : List (Bool × ℕ)) (c : S)
        → count_there polls < u64_mod
        → count_there polls ≤ end
        → P c
        → ((copy read_stream polls c).0 ≡ concat (map block (range_from 0 (count_there polls))))
          × ((copy read_stream polls c).1 ≡ none)
    unfolding read_stream new
    read_copies polls c room inside p =
        copy_live polls read_stream c refl refl refl (omega arith) (omega arith) p

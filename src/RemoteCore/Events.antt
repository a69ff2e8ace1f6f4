-- ===== src/RemoteCore/Events.antt =====
-- The events of the remote end: which core gets them, and what they do to it.
use mathlib.Core.Option
use Prim.Native.Nat.{max}
use hyperspace_rs.Base.{
  ℕ, ◌+◌, ◌==◌, ◌<◌, ◌≡◌, refl, ap, sym, ◌∙◌, List, Option, some, if◌then◌else◌, get_elem?, arith,
  Bool-cases, inl, inr, u64_mod, add64-eq, tell_all,
}
use hyperspace_rs.FreeMap
use hyperspace_rs.RemoteCore.{Remote, Client, InnerHypercore, download}
use hyperspace_rs.RemoteCore.Methods.{update_at, on_append, on_download, emit}
use hyperspace_rs.RemoteCore.Sessions.{append_event, download_event, to_session}
use hyperspace_rs.RemoteCore.Cores.{get_elem?-update_at, get_elem?-update_at_other}
use hyperspace_rs.RemoteCore.Linked.{IsLinked}

-- The cores after a change of one of them.
pub update_at-reads :
    (ref : ℕ) (f : InnerHypercore → InnerHypercore) (cores : List InnerHypercore)
    {inner : InnerHypercore} (j : ℕ)
    → get_elem? cores ref ≡ some inner
    → get_elem? (update_at ref f cores) j ≡ (if ref == j then some (f inner) else get_elem? cores j)
update_at-reads ref f cores {inner} j at = elim (Bool-cases (ref == j)) [
  | inl h ↦
      let here : ref ≡ j = ground (arith, h) in
      ap (get_elem? (update_at ref f cores)) (sym here)
      ∙ get_elem?-update_at ref f cores at
      ∙ ground (arith, h)
  | inr h ↦ get_elem?-update_at_other ref j f cores h ∙ ground (arith, h)
]

module _ {R : Remote} where
  -- An event for the id of a session changes the core of that session, which is the core that
  -- knows the id, and no other core, for appends and downloads alike. The sessions are linked.
  event-routes :
      (id ref : ℕ) (c : Client R)
      → IsLinked c
      → FreeMap.get c.sessions id ≡ some ref
      → (inner : InnerHypercore) × (inner.id ≡ id)
        × (get_elem? c.cores ref ≡ some inner)
        × ((length byte_length j : ℕ)
            → get_elem? (append_event id length byte_length c).1.cores j ≡ (
                if ref == j
                then some (on_append length byte_length inner)
                else get_elem? c.cores j))
        × ((seq : ℕ) (byte_length : Option ℕ) (j : ℕ)
            → get_elem? (download_event id seq byte_length c).1.cores j ≡ (
                if ref == j then some (on_download seq byte_length inner) else get_elem? c.cores j))
  unfolding append_event download_event to_session
  event-routes id ref c linked at =
      let (inner, here, known) = linked id ref at in
      (
        inner,
        known,
        here,
        (λ length byte_length j.
            ap (λ o. get_elem? (to_session o (on_append length byte_length) c).1.cores j) at
            ∙ update_at-reads ref (on_append length byte_length) c.cores j here),
        λ seq byte_length j.
            ap (λ o. get_elem? (to_session o (on_download seq byte_length) c).1.cores j) at
            ∙ update_at-reads ref (on_download seq byte_length) c.cores j here,
      )

-- A download makes the core at least as long as to hold the block and never shorter, keeps its
-- id and its key, and is told once to each listener that is still there, and to no other. The
-- block's end is below the bound of a u64.
on_download-grows :
    (seq : ℕ) (byte_length : Option ℕ) (inner : InnerHypercore)
    → seq + 1 < u64_mod
    → let after = on_download seq byte_length inner in
      (after.length ≡ max inner.length (seq + 1))
      × (after.byte_length ≡ Option.get_or byte_length inner.byte_length)
      × (after.id ≡ inner.id)
      × (after.key ≡ inner.key)
      × (after.listeners ≡ tell_all (download seq) inner.listeners)
unfolding on_download emit
on_download-grows seq byte_length inner room =
    (rw (add64-eq seq 1 room) (ground arith), refl, refl, refl, refl)

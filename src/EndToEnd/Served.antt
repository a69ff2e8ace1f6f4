-- ===== src/EndToEnd/Served.antt =====
-- What ties the cores of a client to the feeds of its session.
use hyperspace_rs.Base.Maps
use hyperspace_rs.Base.{
  ℕ, zero, suc, ◌<◌, ◌==◌, ◌≡◌, ◌≢◌, ◌^◌, refl, ap, sym, ◌∙◌, List, [], ◌∷◌, some, true, Bytes,
  get_elem?, arith, Bool-cases, inl, inr, ℕ_discrete, HashMap,
}
use hyperspace_rs.FreeMap
use hyperspace_rs.Corestore.{Env}
use hyperspace_rs.RemoteCore.{InnerHypercore}
use hyperspace_rs.RemoteCore.Methods.{as_u32, update_at}
use hyperspace_rs.RemoteCore.Cores.{get_elem?-update_at_other}

update_at-inv :
    {A : Type 0} (i : ℕ) (f : A → A) (xs : List A) {y : A}
    → get_elem? (update_at i f xs) i ≡ some y
    → (x : A) × (get_elem? xs i ≡ some x) × (y ≡ f x)
update_at-inv i f [] e = absurd (ground (arith, e))
update_at-inv zero f (x ∷ xs) e = (x, refl, ground (arith, e))
update_at-inv (suc i) f (x ∷ xs) e = update_at-inv i f xs e

-- The feeds of a session, in the state of its remote end.
module _ (V : Env) where
  -- The core at the reference is that of its session, and the feed that the session's remote end
  -- has under the id is the feed of the core's key.
  abbrev pub Reads : FreeMap.InnerMap Bytes ℕ → HashMap ℕ V.api.Feed → ℕ → InnerHypercore → Type 0
  Reads sessions feeds ref inner =
      (FreeMap.get sessions inner.id ≡ some ref)
      × (feed : V.api.Feed) × (Maps.get ℕ_discrete (as_u32 inner.id) feeds ≡ some feed)
      × (inner.key ≡ some (V.public_key feed))

  abbrev pub AllRead :
      FreeMap.InnerMap Bytes ℕ → HashMap ℕ V.api.Feed → List InnerHypercore → Type 0
  AllRead sessions feeds cores =
      (ref : ℕ) (inner : InnerHypercore)
      → get_elem? cores ref ≡ some inner
      → inner.is_open ≡ true
      → Reads sessions feeds ref inner

  Reads-same :
      (sessions : FreeMap.InnerMap Bytes ℕ) (feeds : HashMap ℕ V.api.Feed) (ref : ℕ)
      (old new : InnerHypercore)
      → new.id ≡ old.id
      → new.key ≡ old.key
      → Reads sessions feeds ref old
      → Reads sessions feeds ref new
  Reads-same sessions feeds ref old new id key (held, feed, at, keyed) = (
    ap (FreeMap.get sessions) id ∙ held,
    feed,
    ap (λ i. Maps.get ℕ_discrete (as_u32 i) feeds) id ∙ at,
    key ∙ keyed,
  )

  -- A core is changed in what it knows of its feed's length.
  pub AllRead-update_at :
      (at : ℕ) (f : InnerHypercore → InnerHypercore) (sessions : FreeMap.InnerMap Bytes ℕ)
      (feeds : HashMap ℕ V.api.Feed) (cores : List InnerHypercore)
      → ((inner : InnerHypercore)
          → ((f inner).id ≡ inner.id)
            × ((f inner).key ≡ inner.key)
            × ((f inner).is_open ≡ inner.is_open))
      → AllRead sessions feeds cores
      → AllRead sessions feeds (update_at at f cores)
  AllRead-update_at at f sessions feeds cores same all ref inner e is_open =
      elim (Bool-cases (at == ref)) [
        | inr h ↦ all ref inner (sym (get_elem?-update_at_other at ref f cores h) ∙ e) is_open
        | inl h ↦
            let here : at ≡ ref = ground (arith, h) in
            let (old, was, changed) =
              update_at-inv ref f cores
                (ap (λ i. get_elem? (update_at i f cores) ref) (sym here) ∙ e) in
            let (id, key, open_too) = same old in
            Reads-same sessions feeds ref old inner (ap (λ x. x.id) changed ∙ id)
              (ap (λ x. x.key) changed ∙ key)
              (all ref old was (sym open_too ∙ ap (λ x. x.is_open) (sym changed) ∙ is_open))
      ]

  -- An id is given a feed and the core of that id opens with the feed's key: ids that a u32 holds
  -- apart are apart for the session.
  pub AllRead-opened :
      (at id : ℕ) (f : InnerHypercore → InnerHypercore) (feed : V.api.Feed)
      (sessions : FreeMap.InnerMap Bytes ℕ) (feeds : HashMap ℕ V.api.Feed)
      (cores : List InnerHypercore)
      → ((i r : ℕ) → FreeMap.get sessions i ≡ some r → i < 2 ^ 32)
      → FreeMap.get sessions id ≡ some at
      → ((inner : InnerHypercore) → get_elem? cores at ≡ some inner → inner.id ≡ id)
      → ((inner : InnerHypercore)
          → ((f inner).id ≡ inner.id) × ((f inner).key ≡ some (V.public_key feed)))
      → AllRead sessions feeds cores
      → AllRead sessions (Maps.insert ℕ_discrete (as_u32 id) feed feeds) (update_at at f cores)
  AllRead-opened at id f feed sessions feeds cores small held known opens all ref inner e is_open =
      elim (Bool-cases (at == ref)) [
        | inr h ↦
            let (there, other, found, keyed) =
              all ref inner (sym (get_elem?-update_at_other at ref f cores h) ∙ e) is_open in
            let apart : id ≢ inner.id = λ same. ground (arith, h, held, there, same) in
            (
              there,
              other,
              Maps.get-insert ℕ_discrete (as_u32 inner.id) (as_u32 id) feed feeds
                  ∙ ground (arith, found, small id at held, small inner.id ref there, apart),
              keyed,
            )
        | inl h ↦
            let here : at ≡ ref = ground (arith, h) in
            let (old, was, changed) =
              update_at-inv at f cores (ap (get_elem? (update_at at f cores)) here ∙ e) in
            let (id_kept, key) = opens old in
            let its = ap (λ x. x.id) changed ∙ id_kept ∙ known old was in
            (
              ap (FreeMap.get sessions) its ∙ held ∙ ap some here,
              feed,
              ap
                    (λ i.
                      Maps.get ℕ_discrete (as_u32 i)
                        (Maps.insert ℕ_discrete (as_u32 id) feed feeds))
                    its
                  ∙ Maps.get-insert ℕ_discrete (as_u32 id) (as_u32 id) feed feeds
                  ∙ ground arith,
              ap (λ x. x.key) changed ∙ key,
            )
      ]

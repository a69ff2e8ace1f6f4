-- ===== src/Session/Opening.antt =====
-- Opening a feed under an id, and reading through the id.
use hyperspace_rs.Base.Maps
use hyperspace_rs.Base.{
  ℕ, ◌≡◌, ap, sym, ◌∙◌, some, ok, >>=-inv, >>=-ok, ℕ_discrete, arith, ok-injective,
}
use hyperspace_rs.Corestore.{Env}
use hyperspace_rs.Session.{Feeds, Session, OpenRequest, OpenResponse}
use hyperspace_rs.Session.Handlers.{
  core_of, or_bad_id, get, open_core, open_with, open_response, add_core, feed_for, on_store,
  map_err,
}

module _ {V : Env} {F : Feeds V} where
  -- A feed that was opened under an id: the answer has its key and its length, the id leads to it
  -- from then on, and what is read under the id is what that feed gives.
  open_core-reads :
      (req : OpenRequest) (s s' : Session V F) (res : OpenResponse)
      → open_core req s ≡ (ok res, s')
      → (feed : V.api.Feed) × (res.key ≡ V.public_key feed)
        × (res.length ≡ F.len feed s'.store)
        × ((seq : ℕ)
            → get req.id seq s' ≡ (
              map_err (F.get feed seq s'.store).0,
              record s' { store = (F.get feed seq s'.store).1 },
            ))
        × (Maps.get ℕ_discrete req.id s'.cores ≡ some feed)
  unfolding open_core open_with open_response add_core get core_of
  open_core-reads req s s' res e =
      let (feed, t, p, q) = >>=-inv (feed_for req.name req.key) (open_with req.id) e in
      let done = ap (λ x. x.1) q in
      let given = ok-injective (ap (λ x. x.0) q) in
      let held : Maps.get ℕ_discrete req.id s'.cores ≡ some feed =
        ap (λ x. Maps.get ℕ_discrete req.id x.cores) (sym done)
        ∙ Maps.get-insert ℕ_discrete req.id req.id feed t.cores
        ∙ ground arith in
      (
        feed,
        ap (λ x. x.key) (sym given),
        ap (λ x. x.length) (sym given) ∙ ap (λ x. F.len feed x.store) done,
        (λ seq.
            >>=-ok (core_of req.id) (λ f. on_store (F.get f seq)) (ap (λ o. or_bad_id o s') held)),
        held,
      )

-- ===== src/RemoteCore/Cores.antt =====
-- A change of one core in the store, and the opening of a core.
use hyperspace_rs.Base.{
  ℕ, zero, suc, ◌<◌, ◌≡◌, refl, ap, sym, subst, ◌∙◌, List, [], ◌∷◌, some, Bool, true, false, ◌==◌,
  ok, unwrap, >>=-inv, >>=-ok, length, get_elem?, arith, Option-cases, inl, inr,
}
use hyperspace_rs.RemoteCore.{Remote, Client, InnerHypercore, OpenRequest}
use hyperspace_rs.RemoteCore.Methods.{
  update_at, read, write, call, open_core, open_inner, open_unless, opened, as_u32,
}

module _ {A : Type 0} where
  pub get_elem?-update_at :
      (i : ℕ) (f : A → A) (xs : List A) {x : A}
      → get_elem? xs i ≡ some x
      → get_elem? (update_at i f xs) i ≡ some (f x)
  get_elem?-update_at i f [] e = absurd (ground (arith, e))
  get_elem?-update_at zero f (y ∷ ys) e = ground (arith, e)
  get_elem?-update_at (suc i) f (y ∷ ys) e = get_elem?-update_at i f ys e

  pub get_elem?-update_at_other :
      (i j : ℕ) (f : A → A) (xs : List A)
      → (i == j) ≡ false
      → get_elem? (update_at i f xs) j ≡ get_elem? xs j
  get_elem?-update_at_other i j f [] e = refl
  get_elem?-update_at_other zero zero f (y ∷ ys) e = absurd (ground (arith, e))
  get_elem?-update_at_other zero (suc j) f (y ∷ ys) e = refl
  get_elem?-update_at_other (suc i) zero f (y ∷ ys) e = refl
  get_elem?-update_at_other (suc i) (suc j) f (y ∷ ys) e =
      get_elem?-update_at_other i j f ys (ground (arith, e))

  pub get_elem?-bound : (xs : List A) (i : ℕ) {x : A} → get_elem? xs i ≡ some x → i < length xs
  get_elem?-bound [] i e = absurd (ground (arith, e))
  get_elem?-bound (y ∷ ys) zero e = omega arith
  get_elem?-bound (y ∷ ys) (suc i) e = omega (arith, get_elem?-bound ys i e)

module _ {R : Remote} where
  -- The core at the reference is open.
  abbrev pub IsOpen : Client R → ℕ → Type 0
  IsOpen c ref =
      (inner : InnerHypercore) × (get_elem? c.cores ref ≡ some inner) × (inner.is_open ≡ true)

  pub read-ok :
      (ref : ℕ) (c c' : Client R) (inner : InnerHypercore)
      → read ref c ≡ (ok inner, c')
      → (get_elem? c.cores ref ≡ some inner) × (c' ≡ c)
  read-ok ref c c' inner e = elim (Option-cases (get_elem? c.cores ref)) [
    | inl p ↦ absurd (ground (arith, ap (λ x. x.0) (sym (ap (λ o. unwrap o c) p) ∙ e)))
    | inr (i, p) ↦
        let q = sym (ap (λ o. unwrap o c) p) ∙ e in
        (ground (arith, p, ap (λ x. x.0) q), sym (ap (λ x. x.1) q))
  ]

  pub read-eq :
      (ref : ℕ) (c : Client R) {inner : InnerHypercore}
      → get_elem? c.cores ref ≡ some inner
      → read ref c ≡ (ok inner, c)
  read-eq ref c e = ap (λ o. unwrap o c) e

  -- A core that is open is left alone: the remote end is not called.
  pub open_core-again : (ref : ℕ) (c : Client R) → IsOpen c ref → open_core ref c ≡ (ok tt, c)
  unfolding open_core open_unless
  open_core-again ref c (inner, at, is_open) =
      >>=-ok (read ref) (λ i. open_unless ref i i.is_open) (read-eq ref c at)
      ∙ ap (λ b. open_unless ref inner b c) is_open

  -- The sessions stay as they are, and a core that was opened is open.
  pub open_core-ok :
      (ref : ℕ) (c c' : Client R)
      → open_core ref c ≡ (ok tt, c')
      → (c'.sessions ≡ c.sessions) × IsOpen c' ref
  unfolding open_core open_unless open_inner
  open_core-ok ref c c' e =
      let (inner, t, p, q) = >>=-inv (read ref) (λ i. open_unless ref i i.is_open) e in
      let (at, same) = read-ok ref c t inner p in
      from_unless inner at inner.is_open refl
        (subst (λ x. open_unless ref inner inner.is_open x ≡ (ok tt, c')) same q)
    where
      from_unless :
          (inner : InnerHypercore)
          → get_elem? c.cores ref ≡ some inner
          → (b : Bool) → inner.is_open ≡ b
          → open_unless ref inner b c ≡ (ok tt, c')
          → (c'.sessions ≡ c.sessions) × IsOpen c' ref
      from_unless inner at true is_open h =
          let same = sym (ap (λ x. x.1) h) in
          (ap (λ x. x.sessions) same, subst (λ x. IsOpen x ref) (sym same) (inner, at, is_open))
      from_unless inner at false is_open h =
          let request : OpenRequest = record {
            id = as_u32 inner.id;
            key = inner.key;
            name = inner.name;
          } in
          let (res, u, p, q) =
            >>=-inv (call (R.open_feed request)) (λ r. write ref (opened r)) {s = c} h in
          let called = sym (ap (λ x. x.1) p) in
          let written = sym (ap (λ x. x.1) q) in
          (
            ap (λ x. x.sessions) written ∙ ap (λ x. x.sessions) called,
            (
              opened res inner,
              ap (λ x. get_elem? x.cores ref) written
                  ∙ get_elem?-update_at ref (opened res) u.cores
                      (ap (λ x. get_elem? x.cores ref) called ∙ at),
              refl,
            ),
          )

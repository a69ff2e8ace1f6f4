-- ===== src/Base/Actions.antt =====
-- Async methods on a state: the result and the state after it. What was done before an error
-- stays done.
use mathlib.Core.Path.{◌≡◌, refl, ap}
use mathlib.Core.Option.{Option, none, some}
use hyperspace_rs.Base.Outcome.{Result, ok, err}

-- What can end a method: an error that `?` passes on, or a panic.
pub data Fault (E : Type 0) : Type 0 where
  failed : E → Fault E
  panicked : Fault E

abbrev pub Action : Type 0 → Type 0 → Type 0 → Type 0
Action S E A = S → Result (Fault E) A × S

abbrev pub lift_fault : {E A : Type 0} → Result E A → Result (Fault E) A
lift_fault (ok a) = ok a
lift_fault (err e) = err (failed e)

module _ {S E : Type 0} where
  -- What follows a step, given how the step ended.
  abbrev pub continue :
      {A B : Type 0} → (A → Action S E B) → Result (Fault E) A × S → Result (Fault E) B × S
  continue f (ok a, s) = f a s
  continue f (err e, s) = (err e, s)

  infixl 5 ◌>>=◌ ◌>>◌
  abbrev pub ◌>>=◌ : {A B : Type 0} → Action S E A → (A → Action S E B) → Action S E B
  ◌>>=◌ m f s = continue f (m s)

  abbrev pub ◌>>◌ : {A B : Type 0} → Action S E A → Action S E B → Action S E B
  m >> k = m >>= λ _. k

  abbrev pub pure : {A : Type 0} → A → Action S E A
  pure a s = (ok a, s)

  abbrev pub gets : {A : Type 0} → (S → A) → Action S E A
  gets f s = (ok (f s), s)

  abbrev pub modify : (S → S) → Action S E (Unit {0})
  modify f s = (ok tt, f s)

  abbrev pub lift : {A : Type 0} → Result E A → Action S E A
  lift r s = (lift_fault r, s)

  -- `.unwrap()`
  abbrev pub unwrap : {A : Type 0} → Option A → Action S E A
  unwrap none s = (err panicked, s)
  unwrap (some a) s = (ok a, s)

  abbrev pub unwrap_ok : {A : Type 0} → Result E A → Action S E A
  unwrap_ok (err e) s = (err panicked, s)
  unwrap_ok (ok a) s = (ok a, s)

  -- A step that succeeds hands its result and state on; one that fails ends the method.
  pub >>=-ok :
      {A B : Type 0} (m : Action S E A) (f : A → Action S E B) {s s' : S} {a : A}
      → m s ≡ (ok a, s')
      → (m >>= f) s ≡ f a s'
  >>=-ok m f e = ap (continue f) e

  pub >>=-err :
      {A B : Type 0} (m : Action S E A) (f : A → Action S E B) {s s' : S} {e : Fault E}
      → m s ≡ (err e, s')
      → (m >>= f) s ≡ (err e, s')
  >>=-err m f h = ap (continue f) h

  -- The steps behind a success.
  pub >>=-inv :
      {A B : Type 0} (m : Action S E A) (f : A → Action S E B) {s s' : S} {b : B}
      → (m >>= f) s ≡ (ok b, s')
      → (a : A) × (t : S) × (m s ≡ (ok a, t)) × (f a t ≡ (ok b, s'))
  >>=-inv {B = B} m f {s} {s'} {b} e = go (m s) e
    where
      go :
          (r : _)
          → continue f r ≡ (ok b, s')
          → (a : _) × (t : S) × (r ≡ (ok a, t)) × (f a t ≡ (ok b, s'))
      go (ok a, t) h = (a, t, refl, h)
      go (err x, t) h = cc

  pub lift-ok : {A : Type 0} (r : Result E A) (s : S) {a : A} → r ≡ ok a → lift r s ≡ (ok a, s)
  lift-ok r s e = ap (λ x. (lift_fault x, s)) e

  -- What holds of the state before a method holds of it after the method, however it ends.
  abbrev pub Preserves : {A : Type 0} → (S → Type 0) → Action S E A → Type 0
  Preserves P m = (s : S) → P s → P (m s).1

  pub continue-Preserves :
      {A B : Type 0} (P : S → Type 0) (f : A → Action S E B) (r : Result (Fault E) A × S)
      → ((a : A) → Preserves P (f a))
      → P r.1
      → P (continue f r).1
  continue-Preserves P f (ok a, s) keeps h = keeps a s h
  continue-Preserves P f (err e, s) keeps h = h

  pub >>=-Preserves :
      {A B : Type 0} (P : S → Type 0) (m : Action S E A) (f : A → Action S E B)
      → Preserves P m
      → ((a : A) → Preserves P (f a))
      → Preserves P (m >>= f)
  >>=-Preserves P m f h k s p = continue-Preserves P f (m s) k (h s p)

pub unwrap-Preserves :
    {S : Type 0} (E : Type 0) {A : Type 0} (P : S → Type 0) (o : Option A)
    → Preserves {E = E} P (unwrap o)
unwrap-Preserves E P none s h = h
unwrap-Preserves E P (some a) s h = h

pub ok-injective : {E A : Type 0} {a b : A} → Path (Result E A) (ok a) (ok b) → a ≡ b
ok-injective {E} {A} {a} {b} e = ap given e
  where
    given : Result E A → A
    given (ok x) = x
    given (err x) = a

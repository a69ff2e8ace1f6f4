-- ===== src/EndToEnd/Fresh.antt =====
-- A client that opens a core anew, and the id that the core takes.
use hyperspace_rs.Base.{
  get_elem?-end, ℕ, zero, suc, ◌+◌, ◌<◌, ◌==◌, ◌≡◌, ◌^◌, refl, ap, sym, ◌∙◌, List, [], ◌∷◌, ◌++◌,
  Option, none, some, false, Bytes, Result, ok, Fault, length, get_elem?, arith, Bool-cases, inl,
  inr, bytes_discrete, subst, pure, ◌>>◌, >>=-ok, u64_mod,
}
use hyperspace_rs.FreeMap
use hyperspace_rs.FreeMap.Invariant.{insert_with_name-IsValid}
use hyperspace_rs.FreeMap.Lookup.{insert_with_name-reads, insert_with_name-size}
use hyperspace_rs.Corestore.{Env}
use hyperspace_rs.Session.{Feeds, IoError}
use hyperspace_rs.RemoteCore.{Client, InnerHypercore, SeekRequest, SeekResponse, default_core}
use hyperspace_rs.RemoteCore.Methods.{update_at, new_core, set_id, open_core}
use hyperspace_rs.RemoteCore.Sessions.{
  add_core, insert_session, open_named, open_new_key, open_new_name,
}
use hyperspace_rs.RemoteCore.Cores.{get_elem?-update_at_other, get_elem?-update_at}
use hyperspace_rs.RemoteCore.Linked.{add_core-IsLinked}
use hyperspace_rs.EndToEnd.{served}
use hyperspace_rs.EndToEnd.Held.{IsServed, Held, open_named-Held, open_known-Held}

get_elem?-append_inv :
    {A : Type 0} (xs : List A) (x : A) (i : ℕ) {y : A}
    → get_elem? (xs ++ x ∷ []) i ≡ some y
    → (length xs == i) ≡ false
    → get_elem? xs i ≡ some y
get_elem?-append_inv [] x zero e h = absurd (ground (arith, h))
get_elem?-append_inv [] x (suc i) e h = absurd (ground (arith, e))
get_elem?-append_inv (z ∷ xs) x zero e h = e
get_elem?-append_inv (z ∷ xs) x (suc i) e h = get_elem?-append_inv xs x i e (ground (arith, h))

module _ {V : Env} {F : Feeds V} {hex : Bytes → Bytes}
    {seek : SeekRequest → Result (Fault (IoError V.Error)) SeekResponse} where
  module _ (n : ℕ) (room : n < 2 ^ 32) where
    -- A new core is not open, and takes an id that no core has.
    add_core-Held :
        (key name : Option Bytes) (session_name : Bytes) (c : Client (served F hex seek)) (k : ℕ)
        → k + 1 ≡ n
        → IsServed k c
        → (ref : ℕ) × (id : ℕ) × (c' : Client (served F hex seek)) × (add_core key name session_name
              c
            ≡ (ok (ref, id), c'))
          × Held n id ref c'
    unfolding add_core new_core insert_session set_id
    add_core-Held key name session_name c k next h =
        let last = length c.cores in
        let fits : length c.sessions.map + 1 < u64_mod = omega (arith, h.size) in
        let id = (FreeMap.insert_with_name bytes_discrete c.sessions last session_name).1 in
        let (absent, reads, _) =
          insert_with_name-reads bytes_discrete h.valid last session_name fits in
        let core = default_core key name in
        let f : InnerHypercore → InnerHypercore = λ inner. record inner { id = id } in
        (
          last,
          id,
          (add_core key name session_name c).1,
          refl,
          (
            record {
              valid = insert_with_name-IsValid bytes_discrete h.valid last session_name fits;
              linked = add_core-IsLinked key name session_name c (h.valid, fits) h.linked;
              reads = λ ref inner e is_open. elim (Bool-cases (last == ref)) [
                | inl p ↦
                    let here : last ≡ ref = ground (arith, p) in
                    let its =
                      get_elem?-update_at last f (c.cores ++ core ∷ [])
                        (get_elem?-end c.cores core) in
                    let at = ap (get_elem? (update_at last f (c.cores ++ core ∷ []))) here ∙ e in
                    absurd (ground (arith, its, at, is_open))
                | inr p ↦
                    let was =
                      get_elem?-append_inv c.cores core ref
                        (sym (get_elem?-update_at_other last ref f (c.cores ++ core ∷ []) p) ∙ e)
                        p in
                    let (there, feed, at, keyed) = h.reads ref inner was is_open in
                    (reads inner.id ∙ ground (arith, absent, there), feed, at, keyed)
              ];
              size = omega (
                arith,
                (insert_with_name-size bytes_discrete h.valid last session_name fits).0,
                h.size,
              );
            },
            reads id ∙ ground arith,
          ),
        )

    pub grown : (k : ℕ) (c : Client (served F hex seek)) → k + 1 ≡ n → IsServed k c → IsServed n c
    grown k c next h = record {
      valid = h.valid;
      linked = λ i r e. h.linked i r e;
      reads = λ r inner e o. h.reads r inner e o;
      size = omega (arith, h.size);
    }

    pub open_new_name-IsServed :
        (name : Bytes) (k : ℕ) (c : Client (served F hex seek))
        → k + 1 ≡ n
        → IsServed k c
        → IsServed n (open_new_name name c).1
    unfolding open_new_name
    open_new_name-IsServed name k c next h =
        let (ref, id, c', e, held) = add_core-Held none (some name) name c k next h in
        subst (λ x. IsServed n x.1) (sym (>>=-ok (add_core none (some name) name) open_named e))
          (open_named-Held n room id ref c' held).0

    pub open_new_key-IsServed :
        (key : Bytes) (k : ℕ) (c : Client (served F hex seek))
        → k + 1 ≡ n
        → IsServed k c
        → IsServed n (open_new_key key c).1
    unfolding open_new_key
    open_new_key-IsServed key k c next h =
        let (ref, id, c', e, held) = add_core-Held (some key) none (hex key) c k next h in
        subst (λ x. IsServed n x.1)
          (sym (>>=-ok (add_core (some key) none (hex key)) (λ x. open_core x.0 >> pure x.0) e))
          (open_known-Held n room id ref c' held).0

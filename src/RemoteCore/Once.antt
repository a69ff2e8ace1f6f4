-- ===== src/RemoteCore/Once.antt =====
-- Sessions that are opened again, under their names and keys.

use hyperspace_rs.Base.{
  ok-injective, ℕ, ◌+◌, ◌<◌, ◌≡◌, refl, ap, sym, subst, ◌∙◌, Option, none, some, Bytes, ok, pure,
  ◌>>=◌, ◌>>◌, >>=-inv, >>=-ok, length, get_elem?, arith, bytes_discrete, u64_mod,
}
use hyperspace_rs.FreeMap
use hyperspace_rs.FreeMap.Invariant.{IsValid}
use hyperspace_rs.FreeMap.Lookup.{insert_with_name-reads, set_name-reads}
use hyperspace_rs.RemoteCore.{Remote, Client, Method}
use hyperspace_rs.RemoteCore.Methods.{read, new_core, set_id, open_core}
use hyperspace_rs.RemoteCore.Sessions.{
  add_core, insert_session, set_name, name_key, open_named, open_new_key, open_new_name, open_or,
  open_by_key, open_by_name,
}
use hyperspace_rs.RemoteCore.Cores.{IsOpen, open_core-ok, open_core-again, read-ok}

-- The sessions are a valid map with room for one more.
abbrev pub HasRoom : {R : Remote} → Client R → Type 0
HasRoom c = IsValid bytes_discrete c.sessions × (length c.sessions.map + 1 < u64_mod)

module _ {R : Remote} where
  -- The reference that a session's name leads to.
  abbrev pub session : Client R → Bytes → Option ℕ
  session c name = FreeMap.get_by_name bytes_discrete c.sessions name

  session_kept :
      (name : Bytes) (new : Method R ℕ) (ref : ℕ) (c c' : Client R)
      → (open_core ref >> pure ref) c ≡ (ok ref, c')
      → session c name ≡ some ref
      → (session c' name ≡ some ref) × IsOpen c' ref
  session_kept name new ref c c' e at =
      let (_, t, p, q) = >>=-inv (open_core ref) (λ _. pure ref) e in
      let (same, is_open) = open_core-ok ref c t p in
      let last = ap (λ x. x.1) q in
      (
        ap (λ x. session x name) (sym last)
            ∙ ap (λ s. FreeMap.get_by_name bytes_discrete s name) same
            ∙ at,
        subst (λ x. IsOpen x ref) last is_open,
      )

  -- A session that was added: its name and its id lead to its core.
  add_core-ok :
      (key name : Option Bytes) (session_name : Bytes) (c c' : Client R) (ref id : ℕ)
      → HasRoom c
      → add_core key name session_name c ≡ (ok (ref, id), c')
      → (session c' session_name ≡ some ref) × (FreeMap.get c'.sessions id ≡ some ref)
  unfolding add_core new_core insert_session set_id
  add_core-ok key name session_name c c' ref id (valid, room) e =
      let reads = insert_with_name-reads bytes_discrete valid (length c.cores) session_name room in
      let done = ap (λ x. x.1.sessions) e in
      let given = ok-injective (ap (λ x. x.0) e) in
      (
        ap (λ s. FreeMap.get_by_name bytes_discrete s session_name) (sym done)
            ∙ reads.2 session_name
            ∙ ground (arith, ap (λ x. x.0) given),
        ap (λ s. FreeMap.get s id) (sym done)
            ∙ reads.1 id
            ∙ ground (arith, ap (λ x. x.0) given, ap (λ x. x.1) given),
      )

  -- The name of a session still leads to its core after the session is named for its key too.
  session-name_key :
      (name : Bytes) (key : Option Bytes) (id ref : ℕ) (c : Client R)
      → session c name ≡ some ref
      → FreeMap.get c.sessions id ≡ some ref
      → session (name_key id key c).1 name ≡ some ref
  unfolding name_key set_name
  session-name_key name none id ref c at held = at
  session-name_key name (some key) id ref c at held =
      (set_name-reads bytes_discrete c.sessions id (R.hex key)).0 name ∙ ground (arith, at, held)

  name_key-cores :
      (key : Option Bytes) (id : ℕ) (c : Client R) → (name_key id key c).1.cores ≡ c.cores
  unfolding name_key set_name
  name_key-cores none id c = refl
  name_key-cores (some key) id c = refl

  name_key-ok :
      (name : Bytes) (key : Option Bytes) (r id ref : ℕ) (c c' : Client R)
      → session c name ≡ some r
      → FreeMap.get c.sessions id ≡ some r
      → IsOpen c r
      → (name_key id key >> pure r) c ≡ (ok ref, c')
      → (session c' name ≡ some ref) × IsOpen c' ref
  name_key-ok name key r id ref c c' at held (inner, there, is_open) e =
      let (_, v, p, q) = >>=-inv (name_key id key) (λ _. pure r) e in
      let named = ap (λ x. x.1) p in
      let last = ap (λ x. x.1) q in
      let it : r ≡ ref = ok-injective (ap (λ x. x.0) q) in
      (
        ap (λ x. session x name) (sym (named ∙ last))
            ∙ session-name_key name key id r c at held
            ∙ ap some it,
        (
          inner,
          ap (λ x. get_elem? x.cores ref) (sym (named ∙ last))
              ∙ ap (λ cores. get_elem? cores ref) (name_key-cores key id c)
              ∙ ap (get_elem? c.cores) (sym it)
              ∙ there,
          is_open,
        ),
      )

  open_named-ok :
      (name : Bytes) (r id ref : ℕ) (c c' : Client R)
      → session c name ≡ some r
      → FreeMap.get c.sessions id ≡ some r
      → open_named (r, id) c ≡ (ok ref, c')
      → (session c' name ≡ some ref) × IsOpen c' ref
  unfolding open_named
  open_named-ok name r id ref c c' at held e =
      let (_, t, p, q) =
        >>=-inv (open_core r) (λ _. read r >>= λ inner. name_key id inner.key >> pure r) e in
      let (inner, u, p', q') = >>=-inv (read r) (λ inner. name_key id inner.key >> pure r) q in
      let (same, is_open) = open_core-ok r c t p in
      let (_, stays) = read-ok r t u inner p' in
      name_key-ok name inner.key r id ref u c'
        (ap (λ x. session x name) stays
          ∙ ap (λ s. FreeMap.get_by_name bytes_discrete s name) same
          ∙ at)
        (ap (λ x. FreeMap.get x.sessions id) stays ∙ ap (λ s. FreeMap.get s id) same ∙ held)
        (subst (λ x. IsOpen x r) (sym stays) is_open) q'

  -- An open session is opened again without a call of the remote end.
  open_or-again :
      (new : Method R ℕ) (name : Bytes) (c : Client R) (ref : ℕ)
      → session c name ≡ some ref
      → IsOpen c ref
      → open_or (session c name) new c ≡ (ok ref, c)
  unfolding open_or
  open_or-again new name c ref at is_open =
      ap (λ o. open_or o new c) at
      ∙ >>=-ok (open_core ref) (λ _. pure ref) (open_core-again ref c is_open)

  open_new_name-ok :
      (name : Bytes) (c c' : Client R) (ref : ℕ)
      → HasRoom c
      → open_new_name name c ≡ (ok ref, c')
      → (session c' name ≡ some ref) × IsOpen c' ref
  unfolding open_new_name
  open_new_name-ok name c c' ref room e =
      let ((r, id), t, p, q) = >>=-inv (add_core none (some name) name) open_named e in
      let (at, held) = add_core-ok none (some name) name c t r id room p in
      open_named-ok name r id ref t c' at held q

  open_new_key-ok :
      (key : Bytes) (c c' : Client R) (ref : ℕ)
      → HasRoom c
      → open_new_key key c ≡ (ok ref, c')
      → (session c' (R.hex key) ≡ some ref) × IsOpen c' ref
  unfolding open_new_key
  open_new_key-ok key c c' ref room e =
      let ((r, id), t, p, q) =
        >>=-inv (add_core (some key) none (R.hex key)) (λ x. open_core x.0 >> pure x.0) e in
      let (at, _) = add_core-ok (some key) none (R.hex key) c t r id room p in
      let (_, u, _, q') = >>=-inv (open_core r) (λ _. pure r) q in
      let it : r ≡ ref = ok-injective (ap (λ x. x.0) q') in
      session_kept (R.hex key) (pure r) ref t c'
        (subst (λ x. (open_core x >> pure x) t ≡ (ok ref, c')) it q) (at ∙ ap some it)

  session-found :
      (name : Bytes) (new : Method R ℕ) (c c' : Client R) (ref : ℕ) (o : Option ℕ)
      → session c name ≡ o
      → (new c ≡ (ok ref, c') → (session c' name ≡ some ref) × IsOpen c' ref)
      → open_or o new c ≡ (ok ref, c')
      → (session c' name ≡ some ref) × IsOpen c' ref
  unfolding open_or
  session-found name new c c' ref none at fresh e = fresh e
  session-found name new c c' ref (some r) at fresh e =
      let (_, u, _, q) = >>=-inv (open_core r) (λ _. pure r) e in
      let it : r ≡ ref = ok-injective (ap (λ x. x.0) q) in
      session_kept name new ref c c' (subst (λ x. (open_core x >> pure x) c ≡ (ok ref, c')) it e)
        (at ∙ ap some it)

  -- What was opened is open.
  pub open_by_name-IsOpen :
      (name : Bytes) (c c' : Client R) (ref : ℕ)
      → HasRoom c
      → open_by_name name c ≡ (ok ref, c')
      → (session c' name ≡ some ref) × IsOpen c' ref
  unfolding open_by_name
  open_by_name-IsOpen name c c' ref room e =
      session-found name (open_new_name name) c c' ref (session c name) refl
        (open_new_name-ok name c c' ref room) e

  pub open_by_key-IsOpen :
      (key : Bytes) (c c' : Client R) (ref : ℕ)
      → HasRoom c
      → open_by_key key c ≡ (ok ref, c')
      → (session c' (R.hex key) ≡ some ref) × IsOpen c' ref
  unfolding open_by_key
  open_by_key-IsOpen key c c' ref room e =
      session-found (R.hex key) (open_new_key key) c c' ref (session c (R.hex key)) refl
        (open_new_key-ok key c c' ref room) e

  -- A name is opened once: after `open_by_name` has succeeded, another call of it with the name
  -- gives the same core, does not call the remote end and changes nothing. The sessions are a
  -- valid map with room for one more.
  pub open_by_name-again :
      (name : Bytes) (c c' : Client R) (ref : ℕ)
      → HasRoom c
      → open_by_name name c ≡ (ok ref, c')
      → open_by_name name c' ≡ (ok ref, c')
  unfolding open_by_name
  open_by_name-again name c c' ref room e =
      let (at, is_open) = open_by_name-IsOpen name c c' ref room e in
      open_or-again (open_new_name name) name c' ref at is_open

  -- A key is opened once: after `open_by_key` has succeeded, another call of it with the key
  -- gives the same core, does not call the remote end and changes nothing. The sessions are a
  -- valid map with room for one more.
  open_by_key-again :
      (key : Bytes) (c c' : Client R) (ref : ℕ)
      → HasRoom c
      → open_by_key key c ≡ (ok ref, c')
      → open_by_key key c' ≡ (ok ref, c')
  unfolding open_by_key
  open_by_key-again key c c' ref room e =
      let (at, is_open) = open_by_key-IsOpen key c c' ref room e in
      open_or-again (open_new_key key) (R.hex key) c' ref at is_open

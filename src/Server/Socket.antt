-- ===== src/Server/Socket.antt =====
-- server/src/rpc/socket.rs: `accept`, on what the listener gives.
use hyperspace_rs.Base
use hyperspace_rs.Base.{
  ◌≡◌, refl, ap, ◌∙◌, List, [], ◌∷◌, ◌++◌, map, append_assoc, append-nil, Bool, true, false,
  Bool-cases, inl, inr, Result, ok, err, Fault, failed, lift_fault, pure, lift, unwrap_ok, modify,
  ◌>>=◌, ◌>>◌, >>=-ok, >>=-err, continue, sym,
}

-- The sockets and the files, on one path.
pub record SocketOps : Type 1 where
  pub Error : Type 0
  pub World : Type 0
  pub Stream : Type 0
  pub bind : World → Result Error (Unit {0}) × World
  pub remove_file : World → Result Error (Unit {0}) × World

-- The world, and the connections that were handed to `onconnection`.
pub record Accepting (S : SocketOps) : Type 0 where
  pub world : S.World
  pub connections : List S.Stream

abbrev pub Step : SocketOps → Type 0
Step S = Base.Action (Accepting S) S.Error (Unit {0})

module _ {S : SocketOps} where
  unfoldable pub bind : Step S
  bind a = let (r, world) = S.bind a.world in (lift_fault r, record a { world = world })

  unfoldable pub remove_file : Step S
  remove_file a =
      let (r, world) = S.remove_file a.world in (lift_fault r, record a { world = world })

  -- A path that cannot be bound is removed first.
  unfoldable pub bind_after :
      Result (Fault S.Error) (Unit {0}) × Accepting S
      → Result (Fault S.Error) (Unit {0}) × Accepting S
  bind_after (ok listener, a) = (ok listener, a)
  bind_after (err e, a) = (remove_file >> bind) a

  unfoldable pub serve : List (Result S.Error S.Stream) → Step S
  serve [] a = (ok tt, a)
  serve (err e ∷ incoming) a = (err (failed e), a)
  serve (ok stream ∷ incoming) a =
      serve incoming (record a { connections = a.connections ++ stream ∷ [] })

  -- `remove_file(&path).unwrap()`
  unfoldable pub remove_at_end : Step S
  remove_at_end a =
      let (r, world) = S.remove_file a.world in unwrap_ok r (record a { world = world })

  unfoldable pub accept : List (Result S.Error S.Stream) → Step S
  accept incoming = (λ a. bind_after (bind a)) >> serve incoming >> remove_at_end

-- A path can be bound if and only if no file is there, and then one is; a file that is there can be
-- removed.
pub record SocketLaws (S : SocketOps) : Type 0 where
  pub is_file : S.World → Bool
  pub bind_free :
      (w : S.World) → is_file w ≡ false → ((S.bind w).0 ≡ ok tt) × (is_file (S.bind w).1 ≡ true)
  pub bind_taken : (w : S.World) → is_file w ≡ true → (e : S.Error) × (S.bind w ≡ (err e, w))
  pub remove_there :
      (w : S.World)
      → is_file w ≡ true
      → ((S.remove_file w).0 ≡ ok tt) × (is_file (S.remove_file w).1 ≡ false)

module _ {S : SocketOps} (laws : SocketLaws S) where
  bind_free-ok :
      (a : Accepting S)
      → laws.is_file a.world ≡ false
      → (w : S.World) × (bind a ≡ (ok tt, record a { world = w })) × (laws.is_file w ≡ true)
  unfolding bind
  bind_free-ok a free =
      let (bound, there) = laws.bind_free a.world free in
      (
        (S.bind a.world).1,
        ap (λ r. (lift_fault r, record a { world = (S.bind a.world).1 })) bound,
        there,
      )

  bind_after-ok :
      (a : Accepting S)
      → (w : S.World) × (bind_after (bind a) ≡ (ok tt, record a { world = w }))
        × (laws.is_file w ≡ true)
  unfolding bind_after bind remove_file
  bind_after-ok a = elim (Bool-cases (laws.is_file a.world)) [
    | inr free ↦ let (w, bound, there) = bind_free-ok a free in (w, ap bind_after bound, there)
    | inl taken ↦
        let (e, refused) = laws.bind_taken a.world taken in
        let (removed, gone) = laws.remove_there a.world taken in
        let cleared = (S.remove_file a.world).1 in
        let (w, bound, there) = bind_free-ok (record a { world = cleared }) gone in
        (
          w,
          ap (λ x. bind_after (lift_fault x.0, record a { world = x.1 })) refused
              ∙ ap (λ r. continue (λ _. bind) (lift_fault r, record a { world = cleared })) removed
              ∙ bound,
          there,
        )
  ]

  serve-all :
      (streams : List S.Stream) (rest : List (Result S.Error S.Stream)) (a : Accepting S)
      → serve (map ok streams ++ rest) a
        ≡ serve rest (record a { connections = a.connections ++ streams })
  unfolding serve
  serve-all [] rest a =
      ap (λ cs. serve rest (record a { connections = cs })) (sym (append-nil a.connections))
  serve-all (s ∷ streams) rest a =
      serve-all streams rest (record a { connections = a.connections ++ s ∷ [] })
      ∙ ap (λ cs. serve rest (record a { connections = cs }))
          (append_assoc a.connections (s ∷ []) streams)

  accept-run :
      (incoming : List (Result S.Error S.Stream)) (a : Accepting S)
      → (w : S.World) × (laws.is_file w ≡ true)
        × (accept incoming a ≡ (serve incoming >> remove_at_end) (record a { world = w }))
  unfolding accept
  accept-run incoming a =
      let (w, bound, there) = bind_after-ok a in
      (w, there, ap (λ r. continue (λ _. remove_at_end) (continue (λ _. serve incoming) r)) bound)

  remove_at_end-ok :
      (a : Accepting S)
      → laws.is_file a.world ≡ true
      → (w : S.World) × (remove_at_end a ≡ (ok tt, record a { world = w }))
        × (laws.is_file w ≡ false)
  unfolding remove_at_end
  remove_at_end-ok a there =
      let (removed, gone) = laws.remove_there a.world there in
      (
        (S.remove_file a.world).1,
        ap (λ r. unwrap_ok r (record a { world = (S.remove_file a.world).1 })) removed,
        gone,
      )

  -- A server starts whether an earlier one left its socket file or not, and hands on every
  -- connection, once and in order: when no more come in, it ends with its file removed; where one
  -- is an error, it ends with that error, whatever comes after, and its file stays. A path can be
  -- bound if and only if no file is there, and a file that is there can be removed.
  pub accept-serves :
      (streams : List S.Stream) (a : Accepting S)
      → ((w : S.World) × (accept (map ok streams) a
            ≡ (ok tt, record { world = w; connections = a.connections ++ streams }))
          × (laws.is_file w ≡ false))
        × ((e : S.Error) (rest : List (Result S.Error S.Stream))
            → (w : S.World) × (accept (map ok streams ++ err e ∷ rest) a
                ≡ (err (failed e), record { world = w; connections = a.connections ++ streams }))
              × (laws.is_file w ≡ true))
  unfolding serve
  accept-serves streams a = (
    (let (w, there, run) = accept-run (map ok streams) a in
        let served : Accepting S = record { world = w; connections = a.connections ++ streams } in
        let (w', removed, gone) = remove_at_end-ok served there in
        (
          w',
          run
              ∙ ap (λ xs. (serve xs >> remove_at_end) (record a { world = w }))
                  (sym (append-nil (map ok streams)))
              ∙ ap (continue (λ _. remove_at_end)) (serve-all streams [] (record a { world = w }))
              ∙ removed,
          gone,
        )),
    λ e rest.
        let (w, there, run) = accept-run (map ok streams ++ err e ∷ rest) a in
        (
          w,
          run
              ∙ ap (continue (λ _. remove_at_end))
                  (serve-all streams (err e ∷ rest) (record a { world = w })),
          there,
        ),
  )

-- ===== src/ClientBin/Opening.antt =====
-- The core that the program opens, whose key it shows.
use hyperspace_rs.Base.{
  ℕ, Bool, ◌⊎◌, ◌==◌, ◌≡◌, ap, ap₂, sym, ◌∙◌, length, Option, none, some, true, false, Bytes,
  Result, ok, err, Fault, subst, >>=-ok, arith, pure, lift, unwrap, ◌>>=◌, Bool-cases, inl, inr,
  if◌then◌else◌,
}
use hyperspace_rs.Corestore.{Env, World}
use hyperspace_rs.Session.{Feeds, IoError}
use hyperspace_rs.RemoteCore.{Client, Method, SeekRequest, SeekResponse}
use hyperspace_rs.RemoteCore.Methods.{read}
use hyperspace_rs.RemoteCore.Sessions.{open_by_key, open_by_name}
use hyperspace_rs.RemoteCore.Cores.{IsOpen, read-eq}
use hyperspace_rs.RemoteCore.Once.{HasRoom, open_by_name-IsOpen, open_by_key-IsOpen}
use hyperspace_rs.EndToEnd.{served}
use hyperspace_rs.EndToEnd.Kept.{Kept, open-IsServed}
use hyperspace_rs.EndToEnd.Calls.{start, start-Kept}
use hyperspace_rs.EndToEnd.Written.{Leads}
use hyperspace_rs.ClientBin.{
  Opts, CliError, wrong_length, map_fault, on_core, open_key, open_from, open_shown,
}
use hyperspace_rs.ClientBin.Writing.{map_fault-ok}

module _ {V : Env} (F : Feeds V) (hex : Bytes → Bytes)
    (seeks : SeekRequest → Result (Fault (IoError V.Error)) SeekResponse) (I : Type 0) (w : World V)
    (store : F.Store) where
  -- The client and its session after the opening, and the core.
  abbrev Opened : ℕ → Client (served F hex seeks) → Type 0
  Opened ref c = Kept {V = V} {F = F} {hex = hex} {seeks = seeks} 1 c × IsOpen c ref

  roomy : HasRoom (start F hex seeks w store)
  roomy = let kept = start-Kept F hex seeks w store in (kept.valid, omega (arith, kept.size))

  on_core-ok :
      (m : Method (served F hex seeks) ℕ) (c c' : Client (served F hex seeks)) (ref : ℕ)
      → on_core (served F hex seeks) I m c ≡ (ok ref, c')
      → m c ≡ (ok ref, c')
  on_core-ok m c c' ref e =
      ap₂ (λ r x. (r, x)) (map_fault-ok (m c).0 (ap (λ x. x.0) e)) (ap (λ x. x.1) e)

  by_name-Opened :
      (name : Bytes) (c' : Client (served F hex seeks)) (ref : ℕ)
      → on_core (served F hex seeks) I (open_by_name name) (start F hex seeks w store)
        ≡ (ok ref, c')
      → Opened ref c'
  by_name-Opened name c' ref e =
      let run = on_core-ok (open_by_name name) (start F hex seeks w store) c' ref e in
      let (_, kept) =
        open-IsServed {seeks = seeks} name name 0 (start F hex seeks w store) (omega arith)
          (start-Kept F hex seeks w store) in
      (
        subst (λ x. Kept {seeks = seeks} 1 x.1) run kept,
        (open_by_name-IsOpen name (start F hex seeks w store) c' ref roomy run).1,
      )

  by_key-Opened :
      (r : Result I Bytes) (c' : Client (served F hex seeks)) (ref : ℕ)
      → open_key (served F hex seeks) I r (start F hex seeks w store) ≡ (ok ref, c')
      → Opened ref c'
  unfolding open_key
  by_key-Opened (err x) c' ref e = absurd (ground (arith, ap (λ x. x.0) e))
  by_key-Opened (ok key) c' ref e = by_length (Bool-cases (length key == 32))
    where
      attempt :
          Bool
          → Result (Fault (CliError (Fault (IoError V.Error)) I)) ℕ × Client (served F hex seeks)
      attempt b =
          (if b
              then on_core (served F hex seeks) I (open_by_key key)
              else lift (err (wrong_length (length key))))
            (start F hex seeks w store)

      by_length : ((length key == 32) ≡ true) ⊎ ((length key == 32) ≡ false) → Opened ref c'
      by_length (inr h) = absurd (ground (arith, ap (λ x. x.0) (sym (ap attempt h) ∙ e)))
      by_length (inl h) =
          let run =
            on_core-ok (open_by_key key) (start F hex seeks w store) c' ref
              (sym (ap attempt h) ∙ e) in
          let (kept, _) =
            open-IsServed {seeks = seeks} key key 0 (start F hex seeks w store) (omega arith)
              (start-Kept F hex seeks w store) in
          (
            subst (λ x. Kept {seeks = seeks} 1 x.1) run kept,
            (open_by_key-IsOpen key (start F hex seeks w store) c' ref roomy run).1,
          )

  open_from-Opened :
      (unhex : Bytes → Result I Bytes) (key name : Option Bytes) (c' : Client (served F hex seeks))
      (ref : ℕ)
      → open_from (served F hex seeks) I unhex key name (start F hex seeks w store) ≡ (ok ref, c')
      → Opened ref c'
  unfolding open_from
  open_from-Opened unhex (some key) name c' ref e = by_key-Opened (unhex key) c' ref e
  open_from-Opened unhex none (some name) c' ref e = by_name-Opened name c' ref e
  open_from-Opened unhex none none c' ref e = absurd (ground (arith, ap (λ x. x.0) e))

  -- A program that opens its core on a new connection, by key or by name, goes on to its command
  -- and never panics on a missing key: the key that it shows is that of the feed which the server's
  -- session has under the core's id, and the client and the session belong together.
  pub open_shown-shows :
      (unhex : Bytes → Result I Bytes) (opts : Opts) (c' : Client (served F hex seeks)) (ref : ℕ)
      → open_from (served F hex seeks) I unhex opts.key opts.name (start F hex seeks w store)
        ≡ (ok ref, c')
      → (feed : V.api.Feed) × Leads c' ref feed
        × Kept {seeks = seeks} 1 c'
        × IsOpen c' ref
        × (open_shown (served F hex seeks) I unhex opts (start F hex seeks w store)
            ≡ (ok (ref, V.public_key feed), c'))
  unfolding open_shown
  open_shown-shows unhex opts c' ref e =
      let (kept, (inner, at, is_open)) = open_from-Opened unhex opts.key opts.name c' ref e in
      let (_, feed, held, key) = kept.reads ref inner at is_open in
      (
        feed,
        (inner, at, held),
        kept,
        (inner, at, is_open),
        >>=-ok (open_from (served F hex seeks) I unhex opts.key opts.name)
              (λ core. on_core (served F hex seeks) I (read core) >>= λ i.
                unwrap i.key >>= λ k. pure (core, k))
              e
            ∙ >>=-ok (on_core (served F hex seeks) I (read ref))
                (λ i. unwrap i.key >>= λ k. pure (ref, k))
                (ap (λ x. (map_fault x.0, x.1)) (read-eq ref c' at))
            ∙ ap (λ o. (unwrap o >>= λ k. pure (ref, k)) c') key,
      )

-- ===== src/EndToEnd/Shared.antt =====
-- Two clients whose sessions have the same feed.
use hyperspace_rs.Base.Maps
use hyperspace_rs.Base.{
  ℕ, ◌+◌, ◌<◌, ◌≡◌, ap, sym, ◌∙◌, List, some, Bytes, Result, ok, Fault, length, get_elem?,
  ℕ_discrete, lift_fault, arith,
}
use hyperspace_rs.Corestore.{Env}
use hyperspace_rs.Session.{Feeds, IoError}
use hyperspace_rs.Session.Handlers.{map_err, append_all}
use hyperspace_rs.Session.Appending.{append_all-length}
use hyperspace_rs.RemoteCore.{Client, InnerHypercore, SeekRequest, SeekResponse}
use hyperspace_rs.RemoteCore.Methods.{as_u32, append_blocks, get}
use hyperspace_rs.EndToEnd.{served}
use hyperspace_rs.EndToEnd.Written.{
  FeedLaws, Leads, append_all-reads, append_all-kept, append_blocks-runs, get-runs, get-Leads,
}

module _ {V : Env} {F : Feeds V} {hex : Bytes → Bytes}
    {seeks : SeekRequest → Result (Fault (IoError V.Error)) SeekResponse} where
  -- A client whose session shares the corestore and the feeds of another's.
  abbrev pub shared :
      Client (served F hex seeks) → Client (served F hex seeks) → Client (served F hex seeks)
  shared writer reader = record reader {
    remote = record reader.remote {
      corestore = writer.remote.corestore;
      store = writer.remote.store;
    };
  }

  -- A core leads to one feed.
  Leads-same :
      (c : Client (served F hex seeks)) (ref : ℕ) (feed feed' : V.api.Feed)
      → Leads c ref feed
      → Leads c ref feed'
      → feed ≡ feed'
  Leads-same c ref feed feed' (inner, at, held) (inner', at', held') =
      let same : inner ≡ inner' = ground (arith, at, at') in
      let held'' = ap (λ i. Maps.get ℕ_discrete (as_u32 i.id) c.remote.cores) same ∙ held' in
      ground (arith, held, held'')

  module _ (laws : FeedLaws F) where
    -- When a client has appended, the client itself and any other one whose session has the same
    -- feed get each of the blocks in its place, behind the blocks that the feed had, which the
    -- other one gets as before, and the length of the writer's core is that of the feed. The feeds
    -- keep what is appended to them.
    pub append_blocks-shared :
        (feed : V.api.Feed) (ref at : ℕ) (blocks : List Bytes) (i old : ℕ) (b : Bytes)
        (c c' reader : Client (served F hex seeks))
        → Leads c ref feed
        → Leads reader at feed
        → get_elem? blocks i ≡ some b
        → old < F.len feed c.remote.store
        → append_blocks ref blocks c ≡ (ok tt, c')
        → let n = F.len feed c.remote.store in
          (inner : InnerHypercore) × (get_elem? c'.cores ref ≡ some inner)
          × (inner.length ≡ n + length blocks)
          × ((get ref (n + i) c').0 ≡ ok (some b))
          × ((get at (n + i) (shared c' reader)).0 ≡ ok (some b))
          × ((get at old (shared c' reader)).0 ≡ (get at old (shared c reader)).0)
    append_blocks-shared feed ref at blocks i old b c c' reader leads (other, other_at, other_held)
          in_blocks low e =
        let (feed', inner, leads', run', here, held, size) = append_blocks-runs ref blocks c c' e in
        let same = Leads-same c ref feed' feed leads' leads in
        let run : append_all feed blocks c.remote ≡ (ok tt, c'.remote) =
          ap (λ f. append_all f blocks c.remote) (sym same) ∙ run' in
        let n = F.len feed c.remote.store in
        let gives = append_all-reads laws feed blocks c.remote c'.remote i b run in_blocks in
        (
          inner,
          here,
          size
              ∙ ap (λ f. F.len f c'.remote.store) same
              ∙ append_all-length laws.lengthens feed blocks c.remote c'.remote run,
          get-Leads ref (n + i) c' feed b (inner, here, held ∙ ap some same) gives,
          get-Leads at (n + i) (shared c' reader) feed b (other, other_at, other_held) gives,
          ap (λ x. x.0) (get-runs at old (shared c' reader) feed other other_at other_held)
              ∙ ap (λ r. lift_fault (map_err r))
                  (append_all-kept laws feed blocks c.remote c'.remote old run low)
              ∙ ap (λ x. x.0)
                  (sym (get-runs at old (shared c reader) feed other other_at other_held)),
        )

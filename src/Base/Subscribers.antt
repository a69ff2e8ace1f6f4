-- ===== src/Base/Subscribers.antt =====
-- The sending ends of event channels, as the program keeps them in a vector.
use mathlib.Core.Bool.{Bool}
use mathlib.Core.List.{List, [], ◌∷◌, ◌++◌, map}
use hyperspace_rs.Base.Num.{if◌then◌else◌}

-- A subscriber: whether its receiver is still there, and the events sent to it.
pub record Subscriber (Event : Type 0) : Type 0 where
  pub connected : Bool
  pub events : List Event

-- A subscriber with one more event.
abbrev pub told : {Event : Type 0} → Event → Subscriber Event → Subscriber Event
told event s = record s { events = s.events ++ event ∷ [] }

-- `join_all` of a send to each, its results dropped: who is gone is passed over.
abbrev pub tell_all : {Event : Type 0} → Event → List (Subscriber Event) → List (Subscriber Event)
tell_all event ss = map (λ s. if s.connected then told event s else s) ss

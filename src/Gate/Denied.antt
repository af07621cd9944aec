-- ===== src/Gate/Denied.antt =====
-- What a change of the connection does to the requests that are open.
use haniel.Prelude.{
  ◌≡◌, String, Bool, true, false, not, ◌&&◌, Option, none, some, List, [], ◌∷◌, ◌==◌,
}
use haniel.Prelude.Dict
use haniel.Prelude.Dict.{Dict}
use haniel.Gate.{
  Response, acknowledged, generation_changed, Pending, Gate, Reply, Step, wakes, times_out,
}
use haniel.Gate.Invariant.{refused}

abbrev is_denial : Option Response → Bool
is_denial (some generation_changed) = true
is_denial (some (acknowledged ack)) = false
is_denial none = false

abbrev is_denied : Option Pending → Bool
is_denied none = false
is_denied (some p) = is_denial p.response

-- The other steps of the gate than the end of the wait for the request.
abbrev pub is_apart : (requested : String) → Step → Bool
is_apart r (wakes k) = not (k == r)
is_apart r (times_out k) = not (k == r)
is_apart r _ = true

abbrev pub all_apart : (requested : String) → List Step → Bool
all_apart r [] = true
all_apart r (s ∷ steps) = is_apart r s && all_apart r steps

abbrev pub denied : Reply
denied = Reply.refused (some "connection_generation_changed")

module _ (r : String) where
  abbrev IsDenied : Gate → Type 0
  IsDenied gate = is_denied (Dict.get r gate.pending) ≡ true

-- ===== src/Program/Tasks/Pool.antt =====
-- bin/publisher/src/main.rs and crates/transport/src/server.rs as a whole: the connections that
-- `accept_loop` has spawned, the tasks that the callbacks, the loops and the HTTP server have, and the
-- node that they share. What runs next is the scheduler's choice.
use publisher.Base.{ℕ, zero, suc, Option, none, some, List, [], ◌∷◌, ◌++◌}
use publisher.Base.Results.{Result, ok, err}
use publisher.Spec.Primitives.{Text}
use publisher.Coordinator.State.{External}
use publisher.Transport.Framing.{TransportError, LengthPrefixCodec}
use publisher.Transport.Connections.{StableId}
use publisher.Transport.Reading.{Connection}
use publisher.Transport.Session.{Action, on_connect, on_message, handle_connection}
use publisher.Program.{Call, received, connected}
use publisher.Program.Startup.{Node}
use publisher.Program.Node.{act, Sent, send_all}
use publisher.Program.Tasks.{Stage, serving, Turn, turn}

pub record Pool : Type 0 where
  pub node : Node
  pub sessions : List (List Action)
  pub tasks : List (List Stage)

module _ {ℓ} {A : Type ℓ} where
  -- The next step of one of the lists, and what is left of that list.
  unfoldable pub pick : List (List A) → ℕ → Option (A × List A)
  pick [] i = none
  pick ([] ∷ xss) zero = none
  pick ((x ∷ xs) ∷ xss) zero = some (x, xs)
  pick (xs ∷ xss) (suc i) = pick xss i

  abbrev pub set : List A → ℕ → A → List A
  set [] i v = []
  set (x ∷ xs) zero v = v ∷ xs
  set (x ∷ xs) (suc i) v = x ∷ set xs i v

-- An error of `handle_connection` is only logged.
abbrev pub actions_of : Result TransportError (List Action) → List Action
actions_of (ok actions) = actions
actions_of (err e) = []

-- What the task does that `accept_loop` spawns for an incoming connection.
unfoldable pub session_of : LengthPrefixCodec → StableId → Result Text Connection → List Action
unfolding handle_connection
session_of codec conn (ok c) = actions_of (handle_connection codec conn c)
session_of codec conn (err e) = []

-- The tasks that `on_connect` and `on_message` spawn. A task reads the clock in its own turns.
unfoldable pub spawned : Action → List (List Stage)
spawned (on_connect client_id) = (serving (connected client_id) ∷ []) ∷ []
spawned (on_message client_id payload) = (serving (received client_id payload 0) ∷ []) ∷ []
spawned other = []

-- An incoming connection, a call of a timer, of the HTTP server or of a submission that ends, the
-- next action of a connection, or the next turn of a task at a time.
pub data Move : Type 0 where
  accepted : StableId → Result Text Connection → Move
  called : Call → Move
  acted : ℕ → Move
  turned : ℕ → ℕ → Move

unfoldable pub act_next : Pool → ℕ → Option (Action × List Action) → Pool × Sent
unfolding act spawned
act_next p i none = (p, [])
act_next p i (some (a, rest)) = (
  record p { node = act p.node a; sessions = set p.sessions i rest; tasks = spawned a ++ p.tasks },
  [],
)

abbrev pub turned_to : Pool → ℕ → List Stage → Turn → Pool × Sent
turned_to p i rest (c, effects, next) = (
  record p { node = record p.node { coordinator = c }; tasks = set p.tasks i (next ++ rest) },
  send_all p.node.codec p.node.registry effects,
)

module _ (ext : External) where
  unfoldable pub turn_next : Pool → ℕ → ℕ → Option (Stage × List Stage) → Pool × Sent
  unfolding turn send_all
  turn_next p i now none = (p, [])
  turn_next p i now (some (s, rest)) = turned_to p i rest (turn ext p.node.coordinator now s)

  unfoldable pub go : Pool → Move → Pool × Sent
  unfolding session_of pick act_next turn_next
  go p (accepted conn incoming) =
      (record p { sessions = session_of p.node.codec conn incoming ∷ p.sessions }, [])
  go p (called call) = (record p { tasks = (serving call ∷ []) ∷ p.tasks }, [])
  go p (acted i) = act_next p i (pick p.sessions i)
  go p (turned i now) = turn_next p i now (pick p.tasks i)

  -- The pool after a series of moves, and all that is sent, in order.
  unfoldable pub go_all : Pool → List Move → Pool × Sent
  unfolding go
  go_all p [] = (p, [])
  go_all p (m ∷ ms) =
      let (p', sent) = go p m in let (p'', later) = go_all p' ms in (p'', sent ++ later)

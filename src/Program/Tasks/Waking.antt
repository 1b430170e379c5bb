-- ===== src/Program/Tasks/Waking.antt =====
-- A request that waits is never forgotten, whatever runs in between.
use publisher.Base.{
  ℕ, zero, suc, ◌≡◌, refl, true, false, ◌⊎◌, inl, inr, Option, none, some, List, [], ◌∷◌, ◌++◌,
  arith,
}
use publisher.Base.Tests.{Bool-cases}
use publisher.Base.Lists.{any}
use publisher.Coordinator.State.{External}
use publisher.Coordinator.Messaging.Drain.{IsIdle}
use publisher.Transport.Session.{Action, inserted, on_connect, on_message, removed, on_disconnect}
use publisher.Program.Node.{act}
use publisher.Program.Tasks.{Stage, Turn, turn}
use publisher.Program.Tasks.Pool.{
  Pool, Move, accepted, called, acted, turned, pick, set, spawned, act_next, turned_to, turn_next,
  go, go_all,
}
use publisher.Program.Tasks.Woken.{is_draining, drains, any-append, AfterTurn, turn-AfterTurn}

pick-drains :
    (xss : List (List Stage)) (i : ℕ) (s : Stage) (rest new : List Stage)
    → pick xss i ≡ some (s, rest)
    → drains new ≡ true
    → any drains (set xss i new) ≡ true
unfolding pick any
pick-drains [] i s rest new e d = cc
pick-drains (xs ∷ xss) zero s rest new e d = ground arith
pick-drains (xs ∷ xss) (suc i) s rest new e d = ground (arith, pick-drains xss i s rest new)

drains-front : (next rest : List Stage) → drains next ≡ true → drains (next ++ rest) ≡ true
unfolding drains
drains-front next rest d = ground (arith, any-append is_draining next rest)

-- What drains still does after a turn of a stage that does not.
kept-drains :
    (xss : List (List Stage)) (i : ℕ) (s : Stage) (rest next : List Stage)
    → pick xss i ≡ some (s, rest)
    → is_draining s ≡ false
    → any drains xss ≡ true
    → any drains (set xss i (next ++ rest)) ≡ true
unfolding pick any drains
kept-drains [] i s rest next e n d = cc
kept-drains ([] ∷ xss) zero s rest next e n d = cc
kept-drains ((x ∷ xs) ∷ xss) zero s rest next e n d =
    ground (arith, any-append is_draining next rest)
kept-drains (xs ∷ xss) (suc i) s rest next e n d = ground (arith, kept-drains xss i s rest next)

-- No request waits whose chains are all free, or a task is there that will look through the queue.
abbrev IsAwake : Pool → Type 0
IsAwake p = (any drains p.tasks ≡ true) ⊎ IsIdle p.node.coordinator.state

module _ (ext : External) where
  turned_to-IsAwake :
      (p : Pool) (i : ℕ) (s : Stage) (rest : List Stage) (t : Turn)
      → pick p.tasks i ≡ some (s, rest)
      → ((is_draining s ≡ true) ⊎ IsIdle p.node.coordinator.state → AfterTurn t)
      → IsAwake p
      → IsAwake (turned_to p i rest t).0
  turned_to-IsAwake p i s rest (c, effects, next) at after awake =
      elim (Bool-cases (is_draining s)) [
        | inl looks ↦ elim (after (inl looks)) [
          | inl d ↦ inl (pick-drains p.tasks i s rest (next ++ rest) at (drains-front next rest d))
          | inr idle ↦ inr idle
        ]
        | inr other ↦ elim awake [
          | inl d ↦ inl (kept-drains p.tasks i s rest next at other d)
          | inr idle ↦ elim (after (inr idle)) [
            | inl d ↦
                inl (pick-drains p.tasks i s rest (next ++ rest) at (drains-front next rest d))
            | inr still ↦ inr still
          ]
        ]
      ]

  turn_next-IsAwake :
      (p : Pool) (i now : ℕ) (o : Option (Stage × List Stage))
      → pick p.tasks i ≡ o
      → IsAwake p
      → IsAwake (turn_next ext p i now o).0
  unfolding turn_next
  turn_next-IsAwake p i now none at awake = awake
  turn_next-IsAwake p i now (some (s, rest)) at awake =
      turned_to-IsAwake p i s rest (turn ext p.node.coordinator now s) at
        (turn-AfterTurn ext p.node.coordinator now s) awake

  act_next-IsAwake :
      (p : Pool) (i : ℕ) (o : Option (Action × List Action))
      → IsAwake p
      → IsAwake (act_next p i o).0
  unfolding act_next act spawned any drains is_draining
  act_next-IsAwake p i none awake = awake
  act_next-IsAwake p i (some (inserted client_id conn, rest)) awake = awake
  act_next-IsAwake p i (some (on_connect client_id, rest)) awake = awake
  act_next-IsAwake p i (some (on_message client_id payload, rest)) awake = awake
  act_next-IsAwake p i (some (removed client_id conn, rest)) awake = awake
  act_next-IsAwake p i (some (on_disconnect client_id, rest)) awake = awake

  go-IsAwake : (p : Pool) (m : Move) → IsAwake p → IsAwake (go ext p m).0
  unfolding go any drains is_draining
  go-IsAwake p (accepted conn incoming) awake = awake
  go-IsAwake p (called call) awake = awake
  go-IsAwake p (acted i) awake = act_next-IsAwake p i (pick p.sessions i) awake
  go-IsAwake p (turned i now) awake = turn_next-IsAwake p i now (pick p.tasks i) refl awake

  go_all-IsAwake : (p : Pool) (ms : List Move) → IsAwake p → IsAwake (go_all ext p ms).0
  unfolding go_all
  go_all-IsAwake p [] awake = awake
  go_all-IsAwake p (m ∷ ms) awake = go_all-IsAwake (go ext p m).0 ms (go-IsAwake p m awake)

  -- From a state whose queue holds no request with all chains free, however the tasks take turns:
  -- when no task is left that is to look at the queue, it again holds no request with all chains
  -- free.
  pub go_all-IsIdle :
      (p : Pool) (ms : List Move)
      → IsIdle p.node.coordinator.state
      → any drains (go_all ext p ms).0.tasks ≡ false
      → IsIdle (go_all ext p ms).0.node.coordinator.state
  go_all-IsIdle p ms idle none_looks = elim (go_all-IsAwake p ms (inr idle)) [
    | inl looks ↦ cc
    | inr still ↦ still
  ]

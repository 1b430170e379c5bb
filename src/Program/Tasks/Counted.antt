-- ===== src/Program/Tasks/Counted.antt =====
-- The gauge counts the connections between their two callbacks.
use publisher.Base.{
  ℕ, zero, suc, ◌+◌, ◌%◌, ◌<◌, ◌≡◌, refl, ap, ◌∙◌, none, some, Option, List, [], ◌∷◌, ◌++◌, map,
  arith,
}
use publisher.Base.Lists.{All}
use publisher.Base.Words.{add64, sub64, u64_mod}
use publisher.Base.Results.{Result, ok, err}
use publisher.Spec.Primitives.{Bytes, Text}
use publisher.Coordinator.State.{External}
use publisher.Coordinator.Service.{Coordinator}
use publisher.Transport.Framing.{TransportError, LengthPrefixCodec}
use publisher.Transport.Connections.{StableId}
use publisher.Transport.Reading.{Stream, Connection, read_client_id, messages, ◌>>=◌}
use publisher.Transport.Session.{
  Action, on_connect, on_message, removed, on_disconnect, handle_connection, named,
}
use publisher.Program.Node.{act}
use publisher.Program.Tasks.{Stage}
use publisher.Program.Tasks.Pool.{
  Pool, Move, accepted, called, acted, turned, pick, set, actions_of, session_of, act_next,
  turn_next, go, go_all,
}
use publisher.Program.Tasks.Steady.{gauge, turn-gauge}
use publisher.Program.Tasks.Sessions.{go_all-registry}

-- The callbacks that are still to come.
abbrev begins : Action → ℕ
begins (on_connect client_id) = 1
begins other = 0

abbrev ends : Action → ℕ
ends (on_disconnect client_id) = 1
ends other = 0

abbrev sum_of {ℓ} : {A : Type ℓ} → (A → ℕ) → List A → ℕ
sum_of f [] = 0
sum_of f (x ∷ xs) = f x + sum_of f xs

abbrev to_begin : List (List Action) → ℕ
to_begin = sum_of (sum_of begins)

abbrev to_end : List (List Action) → ℕ
to_end = sum_of (sum_of ends)

messages_begin :
    (client_id : Text) (payloads : List Bytes) (rest : List Action)
    → (sum_of begins (map (on_message client_id) payloads ++ rest) ≡ sum_of begins rest)
      × (sum_of ends (map (on_message client_id) payloads ++ rest) ≡ sum_of ends rest)
messages_begin client_id [] rest = (refl, refl)
messages_begin client_id (p ∷ ps) rest =
    let (up, down) = messages_begin client_id ps rest in (omega (arith, up), omega (arith, down))

bound_balanced :
    (codec : LengthPrefixCodec) (conn : StableId) (streams : List Stream)
    (r : Result TransportError Text)
    → let session = actions_of (r >>= λ client_id. ok (named codec conn streams client_id)) in
      sum_of begins session ≡ sum_of ends session
bound_balanced codec conn streams (err e) = refl
bound_balanced codec conn streams (ok client_id) =
    let (up, down) =
      messages_begin client_id (messages codec streams)
        (removed client_id conn ∷ on_disconnect client_id ∷ []) in
    omega (arith, up, down)

session_balanced :
    (codec : LengthPrefixCodec) (conn : StableId) (incoming : Result Text Connection)
    → sum_of begins (session_of codec conn incoming) ≡ sum_of ends (session_of codec conn incoming)
unfolding session_of handle_connection
session_balanced codec conn (err e) = refl
session_balanced codec conn (ok c) = by_streams c.streams
  where
    by_streams :
        (streams : List Stream)
        → let session = session_of codec conn (ok (record c { streams = streams })) in
          sum_of begins session ≡ sum_of ends session
    by_streams [] = refl
    by_streams (s ∷ streams) = bound_balanced codec conn streams (read_client_id codec s)

picked_sum :
    (f : Action → ℕ) (sessions : List (List Action)) (i : ℕ) (a : Action) (rest : List Action)
    → pick sessions i ≡ some (a, rest)
    → sum_of (sum_of f) sessions ≡ f a + sum_of (sum_of f) (set sessions i rest)
unfolding pick
picked_sum f [] i a rest e = cc
picked_sum f ([] ∷ xss) zero a rest e = cc
picked_sum f ((x ∷ xs) ∷ xss) zero a rest e =
    let whole : x ∷ xs ≡ a ∷ rest = cc in omega (arith, ap (sum_of f) whole)
picked_sum f (xs ∷ xss) (suc i) a rest e = omega (arith, picked_sum f xss i a rest e)

-- What the gauge shows, modulo its width, is how many have begun and not ended.
abbrev IsCounted : Coordinator → List (List Action) → Type 0
IsCounted c sessions =
    (g : ℕ) × (gauge c ≡ some g)
    × (g < u64_mod)
    × ((g + to_begin sessions) % u64_mod ≡ to_end sessions % u64_mod)

act_next-IsCounted :
    (p : Pool) (i : ℕ) (a : Action) (rest : List Action)
    → pick p.sessions i ≡ some (a, rest)
    → IsCounted p.node.coordinator p.sessions
    → IsCounted (act p.node a).coordinator (set p.sessions i rest)
unfolding act add64 sub64
act_next-IsCounted p i a rest e (g, shown, small, even) =
    by_action a (picked_sum begins p.sessions i a rest e) (picked_sum ends p.sessions i a rest e)
  where
    by_action :
        (b : Action)
        → to_begin p.sessions ≡ begins b + to_begin (set p.sessions i rest)
        → to_end p.sessions ≡ ends b + to_end (set p.sessions i rest)
        → IsCounted (act p.node b).coordinator (set p.sessions i rest)
    by_action (on_connect client_id) up down =
        (add64 g 1, ground arith, omega arith, omega (arith, up, down, even))
    by_action (on_disconnect client_id) up down =
        (sub64 g 1, ground arith, omega arith, omega (arith, up, down, even))
    by_action other up down = (g, shown, small, omega (arith, up, down, even))

module _ (ext : External) where
  go-IsCounted :
      (p : Pool) (m : Move)
      → IsCounted p.node.coordinator p.sessions
      → IsCounted (go ext p m).0.node.coordinator (go ext p m).0.sessions
  unfolding go act_next turn_next
  go-IsCounted p (accepted conn incoming) (g, shown, small, even) =
      (g, shown, small, omega (arith, even, session_balanced p.node.codec conn incoming))
  go-IsCounted p (called call) v = v
  go-IsCounted p (acted i) v = by_pick (pick p.sessions i) refl
    where
      by_pick :
          (o : Option (Action × List Action))
          → pick p.sessions i ≡ o
          → IsCounted (act_next p i o).0.node.coordinator (act_next p i o).0.sessions
      by_pick none e = v
      by_pick (some (a, rest)) e = act_next-IsCounted p i a rest e v
  go-IsCounted p (turned i now) (g, shown, small, even) = by_pick (pick p.tasks i)
    where
      by_pick :
          (o : Option (Stage × List Stage))
          → IsCounted
              (turn_next ext p i now o).0.node.coordinator
              (turn_next ext p i now o).0.sessions
      by_pick none = (g, shown, small, even)
      by_pick (some (s, rest)) = (g, turn-gauge ext p.node.coordinator now s ∙ shown, small, even)

  go_all-IsCounted :
      (p : Pool) (ms : List Move)
      → IsCounted p.node.coordinator p.sessions
      → IsCounted (go_all ext p ms).0.node.coordinator (go_all ext p ms).0.sessions
  unfolding go_all
  go_all-IsCounted p [] v = v
  go_all-IsCounted p (m ∷ ms) v = go_all-IsCounted (go ext p m).0 ms (go-IsCounted p m v)

over_sum :
    (f : Action → ℕ) (sessions : List (List Action))
    → All (λ s. s ≡ []) sessions
    → sum_of (sum_of f) sessions ≡ 0
over_sum f [] h = refl
over_sum f (s ∷ sessions) (h, hs) = omega (arith, ap (sum_of f) h, over_sum f sessions hs)

-- From a pool without connections whose gauge shows none, whatever connects, is read and is called:
-- once nothing of any connection is left, the registry is empty and the gauge shows none again.
pub sessions_over :
    (ext : External) (p : Pool) (ms : List Move)
    → p.node.registry ≡ []
    → p.sessions ≡ []
    → gauge p.node.coordinator ≡ some 0
    → All (λ s. s ≡ []) (go_all ext p ms).0.sessions
    → ((go_all ext p ms).0.node.registry ≡ [])
      × (gauge (go_all ext p ms).0.node.coordinator ≡ some 0)
sessions_over ext p ms no_one unopened zeroed over =
    let q = (go_all ext p ms).0 in
    let (g, shown, small, even) =
      go_all-IsCounted ext p ms
        (0, zeroed, omega arith, omega (arith, ap to_begin unopened, ap to_end unopened)) in
    let up : to_begin q.sessions ≡ 0 = over_sum begins q.sessions over in
    let down : to_end q.sessions ≡ 0 = over_sum ends q.sessions over in
    let none_left : g ≡ 0 = omega (arith, small, even, up, down) in
    (go_all-registry ext p ms no_one unopened over, shown ∙ ap (λ (n : ℕ). some n) none_left)

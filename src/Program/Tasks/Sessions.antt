-- ===== src/Program/Tasks/Sessions.antt =====
-- The registry against the connections that are being handled, whatever runs in between.
use publisher.Base.{
  ℕ, zero, suc, ◌≡◌, refl, sym, ap, subst, ◌∙◌, ◌≢◌, true, false, inl, inr, Option, none, some,
  List, [], ◌∷◌, arith,
}
use mathlib.Core.Logic.{if_pos}
use publisher.Base.Tests.{Option-cases}
use publisher.Base.Lists.{any, All}
use publisher.Base.Maps.{get, get-insert, get-remove}
use publisher.Spec.Primitives.{Text, text_discrete}
use publisher.Coordinator.State.{External}
use publisher.Transport.Connections.{StableId, ConnectionRegistry, connect, disconnect}
use publisher.Transport.Session.{Action, inserted, on_connect, on_message, removed, on_disconnect}
use publisher.Program.Node.{act}
use publisher.Program.Tasks.{Stage}
use publisher.Program.Tasks.Pool.{
  Pool, Move, accepted, called, acted, turned, pick, set, act_next, turn_next, go, go_all,
}
use publisher.Program.Tasks.Pairs.{is_removal, removes, IsPaired, session_of-IsPaired}

-- Every registered connection is still to be taken out by a session.
abbrev IsTracked : ConnectionRegistry → List (List Action) → Type 0
IsTracked reg sessions =
    (client_id : Text) (conn : StableId)
    → get text_discrete client_id reg ≡ some conn
    → any (removes client_id conn) sessions ≡ true

-- A session's next action: what is still to be removed, unless it is what the action removes.
picked-removes :
    (sessions : List (List Action)) (i : ℕ) (a : Action) (rest : List Action) (client_id : Text)
    (conn : StableId)
    → pick sessions i ≡ some (a, rest)
    → is_removal client_id conn a ≡ false
    → any (removes client_id conn) sessions ≡ true
    → any (removes client_id conn) (set sessions i rest) ≡ true
unfolding pick any removes
picked-removes [] i a rest client_id conn e n h = cc
picked-removes ([] ∷ xss) zero a rest client_id conn e n h = cc
picked-removes ((x ∷ xs) ∷ xss) zero a rest client_id conn e n h = ground arith
picked-removes (xs ∷ xss) (suc i) a rest client_id conn e n h =
    ground (arith, picked-removes xss i a rest client_id conn)

picked_rest-removes :
    (sessions : List (List Action)) (i : ℕ) (a : Action) (rest : List Action) (client_id : Text)
    (conn : StableId)
    → pick sessions i ≡ some (a, rest)
    → removes client_id conn rest ≡ true
    → any (removes client_id conn) (set sessions i rest) ≡ true
unfolding pick any
picked_rest-removes [] i a rest client_id conn e h = cc
picked_rest-removes ([] ∷ xss) zero a rest client_id conn e h = cc
picked_rest-removes ((x ∷ xs) ∷ xss) zero a rest client_id conn e h = ground arith
picked_rest-removes (xs ∷ xss) (suc i) a rest client_id conn e h =
    ground (arith, picked_rest-removes xss i a rest client_id conn)

tail-IsPaired : (a : Action) (rest : List Action) → IsPaired (a ∷ rest) → IsPaired rest
tail-IsPaired (inserted client_id conn) rest h = h.1
tail-IsPaired (on_connect client_id) rest h = h
tail-IsPaired (on_message client_id payload) rest h = h
tail-IsPaired (removed client_id conn) rest h = h
tail-IsPaired (on_disconnect client_id) rest h = h

picked-IsPaired :
    (sessions : List (List Action)) (i : ℕ) (a : Action) (rest : List Action)
    → pick sessions i ≡ some (a, rest)
    → All IsPaired sessions
    → IsPaired (a ∷ rest) × All IsPaired (set sessions i rest)
unfolding pick
picked-IsPaired [] i a rest e h = cc
picked-IsPaired ([] ∷ xss) zero a rest e h = cc
picked-IsPaired ((x ∷ xs) ∷ xss) zero a rest e h =
    let whole : x ∷ xs ≡ a ∷ rest = cc in
    let paired = subst IsPaired whole h.0 in (paired, (tail-IsPaired a rest paired, h.1))
picked-IsPaired (xs ∷ xss) (suc i) a rest e h =
    let (one, all) = picked-IsPaired xss i a rest e h.1 in (one, (h.0, all))

get-disconnect :
    (reg : ConnectionRegistry) (id client_id : Text) (k conn : StableId)
    → get text_discrete client_id (disconnect reg id k) ≡ some conn
    → (get text_discrete client_id reg ≡ some conn)
      × (is_removal client_id conn (removed id k) ≡ false)
unfolding disconnect is_removal
get-disconnect reg id client_id k conn h = elim (Option-cases (get text_discrete id reg)) [
  | inl absent ↦ elim (text_discrete id client_id) [
    | yes same ↦ ground (arith, absent, ap (λ c. get text_discrete c reg) same)
    | no other ↦ ground (arith, absent)
  ]
  | inr (stored, found) ↦ elim (text_discrete id client_id) [
    | yes same ↦ ground (
      arith,
      found,
      ap (λ c. get text_discrete c reg) same,
      get-remove text_discrete id client_id reg,
    )
    | no other ↦ ground (arith, found, get-remove text_discrete id client_id reg)
  ]
]

-- What a pool is like as its connections come and go.
pub record IsKept (p : Pool) : Type 0 where
  pub tracked : IsTracked p.node.registry p.sessions
  pub paired : All IsPaired p.sessions

acted-IsKept :
    (p : Pool) (i : ℕ) (a : Action) (rest : List Action)
    → pick p.sessions i ≡ some (a, rest)
    → IsKept p
    → IsTracked (act p.node a).registry (set p.sessions i rest)
unfolding act connect is_removal
acted-IsKept p i (inserted id k) rest e v client_id conn h = elim (text_discrete id client_id) [
  | yes same ↦
      let now : k ≡ conn =
        ground (arith, get-insert text_discrete id client_id k p.node.registry) in
      picked_rest-removes p.sessions i (inserted id k) rest client_id conn e (
        ap (λ c. removes c conn rest) (sym same)
        ∙ ap (λ (j : ℕ). removes id j rest) (sym now)
        ∙ (picked-IsPaired p.sessions i (inserted id k) rest e v.paired).0.0)
  | no other ↦ picked-removes p.sessions i (inserted id k) rest client_id conn e refl (
      v.tracked client_id conn
        (ground (arith, get-insert text_discrete id client_id k p.node.registry)))
]
acted-IsKept p i (removed id k) rest e v client_id conn h =
    let (old, other) = get-disconnect p.node.registry id client_id k conn h in
    picked-removes p.sessions i (removed id k) rest client_id conn e other
      (v.tracked client_id conn old)
acted-IsKept p i (on_connect id) rest e v client_id conn h =
    picked-removes p.sessions i (on_connect id) rest client_id conn e refl
      (v.tracked client_id conn h)
acted-IsKept p i (on_message id payload) rest e v client_id conn h =
    picked-removes p.sessions i (on_message id payload) rest client_id conn e refl
      (v.tracked client_id conn h)
acted-IsKept p i (on_disconnect id) rest e v client_id conn h =
    picked-removes p.sessions i (on_disconnect id) rest client_id conn e refl
      (v.tracked client_id conn h)

module _ (ext : External) where
  act_next-IsKept :
      (p : Pool) (i : ℕ) (o : Option (Action × List Action))
      → pick p.sessions i ≡ o
      → IsKept p
      → IsKept (act_next p i o).0
  unfolding act_next
  act_next-IsKept p i none e v = v
  act_next-IsKept p i (some (a, rest)) e v = record {
    tracked = acted-IsKept p i a rest e v;
    paired = (picked-IsPaired p.sessions i a rest e v.paired).1;
  }

  turn_next-IsKept :
      (p : Pool) (i now : ℕ) (o : Option (Stage × List Stage))
      → IsKept p
      → IsKept (turn_next ext p i now o).0
  unfolding turn_next
  turn_next-IsKept p i now none v = v
  turn_next-IsKept p i now (some (s, rest)) v = record { tracked = v.tracked; paired = v.paired }

  go-IsKept : (p : Pool) (m : Move) → IsKept p → IsKept (go ext p m).0
  unfolding go any
  go-IsKept p (accepted conn incoming) v = record {
    tracked = λ client_id k h. ground (arith, v.tracked client_id k h);
    paired = (session_of-IsPaired p.node.codec conn incoming, v.paired);
  }
  go-IsKept p (called call) v = record { tracked = v.tracked; paired = v.paired }
  go-IsKept p (acted i) v = act_next-IsKept p i (pick p.sessions i) refl v
  go-IsKept p (turned i now) v = turn_next-IsKept p i now (pick p.tasks i) v

  go_all-IsKept : (p : Pool) (ms : List Move) → IsKept p → IsKept (go_all ext p ms).0
  unfolding go_all
  go_all-IsKept p [] v = v
  go_all-IsKept p (m ∷ ms) v = go_all-IsKept (go ext p m).0 ms (go-IsKept p m v)

-- No session that has ended has anything to take out.
over-removes :
    (sessions : List (List Action)) (client_id : Text) (conn : StableId)
    → All (λ s. s ≡ []) sessions
    → any (removes client_id conn) sessions ≡ false
unfolding any removes
over-removes [] client_id conn h = refl
over-removes (s ∷ sessions) client_id conn (h, hs) =
    ground (arith, ap (removes client_id conn) h, over-removes sessions client_id conn hs)

nobody_left :
    (reg : ConnectionRegistry)
    → ((client_id : Text) (conn : StableId) → get text_discrete client_id reg ≢ some conn)
    → reg ≡ []
unfolding get
nobody_left [] h = refl
nobody_left ((id, conn) ∷ reg) h =
    absurd (h id conn (if_pos (text_discrete id id) refl (some conn) (get text_discrete id reg)))

-- x
pub go_all-registry :
    (ext : External) (p : Pool) (ms : List Move)
    → p.node.registry ≡ []
    → p.sessions ≡ []
    → All (λ s. s ≡ []) (go_all ext p ms).0.sessions
    → (go_all ext p ms).0.node.registry ≡ []
unfolding get
go_all-registry ext p ms no_one unopened over =
    let q = (go_all ext p ms).0 in
    let kept = go_all-IsKept ext p ms (record {
      tracked = λ client_id conn h.
          let empty : get text_discrete client_id p.node.registry ≡ none =
            ap (get text_discrete client_id) no_one in
          cc;
      paired = subst (All IsPaired) (sym unopened) tt;
    }) in
    nobody_left q.node.registry (λ client_id conn h.
      let still = kept.tracked client_id conn h in
      let none_left = over-removes q.sessions client_id conn over in cc)

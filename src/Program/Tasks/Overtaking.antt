-- ===== src/Program/Tasks/Overtaking.antt =====
-- The lock is released before a decision is sent, so what starts next may be announced first.
use publisher.Base.{ℕ, ◌≡◌, refl, ap, ◌∙◌, Bool, true, false, inl, inr, some, List, [], ◌∷◌, ◌++◌}
use mathlib.Core.List.{append-nil}
use publisher.Base.Tests.{ltb, leb, Bool-cases}
use publisher.Base.Lists.{length}
use publisher.Spec.Primitives.{Bytes, Text}
use publisher.Proto.Messages.{Message, XtRequest, Vote, vote, xt_request}
use publisher.Coordinator.State.{External, CoordinatorState, has_overlap, max_pending_queue_size}
use publisher.Coordinator.Requests.{extract_chains}
use publisher.Coordinator.Rounds.{prepare_xt, record_vote}
use publisher.Coordinator.Queue.{submit}
use publisher.Coordinator.Service.{
  Coordinator, Effect, broadcast_raw, inc_messages, inc_broadcasts, count_started, count_decision,
}
use publisher.Program.{received}
use publisher.Program.Startup.{Node}
use publisher.Program.Node.{Sent, send_all}
use publisher.Program.Tasks.{
  Stage, serving, deciding, draining, starting, Turn, turn, call_turn, decoded_turn, message_turn,
  payload_turn, vote_turn, request_turn, decided_stages,
}
use publisher.Program.Tasks.Pool.{Pool, Move, turned, pick, turned_to, turn_next, go, go_all}

module _ (ext : External) where
  -- One move, and the moves after it.
  go_turned :
      (p : Pool) (i now : ℕ) (s : Stage) (rest : List Stage) (t : Turn)
      → pick p.tasks i ≡ some (s, rest)
      → turn ext p.node.coordinator now s ≡ t
      → go ext p (turned i now) ≡ turned_to p i rest t
  unfolding go turn_next
  go_turned p i now s rest t at e = ap (turn_next ext p i now) at ∙ ap (turned_to p i rest) e

  go_all-step :
      (p p' : Pool) (m : Move) (ms : List Move) (sent later : Sent)
      → go ext p m ≡ (p', sent)
      → (go_all ext p' ms).1 ≡ later
      → (go_all ext p (m ∷ ms)).1 ≡ sent ++ later
  unfolding go_all
  go_all-step p p' m ms sent later e l =
      ap (λ r. r.1 ++ (go_all ext r.0 ms).1) e ∙ ap (λ r. sent ++ r) l

  -- The first turn of a vote that decides, and of a request that starts.
  turn-voted :
      (c : Coordinator) (client_id : Text) (frame message : Bytes) (now latency : ℕ) (m : Message)
      (v : Vote) (s : CoordinatorState) (d : Bool)
      → ext.decode frame ≡ some m
      → m.payload ≡ some (vote v)
      → record_vote ext c.state (ext.hex_encode v.instance_id) v.instance_id v.chain_id v.vote now
        ≡ (s, some (d, latency, message))
      → turn ext c now (serving (received client_id frame 0))
        ≡ (record (inc_messages c) { state = s }, [], deciding d latency message ∷ draining ∷ [])
  unfolding turn call_turn decoded_turn message_turn payload_turn vote_turn inc_messages
  turn-voted c client_id frame message now latency m v s d decoded payload voted =
      ap (λ o. decoded_turn ext (inc_messages c) client_id o now) decoded
      ∙ ap (λ o. message_turn ext (inc_messages c) client_id o now) payload
      ∙ ap (λ r. (record (inc_messages c) { state = r.0 }, [], decided_stages r.1)) voted

  turn-requested :
      (c : Coordinator) (client_id : Text) (frame : Bytes) (now : ℕ) (m : Message) (r : XtRequest)
      → ext.decode frame ≡ some m
      → m.payload ≡ some (xt_request r)
      → turn ext c now (serving (received client_id frame 0))
        ≡ request_turn ext (inc_messages c) r now
  unfolding turn call_turn decoded_turn message_turn payload_turn
  turn-requested c client_id frame now m r decoded payload =
      ap (λ o. decoded_turn ext (inc_messages c) client_id o now) decoded
      ∙ ap (λ o. message_turn ext (inc_messages c) client_id o now) payload

  request_turn-started :
      (c : Coordinator) (r : XtRequest) (now : ℕ)
      → ltb (length (extract_chains r)) 2 ≡ false
      → has_overlap c.state (extract_chains r) ≡ false
      → request_turn ext c r now ≡ (
          let (s, id, message) = prepare_xt ext c.state now r (extract_chains r) in
          (record c { state = s }, [], starting message ∷ []))
  unfolding request_turn submit
  request_turn-started c r now enough free = rw enough (rw free refl)

  request_turn-held :
      (c : Coordinator) (r : XtRequest) (now : ℕ)
      → has_overlap c.state (extract_chains r) ≡ true
      → (request_turn ext c r now).2 ≡ []
  unfolding request_turn submit
  request_turn-held c r now busy = elim (Bool-cases (ltb (length (extract_chains r)) 2)) [
    | inl few ↦ rw few refl
    | inr enough ↦ rw enough (
        rw busy (elim (Bool-cases (leb max_pending_queue_size (length c.state.pending_queue))) [
          | inl full ↦ rw full refl
          | inr room ↦ rw room refl
        ]))
  ]

  -- A pool whose first two tasks are given.
  abbrev two_tasks : Node → List (List Stage) → Coordinator → List Stage → List Stage → Pool
  two_tasks n others c first second = record {
    node = record n { coordinator = c };
    sessions = [];
    tasks = first ∷ second ∷ others;
  }

  -- What a task whose message is next does with its turn.
  sends_both :
      (n : Node) (first second : Effect)
      → send_all n.codec n.registry (first ∷ [])
          ++ (send_all n.codec n.registry (second ∷ []) ++ [])
        ≡ send_all n.codec n.registry (first ∷ second ∷ [])
  unfolding send_all
  sends_both n first second = simp append-nil

  module _ (n : Node) (others : List (List Stage)) (voter asker : Text) (vote_frame frame : Bytes)
      (now later latency : ℕ) (m k : Message) (v : Vote) (r : XtRequest) (s : CoordinatorState)
      (d : Bool) (message : Bytes) where
    abbrev voting : List Stage
    voting = serving (received voter vote_frame 0) ∷ []

    abbrev asking : List Stage
    asking = serving (received asker frame 0) ∷ []

    abbrev start_message : Bytes
    start_message = (prepare_xt ext s later r (extract_chains r)).2

    -- The lock is released before a decision is sent: where a vote decides a transaction and a
    -- request of at least two chains overlaps with what is active before the vote and with nothing
    -- after it, the request does not start before the vote, but a task that comes between the vote
    -- and the sending starts it and sends its start to everybody before the decision.
    pub start_overtakes :
        ext.decode vote_frame ≡ some m
        → m.payload ≡ some (vote v)
        → ext.decode frame ≡ some k
        → k.payload ≡ some (xt_request r)
        → record_vote ext n.coordinator.state
            (ext.hex_encode v.instance_id)
            v.instance_id
            v.chain_id
            v.vote
            now
          ≡ (s, some (d, latency, message))
        → ltb (length (extract_chains r)) 2 ≡ false
        → has_overlap n.coordinator.state (extract_chains r) ≡ true
        → has_overlap s (extract_chains r) ≡ false
        → ((turn ext n.coordinator later (serving (received asker frame 0))).2 ≡ [])
          × ((go_all ext
                (two_tasks n others n.coordinator voting asking)
                (turned 0 now ∷ turned 1 later ∷ turned 1 later ∷ turned 0 later ∷ [])).1
              ≡ send_all n.codec n.registry
                  (broadcast_raw start_message ∷ broadcast_raw message ∷ []))
    unfolding pick turn go_all send_all inc_messages inc_broadcasts
    start_overtakes decoded payload asked wanted voted enough busy free =
        let c = n.coordinator in
        let c1 = record (inc_messages c) { state = s } in
        let s2 = (prepare_xt ext s later r (extract_chains r)).0 in
        let c2 = record (inc_messages c1) { state = s2 } in
        let c3 = count_started (inc_broadcasts c2) in
        let deciding_task = deciding d latency message ∷ draining ∷ [] in
        let starting_task = starting start_message ∷ [] in
        let p0 = two_tasks n others c voting asking in
        let p1 = two_tasks n others c1 deciding_task asking in
        let p2 = two_tasks n others c2 deciding_task starting_task in
        let p3 = two_tasks n others c3 deciding_task [] in
        let p4 =
          two_tasks n others (inc_broadcasts (count_decision d latency c3)) (draining ∷ []) [] in
        (
          ap (λ t. t.2) (turn-requested c asker frame later k r asked wanted)
              ∙ request_turn-held (inc_messages c) r later busy,
          go_all-step p0 p1 (turned 0 now) (turned 1 later ∷ turned 1 later ∷ turned 0 later ∷ [])
                [] _
                (go_turned p0 0 now _ [] _ refl
                  (turn-voted c voter vote_frame message now latency m v s d decoded payload voted))
                (go_all-step p1 p2 (turned 1 later) (turned 1 later ∷ turned 0 later ∷ []) [] _
                  (go_turned p1 1 later _ [] _ refl (
                    turn-requested c1 asker frame later k r asked wanted
                    ∙ request_turn-started (inc_messages c1) r later enough free))
                  (go_all-step p2 p3 (turned 1 later) (turned 0 later ∷ [])
                    (send_all n.codec n.registry (broadcast_raw start_message ∷ [])) _
                    (go_turned p2 1 later (starting start_message) [] _ refl refl)
                    (go_all-step p3 p4 (turned 0 later) []
                      (send_all n.codec n.registry (broadcast_raw message ∷ [])) []
                      (go_turned p3 0 later (deciding d latency message) (draining ∷ []) _ refl
                        refl)
                      refl)))
              ∙ sends_both n (broadcast_raw start_message) (broadcast_raw message),
        )

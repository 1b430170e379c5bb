-- ===== src/Program/Decisions.antt =====
-- From a vote's frame to the message that every sidecar gets.
use publisher.Base.{
  ℕ, ◌≡◌, ◌⊎◌, refl, ap, ◌∙◌, Bool, true, inl, inr, Option, none, some, List, [], ◌∷◌, ℕ_discrete,
}
use publisher.Base.Tests.{Option-cases}
use publisher.Base.Lists.{contains}
use publisher.Base.Maps.{get}
use publisher.Spec.Primitives.{Bytes, Text, text_discrete}
use publisher.Proto.Messages.{Vote, Message, vote}
use publisher.Coordinator.State.{External, ActiveXt, CoordinatorState, decided_message}
use publisher.Coordinator.Rounds.{record_vote}
use publisher.Coordinator.Service.{Coordinator, Effect, broadcast_raw, inc_messages}
use publisher.Coordinator.Messaging.{publish_decision, handle_vote}
use publisher.Coordinator.Dispatch.{dispatch, dispatch_payload, dispatch-dispatch_payload}
use publisher.Coordinator.Voting.{IsOpen}
use publisher.Coordinator.Voting.Commit.{verdict, outcome, record_vote_decides}

publish_decision-effects :
    (ext : External) (c : Coordinator) (d : Bool) (latency : ℕ) (message : Bytes) (now : ℕ)
    → (starts : List Effect) × ((publish_decision ext c (some (d, latency, message)) now).1
        ≡ broadcast_raw message ∷ starts)
unfolding publish_decision
publish_decision-effects ext c d latency message now = (_, refl)

-- A frame with a vote is a vote, once it is counted.
dispatch_as_vote :
    (ext : External) (c : Coordinator) (client_id : Text) (frame : Bytes) (now : ℕ) (m : Message)
    (v : Vote)
    → ext.decode frame ≡ some m
    → m.payload ≡ some (vote v)
    → dispatch ext c client_id frame now
      ≡ handle_vote ext (inc_messages c) v.instance_id v.chain_id v.vote now
unfolding dispatch_payload
dispatch_as_vote ext c client_id frame now m v decoded payload =
    dispatch-dispatch_payload ext c client_id frame now m (vote v) decoded payload

-- What follows the vote is told by what `record_vote` says of it.
handle_vote-result :
    (ext : External) (c : Coordinator) (bytes : Bytes) (chain_id : ℕ) (b : Bool) (now : ℕ)
    (r : Option (Bool × ℕ × Bytes))
    → (record_vote ext c.state (ext.hex_encode bytes) bytes chain_id b now).1 ≡ r
    → handle_vote ext c bytes chain_id b now
      ≡ publish_decision ext
          (record c {
            state = (record_vote ext c.state (ext.hex_encode bytes) bytes chain_id b now).0;
          })
          r
          now
unfolding handle_vote
handle_vote-result ext c bytes chain_id b now r e =
    ap
      (λ q.
        publish_decision ext
          (record c {
            state = (record_vote ext c.state (ext.hex_encode bytes) bytes chain_id b now).0;
          })
          q now)
      e

module _ (ext : External) (c : Coordinator) (client_id : Text) (frame : Bytes) (now : ℕ)
    (m : Message) (v : Vote) (xt : ActiveXt) (decoded : ext.decode frame ≡ some m)
    (payload : m.payload ≡ some (vote v))
    (active : get text_discrete (ext.hex_encode v.instance_id) c.state.active_xts ≡ some xt)
    (member : contains ℕ_discrete xt.chains v.chain_id ≡ true)
    (fresh : get ℕ_discrete v.chain_id xt.votes ≡ none) (o : IsOpen xt) where
  abbrev id : Text
  id = ext.hex_encode v.instance_id

  abbrev voted : CoordinatorState
  voted = (record_vote ext c.state id v.instance_id v.chain_id v.vote now).0

  abbrev result : Option Bool → Option (Bool × ℕ × Bytes)
  result = outcome ext c.state id v.instance_id v.chain_id v.vote now xt active member fresh o

  -- The frame publishes what its verdict makes of it.
  dispatch-result :
      (d : Option Bool)
      → verdict xt v.vote ≡ d
      → dispatch ext c client_id frame now
        ≡ publish_decision ext (record (inc_messages c) { state = voted }) (result d) now
  unfolding inc_messages
  dispatch-result d e =
      dispatch_as_vote ext c client_id frame now m v decoded payload
      ∙ handle_vote-result ext (inc_messages c) v.instance_id v.chain_id v.vote now _ (
          (record_vote_decides ext c.state id v.instance_id v.chain_id v.vote now xt active member
            fresh o).0
          ∙ ap result e)

  -- Where a frame with the first vote of a participant of an open transaction is served with no
  -- other task in between: nothing is sent while the transaction waits, and otherwise its decision
  -- is broadcast before anything else that serving the frame sends.
  pub dispatch_vote :
      ((verdict xt v.vote ≡ none) × ((dispatch ext c client_id frame now).1 ≡ []))
      ⊎ ((d : Bool) × ((starts : List Effect) × ((verdict xt v.vote ≡ some d)
              × ((dispatch ext c client_id frame now).1
                  ≡ broadcast_raw (ext.encode_to_vec (decided_message v.instance_id d)) ∷ starts))))
  unfolding publish_decision
  dispatch_vote = elim (Option-cases (verdict xt v.vote)) [
    | inl waits ↦ inl (waits, ap (λ r. r.1) (dispatch-result none waits))
    | inr (d, decides) ↦ inr (
      d,
      (
        _,
        (
          decides,
          ap (λ r. r.1) (dispatch-result (some d) decides)
              ∙ (publish_decision-effects ext _ d _ _ now).1,
        ),
      ),
    )
  ]

-- ===== src/Coordinator/Rounds.antt =====
-- crates/coordinator/src/coordinator.rs: the rounds of two-phase commit, `prepare_xt`,
-- `record_vote` and `reap_timed_out`. The clock is read by the caller and passed in as `now`.
use publisher.Base.{ℕ, ◌-◌, Bool, false, not, Option, none, some, List, [], ◌∷◌, ℕ_discrete}
use publisher.Base.Tests.{leb, if◌then◌else◌}
use publisher.Base.Lists.{contains}
use publisher.Base.Maps.{get, contains_key, insert, remove}
use publisher.Base.Words.{add64}
use publisher.Spec.Primitives.{Bytes, Text, text_discrete, ChainId, InstanceId, to_string}
use publisher.Sbcp.Id.{generate_instance_id}
use publisher.Proto.Messages
use publisher.Proto.Messages.{XtRequest}
use publisher.Coordinator.State.{
  External, ActiveXt, CoordinatorState, reserve_chains, release_chains, check_decision, envelope,
  decided_message,
}
use publisher.Coordinator.Requests.{proto_to_spec_xt}

-- Release the chains of a transaction and forget it: the last two steps of every decision.
unfoldable pub close_xt : CoordinatorState → Text → CoordinatorState
unfolding release_chains
close_xt s xt_id =
    let released = release_chains s xt_id in
    record released { active_xts = remove text_discrete xt_id released.active_xts }

unfoldable pub latency_of : Option ActiveXt → ℕ → ℕ
latency_of none now = 0
latency_of (some xt) now = now - xt.start_time

unfoldable pub instance_bytes_of : Option ActiveXt → Bytes
instance_bytes_of none = []
instance_bytes_of (some xt) = xt.instance_id_bytes

-- The ids of the transactions whose time is up.
unfoldable pub expired_ids : List (Text × ActiveXt) → ℕ → ℕ → List Text
expired_ids [] now timeout = []
expired_ids ((xt_id, xt) ∷ xts) now timeout =
    let others = expired_ids xts now timeout in
    if leb timeout (now - xt.start_time) then xt_id ∷ others else others

module _ (ext : External) where
  -- The instance id of the next transaction.
  unfoldable pub next_instance_id : CoordinatorState → XtRequest → InstanceId
  next_instance_id s xt_req =
      generate_instance_id ext.sha256 s.current_period_id s.next_sequence_num
        (proto_to_spec_xt xt_req)

  -- The new state, the id of the transaction, and the encoded `StartInstance`.
  unfoldable pub prepare_xt :
      CoordinatorState → ℕ → XtRequest → List ChainId → CoordinatorState × Text × Bytes
  unfolding reserve_chains next_instance_id
  prepare_xt s now xt_req chains =
      let seq_num = s.next_sequence_num in
      let period_id = s.current_period_id in
      let instance_id = next_instance_id s xt_req in
      let xt_id = to_string instance_id in
      let numbered = record s { next_sequence_num = add64 seq_num 1 } in
      let reserved = reserve_chains numbered xt_id chains in
      (
        record reserved {
          active_xts =
              insert text_discrete xt_id
                (record {
                  chains = chains;
                  votes = [];
                  instance_id_bytes = instance_id;
                  start_time = now;
                })
                reserved.active_xts;
        },
        xt_id,
        ext.encode_to_vec (
            envelope (
              Messages.start_instance (record {
                instance_id = instance_id;
                period_id = period_id;
                sequence_number = seq_num;
                xt_request = some xt_req;
              }))),
      )

  -- `let decision = decision?` and what follows it: the decision, its latency and the message.
  unfoldable pub conclude :
      CoordinatorState
      → Text
      → Bytes
      → ℕ
      → Option Bool
      → CoordinatorState × Option (Bool × ℕ × Bytes)
  unfolding close_xt latency_of
  conclude s xt_id instance_id_bytes now none = (s, none)
  conclude s xt_id instance_id_bytes now (some decision) = (
    close_xt s xt_id,
    some (
      decision,
      latency_of (get text_discrete xt_id s.active_xts) now,
      ext.encode_to_vec (decided_message instance_id_bytes decision),
    ),
  )

  unfoldable pub vote_on :
      CoordinatorState
      → Text
      → Bytes
      → ChainId
      → Bool
      → ℕ
      → ActiveXt
      → CoordinatorState × Option (Bool × ℕ × Bytes)
  unfolding conclude check_decision
  vote_on s xt_id instance_id_bytes chain_id vote now xt =
      if not (contains ℕ_discrete xt.chains chain_id)
      then (s, none)
      else if contains_key ℕ_discrete chain_id xt.votes
      then (s, none)
      else (let voted = record s {
        active_xts =
            insert text_discrete xt_id
              (record xt { votes = insert ℕ_discrete chain_id vote xt.votes }) s.active_xts;
      } in
          conclude voted xt_id instance_id_bytes now
            (if not vote then some false else check_decision voted xt_id))

  unfoldable pub record_vote :
      CoordinatorState
      → Text
      → Bytes
      → ChainId
      → Bool
      → ℕ
      → CoordinatorState × Option (Bool × ℕ × Bytes)
  unfolding vote_on
  record_vote s xt_id instance_id_bytes chain_id vote now =
      elim (get text_discrete xt_id s.active_xts) [
        | none ↦ (s, none)
        | some xt ↦ vote_on s xt_id instance_id_bytes chain_id vote now xt
      ]

  -- The loop over the expired ids, with the `Decided(false)` message of each.
  unfoldable pub reap_each : CoordinatorState → List Text → CoordinatorState × List (Text × Bytes)
  unfolding close_xt instance_bytes_of
  reap_each s [] = (s, [])
  reap_each s (xt_id ∷ ids) =
      let bytes = instance_bytes_of (get text_discrete xt_id s.active_xts) in
      let (s', results) = reap_each (close_xt s xt_id) ids in
      (s', (xt_id, ext.encode_to_vec (decided_message bytes false)) ∷ results)

  unfoldable pub reap_timed_out : CoordinatorState → ℕ → ℕ → CoordinatorState × List (Text × Bytes)
  unfolding reap_each expired_ids
  reap_timed_out s now timeout = reap_each s (expired_ids s.active_xts now timeout)

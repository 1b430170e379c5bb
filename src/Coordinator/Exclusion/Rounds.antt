-- ===== src/Coordinator/Exclusion/Rounds.antt =====
-- Every operation on the rounds keeps the holders of the chains exclusive.
use publisher.Base.{
  ℕ, ◌≡◌, refl, Bool, false, inl, inr, Option, none, some, List, [], ◌∷◌, ℕ_discrete,
}
use publisher.Base.Tests.{Bool-cases, Option-cases}
use publisher.Base.Lists.{contains}
use publisher.Base.Maps.{get, contains_key, remove_absent}
use publisher.Spec.Primitives.{Bytes, Text, text_discrete, ChainId}
use publisher.Proto.Messages.{XtRequest}
use publisher.Coordinator.State.{External, ActiveXt, CoordinatorState, has_overlap}
use publisher.Coordinator.Rounds.{
  close_xt, prepare_xt, conclude, vote_on, record_vote, expired_ids, reap_each, reap_timed_out,
}
use publisher.Coordinator.Holds.{has_overlap-get}
use publisher.Coordinator.Exclusion.{IsExclusive, open-Exclusive, close-Exclusive, update-Exclusive}

pub close_xt-IsExclusive :
    (s : CoordinatorState) (id : Text) → IsExclusive s → IsExclusive (close_xt s id)
unfolding close_xt
close_xt-IsExclusive s id v = elim (Option-cases (get text_discrete id s.active_xts)) [
  | inl absent ↦ rw (absent, close_xt) (rw (remove_absent text_discrete id s.active_xts absent) v)
  | inr (xt, active) ↦
      rw (active, close_xt) (close-Exclusive s.active_xts s.active_chains v id xt active)
]

module _ (ext : External) where
  pub prepare_xt-IsExclusive :
      (s : CoordinatorState) (now : ℕ) (req : XtRequest) (chains : List ChainId)
      → get text_discrete (prepare_xt ext s now req chains).1 s.active_xts ≡ none
      → has_overlap s chains ≡ false
      → IsExclusive s
      → IsExclusive (prepare_xt ext s now req chains).0
  unfolding prepare_xt
  prepare_xt-IsExclusive s now req chains new free v =
      open-Exclusive s.active_xts s.active_chains v _ _ new
        (λ c k. has_overlap-get s chains c free k)

  conclude-IsExclusive :
      (s : CoordinatorState) (id : Text) (bytes : Bytes) (now : ℕ) (d : Option Bool)
      → IsExclusive s
      → IsExclusive (conclude ext s id bytes now d).0
  unfolding conclude
  conclude-IsExclusive s id bytes now none v = v
  conclude-IsExclusive s id bytes now (some d) v = close_xt-IsExclusive s id v

  vote_on-IsExclusive :
      (s : CoordinatorState) (id : Text) (bytes : Bytes) (c : ChainId) (b : Bool) (now : ℕ)
      (xt : ActiveXt)
      → get text_discrete id s.active_xts ≡ some xt
      → IsExclusive s
      → IsExclusive (vote_on ext s id bytes c b now xt).0
  unfolding vote_on
  vote_on-IsExclusive s id bytes c b now xt active v =
      elim (Bool-cases (contains ℕ_discrete xt.chains c)) [
        | inr stranger ↦ rw stranger v
        | inl member ↦ rw member (elim (Bool-cases (contains_key ℕ_discrete c xt.votes)) [
          | inl again ↦ rw again v
          | inr first ↦ rw first (
              conclude-IsExclusive _ id bytes now _
                (update-Exclusive s.active_xts s.active_chains v id xt _ active refl))
        ])
      ]

  -- A vote, counted or not, keeps the chains exclusive.
  pub record_vote-IsExclusive :
      (s : CoordinatorState) (id : Text) (bytes : Bytes) (c : ChainId) (b : Bool) (now : ℕ)
      → IsExclusive s
      → IsExclusive (record_vote ext s id bytes c b now).0
  unfolding record_vote
  record_vote-IsExclusive s id bytes c b now v =
      elim (Option-cases (get text_discrete id s.active_xts)) [
        | inl absent ↦ rw (absent, record_vote) v
        | inr (xt, active) ↦
            rw (active, record_vote) (vote_on-IsExclusive s id bytes c b now xt active v)
      ]

  reap_each-IsExclusive :
      (s : CoordinatorState) (ids : List Text) → IsExclusive s → IsExclusive (reap_each ext s ids).0
  unfolding reap_each
  reap_each-IsExclusive s [] v = v
  reap_each-IsExclusive s (id ∷ ids) v =
      reap_each-IsExclusive (close_xt s id) ids (close_xt-IsExclusive s id v)

  pub reap_timed_out-IsExclusive :
      (s : CoordinatorState) (now timeout : ℕ)
      → IsExclusive s
      → IsExclusive (reap_timed_out ext s now timeout).0
  unfolding reap_timed_out
  reap_timed_out-IsExclusive s now timeout v =
      reap_each-IsExclusive s (expired_ids s.active_xts now timeout) v

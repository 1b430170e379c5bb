-- ===== src/Coordinator/Voting/Commit.antt =====
-- What `record_vote` decides on the first vote of a participant.
use publisher.Base.{
  ℕ, suc, ◌-◌, ◌≤◌, ◌≡◌, ◌≢◌, ◌↔◌, refl, sym, ap, ◌∙◌, Bool, true, false, not, inl, inr, Option,
  none, some, List, [], ◌∷◌, arith, ℕ_discrete,
}
use publisher.Base.Tests.{ltb, if◌then◌else◌, Bool-cases, Option-cases}
use publisher.Base.Lists.{length, contains, length-le}
use publisher.Base.Maps.{get, insert, keys, contains-keys, get-insert, get-remove}
use publisher.Spec.Primitives.{Bytes, Text, text_discrete, ChainId}
use publisher.Coordinator.State.{
  External, ActiveXt, CoordinatorState, check_decision, decided_message,
}
use publisher.Coordinator.Rounds.{conclude, vote_on, record_vote, close_xt, latency_of}
use publisher.Coordinator.Voting.{IsOpen, with_vote, decision_of-with_vote, all-get}

-- What the vote decides: a no decides at once, a yes only if nobody else is missing.
abbrev pub verdict : ActiveXt → Bool → Option Bool
verdict xt false = some false
verdict xt true = if ltb (suc (length xt.votes)) (length xt.chains) then none else some true

length-keys {ℓ} : {K V : Type ℓ} (m : List (K × V)) → length (keys m) ≡ length m
length-keys [] = refl
length-keys (e ∷ m) = ap suc (length-keys m)

-- The members of `xs` other than `c` are among the keys of the votes.
abbrev pub OthersVoted : ActiveXt → ChainId → Type 0
OthersVoted xt c =
    (d : ChainId)
    → contains ℕ_discrete xt.chains d ≡ true
    → c ≢ d
    → get ℕ_discrete d xt.votes ≡ some true

-- With every other participant's yes the votes are complete …
others_complete :
    (xt : ActiveXt) (c : ChainId)
    → IsOpen xt
    → OthersVoted xt c
    → length xt.chains ≤ suc (length xt.votes)
unfolding contains
others_complete xt c o voted = omega (
  arith,
  length-keys xt.votes,
  length-le ℕ_discrete xt.chains (c ∷ keys xt.votes) o.distinct
      (λ d h. ground (arith, voted d h, contains-keys ℕ_discrete d xt.votes)),
)

-- … and they are complete only then.
complete_others :
    (xt : ActiveXt) (c : ChainId)
    → IsOpen xt
    → contains ℕ_discrete xt.chains c ≡ true
    → get ℕ_discrete c xt.votes ≡ none
    → length xt.chains ≤ suc (length xt.votes)
    → OthersVoted xt c
unfolding contains
complete_others xt c o member first full d h other =
    elim (Option-cases (get ℕ_discrete d xt.votes)) [
      | inr (b, e) ↦ e ∙ ap some (all-get xt.votes d b o.unanimous e)
      | inl missing ↦ absurd (
          omega (
            arith,
            length-keys xt.votes,
            length-le ℕ_discrete (d ∷ c ∷ keys xt.votes) xt.chains
                (
                  ground (arith, contains-keys ℕ_discrete d xt.votes),
                  (ground (arith, contains-keys ℕ_discrete c xt.votes), o.once),
                )
                (λ a k. ground (arith, o.voters a)),
          ))
    ]

-- The state with another record of a transaction.
abbrev pub replace : CoordinatorState → Text → ActiveXt → CoordinatorState
replace s id xt = record s { active_xts = insert text_discrete id xt s.active_xts }

module _ (ext : External) (s : CoordinatorState) (id : Text) (bytes : Bytes) (c : ChainId)
    (b : Bool) (now : ℕ) (xt : ActiveXt) (active : get text_discrete id s.active_xts ≡ some xt)
    (member : contains ℕ_discrete xt.chains c ≡ true) (first : get ℕ_discrete c xt.votes ≡ none)
    (o : IsOpen xt) where
  get-voted :
      get text_discrete id (replace s id (with_vote xt c b)).active_xts ≡ some (with_vote xt c b)
  get-voted = ground (arith, get-insert text_discrete id id (with_vote xt c b) s.active_xts)

  verdict-voted :
      (if not b then some false else check_decision (replace s id (with_vote xt c b)) id)
      ≡ verdict xt b
  unfolding check_decision
  verdict-voted = elim (Bool-cases b) [
    | inl yes_vote ↦ ground (arith, get-voted, decision_of-with_vote xt c first o)
    | inr no_vote ↦ ground arith
  ]

  pub record_vote-conclude :
      record_vote ext s id bytes c b now
      ≡ conclude ext (replace s id (with_vote xt c b)) id bytes now (verdict xt b)
  unfolding record_vote vote_on
  record_vote-conclude =
      rw (active, record_vote, vote_on) (rw member (rw first (rw (← verdict-voted))))

  -- What the source makes of a verdict.
  abbrev pub outcome : Option Bool → Option (Bool × ℕ × Bytes)
  outcome none = none
  outcome (some d) = some (d, now - xt.start_time, ext.encode_to_vec (decided_message bytes d))

  -- The first vote of a participant on an open transaction aborts if it is a no, commits if it is a
  -- yes and nobody else is missing, and otherwise is kept; a decided transaction is no longer
  -- active.
  pub record_vote_decides :
      ((record_vote ext s id bytes c b now).1 ≡ outcome (verdict xt b))
      × (get text_discrete id (record_vote ext s id bytes c b now).0.active_xts
          ≡ (elim (verdict xt b) [ none ↦ some (with_vote xt c b) | some d ↦ none ]))
  unfolding conclude close_xt latency_of
  record_vote_decides = elim (Option-cases (verdict xt b)) [
    | inl waits ↦ rw record_vote-conclude (rw waits (refl, get-voted))
    | inr (d, decided) ↦ rw record_vote-conclude (
        rw decided (
          rw get-voted refl,
          ground
              (arith, get-remove text_discrete id id (replace s id (with_vote xt c b)).active_xts),
        ))
  ]

  -- The first vote of a participant on an open transaction commits it exactly if it is a yes and
  -- every other participant has voted yes before.
  pub commit_iff_unanimous :
      ((record_vote ext s id bytes c b now).1 ≡ outcome (some true))
      ↔ ((b ≡ true) × OthersVoted xt c)
  commit_iff_unanimous = (
    λ e.
        let said : outcome (verdict xt b) ≡ outcome (some true) = sym record_vote_decides.0 ∙ e in
        (ground (arith, said), complete_others xt c o member first (ground (arith, said))),
    λ u.
        let full : length xt.chains ≤ suc (length xt.votes) = others_complete xt c o u.1 in
        record_vote_decides.0 ∙ ground (arith, u.0),
  )

-- ===== src/Coordinator/Voting/Liveness.antt =====
-- A transaction that all participants approve commits on the last vote, in whatever order they come.
use publisher.Base.{
  ℕ, ◌+◌, ◌≡◌, Bool, true, false, Option, none, some, List, [], ◌∷◌, arith, ℕ_discrete,
}
use publisher.Base.Lists.{length, contains, IsDistinct, All}
use publisher.Base.Maps.{get, get-insert}
use publisher.Spec.Primitives.{Bytes, Text, text_discrete, ChainId}
use publisher.Coordinator.State.{External, ActiveXt, CoordinatorState}
use publisher.Coordinator.Rounds.{record_vote}
use publisher.Coordinator.Voting.{IsOpen, with_vote, with_vote-IsOpen, length-with_vote}
use publisher.Coordinator.Voting.Commit.{record_vote_decides}

abbrev decision_in : Option (Bool × ℕ × Bytes) → Option Bool
decision_in none = none
decision_in (some r) = some r.0

-- The approvals of some chains, one after the other, and what each decides.
unfoldable pub approve :
    External
    → CoordinatorState
    → Text
    → Bytes
    → List ChainId
    → ℕ
    → CoordinatorState × List (Option Bool)
unfolding record_vote
approve ext s id bytes [] now = (s, [])
approve ext s id bytes (c ∷ cs) now =
    let (s', result) = record_vote ext s id bytes c true now in
    let (s'', results) = approve ext s' id bytes cs now in (s'', decision_in result ∷ results)

-- Undecided until the last, which commits.
abbrev commits_last : List ChainId → List (Option Bool)
commits_last [] = []
commits_last (c ∷ []) = some true ∷ []
commits_last (c ∷ d ∷ cs) = none ∷ commits_last (d ∷ cs)

-- Participants that have not voted.
abbrev AreMissing : ActiveXt → List ChainId → Type 0
AreMissing xt =
    All (λ c. (contains ℕ_discrete xt.chains c ≡ true) × (get ℕ_discrete c xt.votes ≡ none))

AreMissing-with_vote :
    (xt : ActiveXt) (c : ChainId) (cs : List ChainId)
    → contains ℕ_discrete cs c ≡ false
    → AreMissing xt cs
    → AreMissing (with_vote xt c true) cs
unfolding contains
AreMissing-with_vote xt c [] new m = tt
AreMissing-with_vote xt c (d ∷ cs) new m = (
  (m.0.0, ground (arith, get-insert ℕ_discrete c d true xt.votes)),
  AreMissing-with_vote xt c cs (ground arith) m.1,
)

-- The approvals of exactly the participants of an open transaction that have not voted, in any
-- order, decide nothing before the last one and commit on it, and the transaction is then no longer
-- active.
pub approve_commits :
    (ext : External) (s : CoordinatorState) (id : Text) (bytes : Bytes) (cs : List ChainId)
    (now : ℕ) (xt : ActiveXt)
    → get text_discrete id s.active_xts ≡ some xt
    → IsOpen xt
    → IsDistinct ℕ_discrete cs
    → AreMissing xt cs
    → length xt.votes + length cs ≡ length xt.chains
    → ((approve ext s id bytes cs now).1 ≡ commits_last cs)
      × (get text_discrete id (approve ext s id bytes cs now).0.active_xts ≡ none)
unfolding approve
approve_commits ext s id bytes [] now xt active o d m n = absurd (omega (arith, o.undecided))
approve_commits ext s id bytes (c ∷ []) now xt active o d m n =
    let (decides, gone) = record_vote_decides ext s id bytes c true now xt active m.0.0 m.0.1 o in
    (ground (arith, decides), ground (arith, gone))
approve_commits ext s id bytes (c ∷ e ∷ cs) now xt active o d m n =
    let (decides, kept) = record_vote_decides ext s id bytes c true now xt active m.0.0 m.0.1 o in
    let (rest, gone) =
      approve_commits ext (record_vote ext s id bytes c true now).0 id bytes (e ∷ cs) now
        (with_vote xt c true) (ground (arith, kept))
        (with_vote-IsOpen xt c m.0.1 m.0.0 (omega arith) o) d.1
        (AreMissing-with_vote xt c (e ∷ cs) d.0 m.1)
        (omega (arith, length-with_vote xt c m.0.1 true)) in
    (ground (arith, decides, rest), gone)

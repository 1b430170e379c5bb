-- ===== src/Coordinator/Locking.antt =====
-- What the coordinator promises of the chains: a lock service that grants a set of free chains at
-- once to a new holder and takes back all that a holder has. The state's two maps implement it.
pub mod Histories
use publisher.Base.{
  ℕ, ◌≡◌, refl, ap, ◌∙◌, Bool, true, false, not, ◌&&◌, map, inl, inr, Option, none, some, List, [],
  ◌∷◌, arith, ℕ_discrete,
}
use mathlib.Core.Path.{fun_ext}
use publisher.Base.Tests.{if◌then◌else◌, Bool-cases, Option-cases}
use publisher.Base.Lists.{contains, any}
use publisher.Base.Maps.{get, contains_key, is_some}
use publisher.Spec.Primitives.{Bytes, Text, text_discrete, ChainId}
use publisher.Proto.Messages.{XtRequest}
use publisher.Coordinator.State.{External, ActiveXt, CoordinatorState, has_overlap, is_held_by}
use publisher.Coordinator.Rounds.{close_xt, prepare_xt, conclude, vote_on, record_vote, reap_each}
use publisher.Coordinator.Holds.{get-reserve, get-release}
use publisher.Coordinator.Exclusion.{IsExclusive, update-Exclusive}
use publisher.Coordinator.Exclusion.Rounds.{close_xt-IsExclusive}

-- Who holds each chain.
abbrev pub Locks : Type 0
Locks = ChainId → Option Text

abbrev pub granted : Text → List ChainId → Locks → Locks
granted id cs f c = if contains ℕ_discrete cs c then some id else f c

abbrev pub returned : Text → Locks → Locks
returned id f c = if is_held_by id (f c) then none else f c

-- A command to the service. It grants a set of chains only where nobody holds any of them.
pub data Command : Type 0 where
  acquire : Text → List ChainId → Command
  give_back : Text → Command

abbrev pub are_free : List ChainId → Locks → Bool
are_free [] f = true
are_free (c ∷ cs) f = not (is_some (f c)) && are_free cs f

abbrev pub obey : Command → Locks → Locks
obey (acquire id cs) f = if are_free cs f then granted id cs f else f
obey (give_back id) f = returned id f

abbrev pub obey_all : List Command → Locks → Locks
obey_all [] f = f
obey_all (k ∷ ks) f = obey_all ks (obey k f)

-- A decision gives back all that its transaction holds.
abbrev pub decided_commands {ℓ} : {A : Type ℓ} → Text → Option A → List Command
decided_commands id none = []
decided_commands id (some decision) = give_back id ∷ []

abbrev pub locks_of : CoordinatorState → Locks
locks_of s c = get ℕ_discrete c s.active_chains

-- Nobody holds a chain under an id that is not active.
held_active :
    (s : CoordinatorState) (id : Text) (c : ChainId)
    → IsExclusive s
    → get text_discrete id s.active_xts ≡ none
    → is_held_by id (locks_of s c) ≡ false
unfolding is_held_by
held_active s id c v absent = elim (Option-cases (locks_of s c)) [
  | inl free ↦ rw free refl
  | inr (holder, held) ↦ rw held (ground (arith, v.backed c id))
]

close_at :
    (s : CoordinatorState) (id : Text) (c : ChainId)
    → IsExclusive s
    → locks_of (close_xt s id) c ≡ returned id (locks_of s) c
unfolding close_xt is_held_by
close_at s id c v = elim (Option-cases (get text_discrete id s.active_xts)) [
  | inl absent ↦ rw (absent, close_xt) (rw (held_active s id c v absent) refl)
  | inr (xt, active) ↦
      rw (active, close_xt)
        (elim (Option-cases (locks_of s c)) [
          | inl free ↦ ground (arith, get-release id c xt.chains s.active_chains)
          | inr (holder, held) ↦
              ground (arith, get-release id c xt.chains s.active_chains, v.backed c id)
        ])
]

close_xt-locks :
    (s : CoordinatorState) (id : Text)
    → IsExclusive s
    → locks_of (close_xt s id) ≡ returned id (locks_of s)
close_xt-locks s id v = fun_ext (λ c. close_at s id c v)

pub prepare_xt-locks :
    (ext : External) (s : CoordinatorState) (now : ℕ) (req : XtRequest) (cs : List ChainId)
    → locks_of (prepare_xt ext s now req cs).0
      ≡ granted (prepare_xt ext s now req cs).1 cs (locks_of s)
unfolding prepare_xt
prepare_xt-locks ext s now req cs = fun_ext (λ c. get-reserve _ c cs s.active_chains)

-- The service grants chains exactly where the coordinator finds no overlap.
pub are_free-has_overlap :
    (s : CoordinatorState) (cs : List ChainId) → are_free cs (locks_of s) ≡ not (has_overlap s cs)
unfolding has_overlap any
are_free-has_overlap s [] = refl
are_free-has_overlap s (c ∷ cs) = ground (arith, are_free-has_overlap s cs)

-- A vote gives back all chains of the transaction that it decides, or none.
abbrev Follows : Text → CoordinatorState → CoordinatorState × Option (Bool × ℕ × Bytes) → Type 0
Follows id s r = locks_of r.0 ≡ obey_all (decided_commands id r.1) (locks_of s)

conclude-Follows :
    (ext : External) (s : CoordinatorState) (id : Text) (bytes : Bytes) (now : ℕ) (d : Option Bool)
    → IsExclusive s
    → Follows id s (conclude ext s id bytes now d)
unfolding conclude
conclude-Follows ext s id bytes now none v = refl
conclude-Follows ext s id bytes now (some d) v = close_xt-locks s id v

vote_on-Follows :
    (ext : External) (s : CoordinatorState) (id : Text) (bytes : Bytes) (c : ChainId) (b : Bool)
    (now : ℕ) (xt : ActiveXt)
    → get text_discrete id s.active_xts ≡ some xt
    → IsExclusive s
    → Follows id s (vote_on ext s id bytes c b now xt)
unfolding vote_on
vote_on-Follows ext s id bytes c b now xt active v =
    elim (Bool-cases (contains ℕ_discrete xt.chains c)) [
      | inr stranger ↦ rw stranger refl
      | inl member ↦ rw member (elim (Bool-cases (contains_key ℕ_discrete c xt.votes)) [
        | inl again ↦ rw again refl
        | inr first_vote ↦ rw first_vote (
            conclude-Follows ext _ id bytes now _
              (update-Exclusive s.active_xts s.active_chains v id xt _ active refl))
      ])
    ]

pub record_vote-locks :
    (ext : External) (s : CoordinatorState) (id : Text) (bytes : Bytes) (c : ChainId) (b : Bool)
    (now : ℕ)
    → IsExclusive s
    → Follows id s (record_vote ext s id bytes c b now)
unfolding record_vote
record_vote-locks ext s id bytes c b now v =
    elim (Option-cases (get text_discrete id s.active_xts)) [
      | inl absent ↦ rw (absent, record_vote) refl
      | inr (xt, active) ↦
          rw (active, record_vote) (vote_on-Follows ext s id bytes c b now xt active v)
    ]

pub reap_each-locks :
    (ext : External) (s : CoordinatorState) (ids : List Text)
    → IsExclusive s
    → locks_of (reap_each ext s ids).0 ≡ obey_all (map give_back ids) (locks_of s)
unfolding reap_each
reap_each-locks ext s [] v = refl
reap_each-locks ext s (id ∷ ids) v =
    reap_each-locks ext (close_xt s id) ids (close_xt-IsExclusive s id v)
    ∙ ap (obey_all (map give_back ids)) (close_xt-locks s id v)

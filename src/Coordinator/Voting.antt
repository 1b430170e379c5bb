-- ===== src/Coordinator/Voting.antt =====
-- The state of an undecided transaction, and what a vote makes of it.
pub mod Commit
pub mod Rounds
pub mod Liveness
use publisher.Base.{
  ℕ, suc, ◌+◌, ◌≤◌, ◌<◌, ◌≡◌, ◌≢◌, refl, ap, ◌∙◌, Bool, true, false, ◌&&◌, inl, inr, none, some,
  List, [], ◌∷◌, ◌++◌, arith, ℕ_discrete, ◌-◌,
}
use publisher.Base.Tests.{ltb, if◌then◌else◌, Bool-cases, Option-cases}
use publisher.Base.Lists.{length, length-append, all, contains, IsDistinct}
use publisher.Base.Maps.{
  get, insert, keys, values, IsMap, insert_new, insert-IsMap, contains-keys, get-insert,
}
use publisher.Spec.Primitives.{Bytes, Text, text_discrete, ChainId}
use publisher.Coordinator.State.{External, ActiveXt, CoordinatorState, decision_of}
use publisher.Coordinator.Rounds.{vote_on, record_vote}

-- Undecided: every vote so far is a yes of a participant, and some participant has not voted.
pub record IsOpen (xt : ActiveXt) : Type 0 where
  pub distinct : IsDistinct ℕ_discrete xt.chains
  pub spans : 2 ≤ length xt.chains
  pub voters :
      (c : ChainId)
      → contains ℕ_discrete (keys xt.votes) c ≡ true
      → contains ℕ_discrete xt.chains c ≡ true
  pub once : IsMap ℕ_discrete xt.votes
  pub unanimous : all (λ v. v) (values xt.votes) ≡ true
  pub undecided : length xt.votes < length xt.chains

-- The transaction with one more vote.
abbrev pub with_vote : ActiveXt → ChainId → Bool → ActiveXt
with_vote xt c b = record xt { votes = insert ℕ_discrete c b xt.votes }

all-append :
    (m : List (ChainId × Bool)) (c : ChainId) (b : Bool)
    → all (λ v. v) (values (m ++ (c, b) ∷ [])) ≡ (all (λ v. v) (values m) && b)
unfolding all
all-append [] c true = refl
all-append [] c false = refl
all-append ((d, w) ∷ m) c b = ground (arith, all-append m c b)

pub all-get :
    (m : List (ChainId × Bool)) (c : ChainId) (b : Bool)
    → all (λ v. v) (values m) ≡ true
    → get ℕ_discrete c m ≡ some b
    → b ≡ true
unfolding all get
all-get [] c b h e = cc
all-get ((d, w) ∷ m) c b h e = ground (arith, all-get m c b)

module _ (xt : ActiveXt) (c : ChainId) (first : get ℕ_discrete c xt.votes ≡ none) where
  pub length-with_vote : (b : Bool) → length (with_vote xt c b).votes ≡ suc (length xt.votes)
  length-with_vote b =
      ap length (insert_new ℕ_discrete c b xt.votes first)
      ∙ omega (arith, length-append xt.votes ((c, b) ∷ []))

  all-with_vote :
      (b : Bool)
      → all (λ v. v) (values (with_vote xt c b).votes) ≡ (all (λ v. v) (values xt.votes) && b)
  all-with_vote b =
      ap (λ m. all (λ v. v) (values m)) (insert_new ℕ_discrete c b xt.votes first)
      ∙ all-append xt.votes c b

  pub decision_of-with_vote :
      IsOpen xt
      → decision_of (with_vote xt c true)
        ≡ (if ltb (suc (length xt.votes)) (length xt.chains) then none else some true)
  unfolding decision_of
  decision_of-with_vote o = ground (arith, length-with_vote true, all-with_vote true, o.unanimous)

  -- One more yes that leaves a participant without a vote.
  pub with_vote-IsOpen :
      contains ℕ_discrete xt.chains c ≡ true
      → suc (length xt.votes) < length xt.chains
      → IsOpen xt
      → IsOpen (with_vote xt c true)
  with_vote-IsOpen member more o = record {
    distinct = o.distinct;
    spans = o.spans;
    voters = λ d h. ground (
      arith,
      contains-keys ℕ_discrete d xt.votes,
      contains-keys ℕ_discrete d (insert ℕ_discrete c true xt.votes),
      get-insert ℕ_discrete c d true xt.votes,
      o.voters d,
    );
    once = insert-IsMap ℕ_discrete c true xt.votes o.once;
    unanimous = ground (arith, all-with_vote true, o.unanimous);
    undecided = omega (arith, length-with_vote true);
  }

-- A vote that is not counted: of an unknown transaction, of a stranger, or a second one.
pub record_vote_ignored :
    (ext : External) (s : CoordinatorState) (id : Text) (bytes : Bytes) (c : ChainId) (b : Bool)
    (now : ℕ)
    → ((xt : ActiveXt)
        → get text_discrete id s.active_xts ≡ some xt
        → contains ℕ_discrete xt.chains c ≡ true
        → get ℕ_discrete c xt.votes ≢ none)
    → record_vote ext s id bytes c b now ≡ (s, none)
unfolding record_vote vote_on
record_vote_ignored ext s id bytes c b now known =
    elim (Option-cases (get text_discrete id s.active_xts)) [
      | inl absent ↦ rw (absent, record_vote)
      | inr (xt, active) ↦
          rw (active, record_vote, vote_on)
            (elim (Bool-cases (contains ℕ_discrete xt.chains c)) [
              | inr stranger ↦ rw stranger
              | inl member ↦ elim (Option-cases (get ℕ_discrete c xt.votes)) [
                | inl first ↦ absurd (known xt active member first)
                | inr (w, again) ↦ rw (member, again)
              ]
            ])
    ]

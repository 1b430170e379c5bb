-- ===== src/Coordinator/Voting/Rounds.antt =====
-- Every operation on the rounds leaves only undecided transactions active.
use publisher.Base.{
  ℕ, suc, ◌≤◌, ◌≡◌, ◌≢◌, refl, subst, Bool, true, false, inl, inr, none, some, List, [], ◌∷◌, arith,
  ℕ_discrete,
}
use publisher.Base.Tests.{ltb, ltb→lt, Bool-cases, Option-cases}
use publisher.Base.Lists.{length, all, contains, IsDistinct}
use publisher.Base.Maps.{get, insert, remove, get-insert, get-remove}
use publisher.Spec.Primitives.{Bytes, Text, text_discrete, ChainId}
use publisher.Proto.Messages.{XtRequest}
use publisher.Coordinator.State.{External, ActiveXt, CoordinatorState}
use publisher.Coordinator.Rounds.{
  close_xt, prepare_xt, conclude, record_vote, expired_ids, reap_each, reap_timed_out,
}
use publisher.Coordinator.Exclusion.{Xts}
use publisher.Coordinator.Voting.{IsOpen, with_vote, with_vote-IsOpen, record_vote_ignored}
use publisher.Coordinator.Voting.Commit.{verdict, replace, record_vote-conclude}

-- Every active transaction is undecided.
abbrev pub AllOpen : Xts → Type 0
AllOpen xts = (id : Text) (xt : ActiveXt) → get text_discrete id xts ≡ some xt → IsOpen xt

insert-AllOpen :
    (id : Text) (xt : ActiveXt) (xts : Xts)
    → IsOpen xt
    → AllOpen xts
    → AllOpen (insert text_discrete id xt xts)
insert-AllOpen id xt xts o a j yt e = elim (text_discrete id j) [
  | yes p ↦ subst IsOpen (ground (arith, get-insert text_discrete id j xt xts)) o
  | no p ↦ a j yt (ground (arith, get-insert text_discrete id j xt xts))
]

remove-AllOpen : (id : Text) (xts : Xts) → AllOpen xts → AllOpen (remove text_discrete id xts)
remove-AllOpen id xts a j yt e = a j yt (ground (arith, get-remove text_discrete id j xts))

close_xt-AllOpen :
    (s : CoordinatorState) (id : Text) → AllOpen s.active_xts → AllOpen (close_xt s id).active_xts
unfolding close_xt
close_xt-AllOpen s id a = remove-AllOpen id s.active_xts a

close-replaced-AllOpen :
    (s : CoordinatorState) (id : Text) (yt : ActiveXt)
    → AllOpen s.active_xts
    → AllOpen (close_xt (replace s id yt) id).active_xts
unfolding close_xt
close-replaced-AllOpen s id yt a j zt e = a j zt (
    ground (
      arith,
      get-remove text_discrete id j (insert text_discrete id yt s.active_xts),
      get-insert text_discrete id j yt s.active_xts,
    ))

module _ (ext : External) where
  pub prepare_xt-AllOpen :
      (s : CoordinatorState) (now : ℕ) (req : XtRequest) (chains : List ChainId)
      → IsDistinct ℕ_discrete chains
      → 2 ≤ length chains
      → AllOpen s.active_xts
      → AllOpen (prepare_xt ext s now req chains).0.active_xts
  unfolding prepare_xt contains all
  prepare_xt-AllOpen s now req chains distinct spans a =
      insert-AllOpen _ _ s.active_xts
        (record {
          distinct = distinct;
          spans = spans;
          voters = λ c h. cc;
          once = tt;
          unanimous = refl;
          undecided = omega arith;
        })
        a

  -- A decided transaction is gone, and one that is not decided has its vote.
  conclude-AllOpen :
      (s : CoordinatorState) (id : Text) (bytes : Bytes) (c : ChainId) (b : Bool) (now : ℕ)
      (xt : ActiveXt)
      → get text_discrete id s.active_xts ≡ some xt
      → contains ℕ_discrete xt.chains c ≡ true
      → get ℕ_discrete c xt.votes ≡ none
      → AllOpen s.active_xts
      → AllOpen
          (conclude ext (replace s id (with_vote xt c b)) id bytes now (verdict xt b)).0.active_xts
  unfolding conclude
  conclude-AllOpen s id bytes c false now xt active member first a =
      close-replaced-AllOpen s id (with_vote xt c false) a
  conclude-AllOpen s id bytes c true now xt active member first a =
      elim (Bool-cases (ltb (suc (length xt.votes)) (length xt.chains))) [
        | inl waits ↦ rw waits (
            insert-AllOpen id (with_vote xt c true) s.active_xts
              (with_vote-IsOpen xt c first member (ltb→lt _ _ waits) (a id xt active)) a)
        | inr done ↦ rw done (close-replaced-AllOpen s id (with_vote xt c true) a)
      ]

  module _ (s : CoordinatorState) (id : Text) (bytes : Bytes) (c : ChainId) (b : Bool) (now : ℕ)
      (a : AllOpen s.active_xts) where
    ignored-AllOpen :
        ((xt : ActiveXt)
          → get text_discrete id s.active_xts ≡ some xt
          → contains ℕ_discrete xt.chains c ≡ true
          → get ℕ_discrete c xt.votes ≢ none)
        → AllOpen (record_vote ext s id bytes c b now).0.active_xts
    ignored-AllOpen known = rw (record_vote_ignored ext s id bytes c b now known) a

    -- A vote leaves every transaction that is still active undecided.
    pub record_vote-AllOpen : AllOpen (record_vote ext s id bytes c b now).0.active_xts
    record_vote-AllOpen = elim (Option-cases (get text_discrete id s.active_xts)) [
      | inl absent ↦ ignored-AllOpen (λ xt e m f. ground arith)
      | inr (xt, active) ↦ elim (Bool-cases (contains ℕ_discrete xt.chains c)) [
        | inr stranger ↦ ignored-AllOpen (λ yt e m f. ground arith)
        | inl member ↦ elim (Option-cases (get ℕ_discrete c xt.votes)) [
          | inr (w, again) ↦ ignored-AllOpen (λ yt e m f. ground arith)
          | inl first ↦
              rw
                (record_vote-conclude ext s id bytes c b now xt active member first
                  (a id xt active))
                (conclude-AllOpen s id bytes c b now xt active member first a)
        ]
      ]
    ]

  reap_each-AllOpen :
      (s : CoordinatorState) (ids : List Text)
      → AllOpen s.active_xts
      → AllOpen (reap_each ext s ids).0.active_xts
  unfolding reap_each
  reap_each-AllOpen s [] a = a
  reap_each-AllOpen s (id ∷ ids) a = reap_each-AllOpen (close_xt s id) ids (close_xt-AllOpen s id a)

  pub reap_timed_out-AllOpen :
      (s : CoordinatorState) (now timeout : ℕ)
      → AllOpen s.active_xts
      → AllOpen (reap_timed_out ext s now timeout).0.active_xts
  unfolding reap_timed_out
  reap_timed_out-AllOpen s now timeout a =
      reap_each-AllOpen s (expired_ids s.active_xts now timeout) a

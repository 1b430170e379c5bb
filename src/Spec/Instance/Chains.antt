-- ===== src/Spec/Instance/Chains.antt =====
-- What `chains_from_request` collects.
use publisher.Base.{
  ℕ, ◌≡◌, refl, sym, ◌∙◌, inl, inr, false, ◌||◌, List, [], ◌∷◌, ◌++◌, map, arith, ℕ_discrete,
}
use publisher.Base.Tests.{Bool-cases}
use publisher.Base.Lists.{contains, contains-append, IsDistinct}
use publisher.Spec.Primitives.{ChainId}
use publisher.Spec.Instance.{TransactionRequest, XtRequest, collect_chains, chains_from_request}

abbrev chain_ids : List TransactionRequest → List ChainId
chain_ids = map (λ r. r.chain_id)

abbrev dec : Discrete ℕ
dec = ℕ_discrete

IsDistinct-snoc :
    (xs : List ℕ) (x : ℕ)
    → IsDistinct dec xs
    → contains dec xs x ≡ false
    → IsDistinct dec (xs ++ x ∷ [])
unfolding contains
IsDistinct-snoc [] x d h = (refl, tt)
IsDistinct-snoc (y ∷ ys) x d h =
    (ground (arith, contains-append dec ys (x ∷ []) y), IsDistinct-snoc ys x d.1 (ground arith))

-- The set and the vector of the loop hold the same chains.
abbrev Agree : List ChainId → List ChainId → Type 0
Agree seen chains = (c : ChainId) → contains dec seen c ≡ contains dec chains c

Agree-add :
    (seen chains : List ChainId) (x : ChainId)
    → Agree seen chains
    → Agree (x ∷ seen) (chains ++ x ∷ [])
unfolding contains
Agree-add seen chains x a c = ground (arith, a c, contains-append dec chains (x ∷ []) c)

module _ (c : ChainId) where
  contains-collect_chains :
      (rs : List TransactionRequest) (seen chains : List ChainId)
      → Agree seen chains
      → contains dec (collect_chains rs seen chains) c
        ≡ (contains dec chains c || contains dec (chain_ids rs) c)
  unfolding contains collect_chains
  contains-collect_chains [] seen chains a = ground arith
  contains-collect_chains (r ∷ rs) seen chains a =
      elim (Bool-cases (contains dec seen r.chain_id)) [
        | inl old ↦
            rw old (ground (arith, a r.chain_id, a c, contains-collect_chains rs seen chains a))
        | inr new ↦ rw new (
            ground (
              arith,
              contains-append dec chains (r.chain_id ∷ []) c,
              contains-collect_chains rs (r.chain_id ∷ seen) (chains ++ r.chain_id ∷ [])
                  (Agree-add seen chains r.chain_id a),
            ))
      ]

collect_chains-IsDistinct :
    (rs : List TransactionRequest) (seen chains : List ChainId)
    → Agree seen chains
    → IsDistinct dec chains
    → IsDistinct dec (collect_chains rs seen chains)
unfolding collect_chains
collect_chains-IsDistinct [] seen chains a d = d
collect_chains-IsDistinct (r ∷ rs) seen chains a d =
    elim (Bool-cases (contains dec seen r.chain_id)) [
      | inl old ↦ rw old (collect_chains-IsDistinct rs seen chains a d)
      | inr new ↦ rw new (
          collect_chains-IsDistinct rs (r.chain_id ∷ seen) (chains ++ r.chain_id ∷ [])
            (Agree-add seen chains r.chain_id a)
            (IsDistinct-snoc chains r.chain_id d (sym (a r.chain_id) ∙ new)))
    ]

-- The chains of a request are exactly the chain ids of its transactions, each listed once.
pub chains_from_request-IsDistinct :
    (req : XtRequest) (c : ChainId)
    → IsDistinct dec (chains_from_request req)
      × (contains dec (chains_from_request req) c ≡ contains dec (chain_ids req.transactions) c)
unfolding chains_from_request
chains_from_request-IsDistinct req c = (
  collect_chains-IsDistinct req.transactions [] [] (λ c. refl) tt,
  contains-collect_chains c req.transactions [] [] (λ c. refl),
)

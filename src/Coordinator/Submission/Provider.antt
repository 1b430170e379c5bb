-- ===== src/Coordinator/Submission/Provider.antt =====
-- crates/coordinator/src/l1_submit.rs: `L1Submitter` itself, which holds the settings and the parent
-- hash, and what each of its methods does when the settings give no provider. What alloy makes of a
-- setting is a parameter, and an error is a context with its cause.
use publisher.Base.{ℕ, ◌⊎◌, inl, inr, Option, List, []}
use publisher.Base.Results.{Result, ok, err}
use publisher.Spec.Primitives.{Text, codes}
use publisher.Coordinator.ProofTypes.{B256, ProofData}
use publisher.Coordinator.Submission
use publisher.Coordinator.Submission.{Encoding, Proposal, Attempt}

pub record Error : Type 0 where
  pub context : Text
  pub cause : Text

pub record Alloy (Address Signer Url Provider : Type 0) : Type 0 where
  pub parse_address : Text → Result Text Address
  pub parse_signer : Text → Result Text Signer
  pub parse_url : Text → Result Text Url
  pub connect_http : Signer → Url → Provider

pub record L1Submitter (Address : Type 0) : Type 0 where
  pub l2oo_address : Address
  pub rpc_url : Text
  pub private_key : Text
  pub parent_hash : B256

abbrev with_context {ℓ} : {A : Type ℓ} → Text → Result Text A → Result Error A
with_context context (ok a) = ok a
with_context context (err e) = err (record { context = context; cause = e })

-- `?` on a result.
infixl 5 ◌>>=◌
abbrev ◌>>=◌ {ℓ κ} :
    {A : Type ℓ} {B : Type κ} → Result Error A → (A → Result Error B) → Result Error B
ok a >>= f = f a
err e >>= f = err e

-- The submitter after `submit`, the waits, and the result: an error of the provider, or else that of
-- the last attempt.
abbrev pub Submitted : Type 0 → Type 0
Submitted Address = L1Submitter Address × List ℕ × Result (Error ⊎ Option Text) (Unit {0})

abbrev pub result_of : Result (Option Text) (Unit {0}) → Result (Error ⊎ Option Text) (Unit {0})
result_of (ok _) = ok tt
result_of (err e) = err (inr e)

abbrev pub submit_provided :
    {Address Provider : Type 0}
    → Encoding
    → (Provider → Address → Proposal → ℕ → Attempt)
    → L1Submitter Address
    → ℕ
    → List (ℕ × ProofData)
    → Result Error Provider
    → Submitted Address
submit_provided enc contract s superblock_number proofs (err e) = (s, [], err (inl e))
submit_provided enc contract s superblock_number proofs (ok provider) =
    let (parent, waits, result) =
      Submission.submit enc (contract provider s.l2oo_address) s.parent_hash superblock_number
        proofs in
    (record s { parent_hash = parent }, waits, result_of result)

module _ {Address Signer Url Provider : Type 0} where
  unfoldable pub new :
      Alloy Address Signer Url Provider → Text → Text → Text → Result Error (L1Submitter Address)
  new alloy l2oo_address rpc_url private_key = do
    addr ← with_context (codes "invalid l2oo_address") (alloy.parse_address l2oo_address)
    ok (record {
      l2oo_address = addr;
      rpc_url = rpc_url;
      private_key = private_key;
      parent_hash = 0;
    })

  unfoldable pub build_provider :
      Alloy Address Signer Url Provider → L1Submitter Address → Result Error Provider
  build_provider alloy s = do
    signer ← with_context (codes "invalid proposer_key") (alloy.parse_signer s.private_key)
    url ← with_context (codes "invalid l1_rpc_url") (alloy.parse_url s.rpc_url)
    ok (alloy.connect_http signer url)

  -- `contract` is what `proposeL2Output` at the address comes back with.
  unfoldable pub submit :
      Alloy Address Signer Url Provider
      → Encoding
      → (Provider → Address → Proposal → ℕ → Attempt)
      → L1Submitter Address
      → ℕ
      → List (ℕ × ProofData)
      → Submitted Address
  unfolding build_provider Submission.submit
  submit alloy enc contract s superblock_number proofs =
      submit_provided enc contract s superblock_number proofs (build_provider alloy s)

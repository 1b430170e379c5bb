-- ===== src/Coordinator/Registry.antt =====
-- Which sidecar a chain's messages go to: `register_chain`, `handle_mailbox_relay`.
use publisher.Base.{◌≡◌, ◌≢◌, Option, none, some, List, arith, ℕ_discrete}
use publisher.Base.Maps.{get, insert, remove, get-insert, get-remove}
use publisher.Spec.Primitives.{Text, text_discrete, ChainId}
use publisher.Coordinator.State.{CoordinatorState, forget_chain, register_chain}

-- The client of a chain has that chain.
abbrev IsRouted : CoordinatorState → Type 0
IsRouted s =
    (c : ChainId) (client : Text)
    → get ℕ_discrete c s.chain_to_client ≡ some client
    → get text_discrete client s.client_to_chain ≡ some c

get-forget_chain :
    (o : Option ChainId) (c : ChainId) (m : List (ChainId × Text)) (client : Text)
    → get ℕ_discrete c (forget_chain o m) ≡ some client
    → (get ℕ_discrete c m ≡ some client) × (o ≢ some c)
unfolding forget_chain
get-forget_chain none c m client e = (e, λ h. cc)
get-forget_chain (some d) c m client e =
    (ground (arith, get-remove ℕ_discrete d c m), λ h. ground (arith, get-remove ℕ_discrete d c m))

pub register_chain-client :
    (s : CoordinatorState) (client : Text) (chain : ChainId)
    → get ℕ_discrete chain (register_chain s client chain).chain_to_client ≡ some client
unfolding register_chain
register_chain-client s client chain = ground (
  arith,
  get-insert ℕ_discrete chain chain client
      (forget_chain (get text_discrete client s.client_to_chain) s.chain_to_client),
)

-- A registration makes the two maps agree on the client and its chain, and keeps them in agreement
-- on every chain that has a client.
register_chain-IsRouted :
    (s : CoordinatorState) (client : Text) (chain : ChainId)
    → IsRouted s
    → IsRouted (register_chain s client chain)
      × (get ℕ_discrete chain (register_chain s client chain).chain_to_client ≡ some client)
      × (get text_discrete client (register_chain s client chain).client_to_chain ≡ some chain)
unfolding register_chain
register_chain-IsRouted s client chain v = (
  λ c other e. elim (ℕ_discrete chain c) [
    | yes here ↦ ground (
      arith,
      get-insert ℕ_discrete chain c client
          (forget_chain (get text_discrete client s.client_to_chain) s.chain_to_client),
      get-insert text_discrete client other chain s.client_to_chain,
    )
    | no elsewhere ↦
        let (h, old) =
          get-forget_chain (get text_discrete client s.client_to_chain) c s.chain_to_client other (
            ground (
              arith,
              get-insert ℕ_discrete chain c client
                  (forget_chain (get text_discrete client s.client_to_chain) s.chain_to_client),
            )) in
        ground
          (arith, v c other h, old, get-insert text_discrete client other chain s.client_to_chain)
  ],
  register_chain-client s client chain,
  ground (arith, get-insert text_discrete client client chain s.client_to_chain),
)

forget_chain-evicts :
    (o : Option ChainId) (c d : ChainId) (client : Text) (m : List (ChainId × Text))
    → o ≡ some c
    → c ≢ d
    → get ℕ_discrete c (insert ℕ_discrete d client (forget_chain o m)) ≡ none
unfolding forget_chain
forget_chain-evicts none c d client m e n = cc
forget_chain-evicts (some b) c d client m e n =
    ground
      (arith, get-insert ℕ_discrete d c client (remove ℕ_discrete b m), get-remove ℕ_discrete b c m)

-- When a client moves on from a chain that another client has registered since, that chain is left
-- without a client, although the other client is still recorded with it.
pub register_chain_evicts_other :
    (s : CoordinatorState) (a b : Text) (c d : ChainId)
    → a ≢ b
    → c ≢ d
    → (let t = register_chain (register_chain (register_chain s a c) b c) a d in
        (get ℕ_discrete c t.chain_to_client ≡ none)
        × (get text_discrete b t.client_to_chain ≡ some c))
unfolding register_chain
register_chain_evicts_other s a b c d ab cd =
    let first = insert text_discrete a c s.client_to_chain in
    let second = insert text_discrete b c first in
    (
      forget_chain-evicts (get text_discrete a second) c d a _
          (ground (
            arith,
            get-insert text_discrete b a c first,
            get-insert text_discrete a a c s.client_to_chain,
          ))
          cd,
      ground (arith, get-insert text_discrete a b d second, get-insert text_discrete b b c first),
    )

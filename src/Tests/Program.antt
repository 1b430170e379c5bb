-- ===== src/Tests/Program.antt =====
-- Runs of the program: its start, connections and calls.
use publisher.Base.{◌≡◌, ◌⊎◌, refl, false, Bool, none, some, List, [], ◌∷◌}
use publisher.Base.Maps.{get}
use publisher.Base.Lists.{contains}
use publisher.Base.Results.{ok}
use publisher.Spec.Primitives.{text_discrete, codes}
use publisher.Proto.Messages
use publisher.Proto.Messages.{Message, MailboxMessage}
use publisher.Config.{default_config}
use publisher.Coordinator.State
use publisher.Coordinator.State.{External, envelope}
use publisher.Coordinator.Service.{Effect, broadcast_raw}
use publisher.Coordinator.Dispatch.{dispatch}
use publisher.Coordinator.History.{run}
use publisher.Coordinator.Voting.Commit.{verdict}
use publisher.Coordinator.Locking.{obey_all, locks_of}
use publisher.Coordinator.Locking.Histories.{commands, refines_locks}
use publisher.Transport.Framing.{encode}
use publisher.Transport.Session.{inserted}
use publisher.Program.{received, period_ticked}
use publisher.Program.Sections.{sections}
use publisher.Program.Decisions.{dispatch_vote}
use publisher.Program.Startup.{Node, start}
use publisher.Program.Node.{acted, called, happen, happen_all}
use publisher.Program.Relay.{joined, mailbox_delivered}
use publisher.Tests.{plain, both_chains, serving, busy, half_voted}
use publisher.Tests.Rounds.{history, half_voted-IsOpen}
use publisher.Coordinator.Rounds.{next_instance_id}
use publisher.Coordinator.ChainIds.{parse_chain_id}

-- A decoder that knows one frame, and an encoder whose messages are short.
abbrev pub knows : Message → External
knows m = record {
  sha256 = λ b. b;
  encode_to_vec = λ n. 9 ∷ [];
  decode = λ b. some m;
  hex_encode = λ b. b;
}

abbrev pub no_vote : Message
no_vote = envelope (Messages.vote (record { instance_id = 7 ∷ []; chain_id = 1; vote = false }))

dispatch_vote_example :
    ((verdict half_voted false ≡ none)
      × ((dispatch (knows no_vote) (serving busy) (10 ∷ []) [] 9).1 ≡ []))
    ⊎ ((d : Bool) × ((starts : List Effect) × ((verdict half_voted false ≡ some d)
            × ((dispatch (knows no_vote) (serving busy) (10 ∷ []) [] 9).1
                ≡ broadcast_raw (9 ∷ []) ∷ starts))))
unfolding get contains text_discrete
dispatch_vote_example =
    dispatch_vote (knows no_vote) (serving busy) (10 ∷ []) [] 9 no_vote
      (record { instance_id = 7 ∷ []; chain_id = 1; vote = false }) half_voted refl refl refl refl
      refl half_voted-IsOpen

refines_locks_example :
    locks_of (run plain State.new history) ≡ obey_all (commands plain State.new history) (λ c. none)
unfolding run next_instance_id State.new get text_discrete contains
refines_locks_example = refines_locks plain history (tt, (refl, tt))

abbrev pub fresh : Node
fresh = start (λ s. false) default_config 0 (ok none)

-- A client with a request; the request holds its chains.
abbrev pub request_message : Message
request_message = envelope (Messages.xt_request both_chains)

abbrev mail : MailboxMessage
mail = record {
  session_id = 1;
  instance_id = [];
  source_chain = 1;
  destination_chain = 5;
  source = [];
  receiver = [];
  label = [];
  parts = [];
}

abbrev mail_message : Message
mail_message = envelope (Messages.mailbox_message mail)

mailbox_delivered_example :
    (happen
      (knows mail_message)
      (happen_all
        (knows mail_message)
        (joined (knows mail_message) fresh (codes "5") 3)
        (acted (inserted (codes "55") 4) ∷ called period_ticked ∷ []))
      (called (received (codes "55") [] 8))).1
    ≡ (codes "5", ok (3, 0 ∷ 0 ∷ 0 ∷ 1 ∷ 9 ∷ [])) ∷ []
unfolding encode parse_chain_id sections start
mailbox_delivered_example =
    mailbox_delivered (knows mail_message) fresh (codes "5") (codes "55") 3
      (acted (inserted (codes "55") 4) ∷ called period_ticked ∷ []) [] (0 ∷ 0 ∷ 0 ∷ 1 ∷ 9 ∷ []) 8
      mail_message mail refl ((λ e. cc), (((λ b. b), tt), tt)) refl refl refl

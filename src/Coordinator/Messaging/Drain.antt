-- ===== src/Coordinator/Messaging/Drain.antt =====
-- `drain_queue` ends when nothing in the queue can start.
use publisher.Base.{ℕ, zero, suc, ◌<◌, ◌≡◌, sym, ap, subst, false, Option, List, ◌∷◌, arith}
use publisher.Base.Lists.{length, length-append, All}
use publisher.Coordinator.State.{External, PendingEntry, CoordinatorState}
use publisher.Coordinator.Rounds.{prepare_xt}
use publisher.Coordinator.Queue.{is_ready, start_taken, start_next, take_next_ready}
use publisher.Coordinator.Queue.First.{Taken, nothing, first, take_next_ready-Taken}
use publisher.Coordinator.Service.{Coordinator, Effect, inc_broadcasts}
use publisher.Coordinator.Messaging.{drain_round, drain_rounds, drain_queue}

-- Every waiting request needs a chain that is held.
abbrev pub IsIdle : CoordinatorState → Type 0
IsIdle s = All (λ e. is_ready s e ≡ false) s.pending_queue

module _ (ext : External) (now : ℕ) where
  drain_round-IsIdle :
      (again : Coordinator → Coordinator × List Effect) (n : ℕ)
      → ((d : Coordinator) → length d.state.pending_queue < n → IsIdle (again d).0.state)
      → (c : Coordinator) (r : CoordinatorState × Option PendingEntry)
      → length c.state.pending_queue < suc n
      → Taken c.state r
      → IsIdle (drain_round ext again c (start_taken ext now r)).0.state
  unfolding drain_round start_taken inc_broadcasts prepare_xt
  drain_round-IsIdle again n ih c r fits (nothing e rest) =
      subst (λ q. IsIdle (drain_round ext again c (start_taken ext now q)).0.state) (sym e) rest
  drain_round-IsIdle again n ih c r fits (first e before after split ready _ eq) =
      subst (λ q. IsIdle (drain_round ext again c (start_taken ext now q)).0.state) (sym eq)
        (ih _ (
          omega
            (arith, ap length split, length-append before (e ∷ after), length-append before after)))

  drain_rounds-IsIdle :
      (fuel : ℕ) (c : Coordinator)
      → length c.state.pending_queue < fuel
      → IsIdle (drain_rounds ext fuel c now).0.state
  unfolding drain_rounds start_next
  drain_rounds-IsIdle zero c fits = absurd (omega arith)
  drain_rounds-IsIdle (suc fuel) c fits =
      drain_round-IsIdle (λ d. drain_rounds ext fuel d now) fuel
        (λ d h. drain_rounds-IsIdle fuel d h) c (take_next_ready c.state) fits
        (take_next_ready-Taken c.state)

  -- With as many rounds as the model gives it, the loop of `drain_queue` ends by itself: it leaves
  -- no request in the queue whose chains are all free.
  pub drain_queue-IsIdle : (c : Coordinator) → IsIdle (drain_queue ext c now).0.state
  unfolding drain_queue
  drain_queue-IsIdle c = drain_rounds-IsIdle (suc (length c.state.pending_queue)) c (omega arith)

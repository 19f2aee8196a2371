-- ===== src/Pos/Sender.antt =====
-- Sending a request to the closest peer that takes it (code/bee-snips-sup/pkg/pos/sender/sender.go).
-- The choice of the closest peer and the streams are parameters.
pub mod Attempts
use phd.Base.{ℕ, zero, suc, List, [], ◌∷◌, ◌++◌, ◌⊎◌, inl, inr}
use phd.Base.Result.{Result, ok, err}
use phd.Swarm.{Address}

pub data TopologyError : Type 0 where
  want_self no_peer : TopologyError

-- How one `send` ends: the stream does not open or the request is not written; the request is
-- written and no response is read; or a response is read.
pub data Transmission (R : Type 0) : Type 0 where
  unsent unanswered : Transmission R
  answered : R → Transmission R

pub data SendError : Type 0 where
  topology : TopologyError → SendError
  -- `Error`, of the peer that took the request
  no_response : Address → SendError
  not_sent : SendError

module _ {R : Type 0} (closest_peer : List Address → TopologyError ⊎ Address)
    (send : Address → Transmission R) where
  -- One turn of the loop of `SendClosest`, with the peers to skip, the peers of the errors so far,
  -- and what follows if the request was not sent.
  unfoldable pub attempt :
      List Address
      → List Address
      → (Address → List Address × Result SendError R)
      → List Address × Result SendError R
  attempt skip errs next = elim (closest_peer skip) [
    | inl e ↦ (errs, err (topology e))
    | inr closest ↦ elim (send closest) [
      | answered resp ↦ (errs, ok resp)
      | unanswered ↦ (errs, err (no_response closest))
      | unsent ↦ next closest
    ]
  ]

  -- The loop of `SendClosest` with a number of retries left.
  unfoldable pub send_loop : ℕ → List Address → List Address → List Address × Result SendError R
  unfolding attempt
  send_loop zero skip errs = attempt skip errs (λ closest. (errs ++ closest ∷ [], err not_sent))
  send_loop (suc n) skip errs =
      attempt skip errs (λ closest. send_loop n (skip ++ closest ∷ []) (errs ++ closest ∷ []))

  -- `SendClosest`: the peers of its `lastErrors`, and how it ends
  unfoldable pub send_closest : ℕ → List Address → List Address × Result SendError R
  unfolding send_loop
  send_closest retries skip = send_loop retries skip []

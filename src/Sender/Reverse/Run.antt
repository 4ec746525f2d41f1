-- ===== src/Sender/Reverse/Run.antt =====
-- Sequences of the operations of a ReverseClient and of the steps of its threads.
use usb_lib.Prelude.{ℕ, ◌≡◌, refl, ◌⊎◌, inl, inr, List, [], ◌∷◌, Bool, true, All, if◌then◌else◌}
use usb_lib.Words.{Bytes}
use usb_lib.Message.{NetworkMessage}
use usb_lib.Socket.{ConnectCalls, SendAnswer, Outcome, returns, terminates}
use usb_lib.Sender.Reverse.{
  ReverseClient, receive_end, connect_to_server, reconnect_round, disconnect, enable_auto_reconnect,
  after_message,
}

-- A call of the client's user, the end of the receive thread, which runs while the socket is
-- connected, or a round of the reconnect thread, which runs until it has left its loop.
pub data Operation : Type 0 where
  connecting : Bytes → ℕ → ConnectCalls → (ℕ → Bool) → Operation
  disconnecting : Operation
  enabling : Bool → ℕ → Operation
  losing : Bool → Operation
  sending : NetworkMessage → List SendAnswer → Operation
  reconnecting : ConnectCalls → (ℕ → Bool) → Operation

unfoldable pub perform : ReverseClient → Operation → ReverseClient × Outcome
perform c (connecting host port calls ends) = connect_to_server c host port calls ends
perform c disconnecting = (disconnect c, returns true)
perform c (enabling enable seconds) = (enable_auto_reconnect c enable seconds, returns true)
perform c (losing broken) =
    (if c.socket.is_connected then receive_end c broken else c, returns true)
perform c (sending m answers) = (after_message c m answers, returns true)
perform c (reconnecting calls ends) =
    if c.reconnecting then reconnect_round c calls ends else (c, returns true)

-- What follows an operation, unless that terminated the process.
abbrev pub continue :
    ReverseClient × Outcome → (ReverseClient → ReverseClient × Outcome) → ReverseClient × Outcome
continue (c, terminates) rest = (c, terminates)
continue (c, returns b) rest = rest c

unfoldable pub run : ReverseClient → List Operation → ReverseClient × Outcome
unfolding perform
run c [] = (c, returns true)
run c (op ∷ ops) = continue (perform c op) (λ c'. run c' ops)

-- The process has terminated, or the client is as `P` says.
abbrev pub EndedOr : (ReverseClient → Type 0) → ReverseClient × Outcome → Type 0
EndedOr P (c, outcome) = (outcome ≡ terminates) ⊎ P c

module _ (P : ReverseClient → Type 0) (Allowed : Operation → Type 0) where
  continue-EndedOr :
      (r : ReverseClient × Outcome) (rest : ReverseClient → ReverseClient × Outcome)
      → EndedOr P r
      → ((c : ReverseClient) → P c → EndedOr P (rest c))
      → EndedOr P (continue r rest)
  continue-EndedOr (c, terminates) rest v h = inl refl
  continue-EndedOr (c, returns b) rest (inl e) h = cc
  continue-EndedOr (c, returns b) rest (inr v) h = h c v

  -- What every allowed operation keeps, a sequence of them keeps.
  pub run-EndedOr :
      ((c : ReverseClient) (op : Operation) → Allowed op → P c → EndedOr P (perform c op))
      → (c : ReverseClient) (ops : List Operation) → All Allowed ops
      → P c
      → EndedOr P (run c ops)
  unfolding run
  run-EndedOr keeps c [] all v = inr v
  run-EndedOr keeps c (op ∷ ops) (ok, all) v =
      continue-EndedOr (perform c op) (λ c'. run c' ops) (keeps c op ok v)
        (λ c' w. run-EndedOr keeps c' ops all w)

abbrev pub Anything : Operation → Type 0
Anything op = Unit

pub All-Anything : (ops : List Operation) → All Anything ops
All-Anything [] = tt
All-Anything (op ∷ ops) = (tt, All-Anything ops)

-- ===== src/Client/Connection/Run.antt =====
-- Sequences of the operations of a UsbipClient.
use usb_lib.Prelude.{branch, ℕ, ◌≡◌, refl, ◌⊎◌, inl, inr, List, [], ◌∷◌, Bool, true, if◌then◌else◌}
use usb_lib.Words.{Bytes}
use usb_lib.Message.{NetworkMessage}
use usb_lib.Socket.{ConnectCalls, SendAnswer, Outcome, returns, terminates}
use usb_lib.Socket.Attempt.{connect-Attempt}
use usb_lib.Client.Connection.{
  UsbipClient, start_heartbeat, stop_heartbeat, continue, receive_end, connect_client, disconnect,
  sent,
}
use usb_lib.Client.Connection.Coherent.{
  IsCoherent, IsSafe, IsStale, connect_client-cases, addressed-IsCoherent, disconnect-IsSafe,
  start_heartbeat-IsSafe, stop_heartbeat-IsCoherent, branch-IsSafe, returns-ne-terminates,
  receive_end-IsSafe, sent-IsCoherent,
}

-- The calls of the client's users, the sending of a request, a response or a heartbeat, and the end of the receive thread, which runs while the socket is
-- connected.
pub data Operation : Type 0 where
  connecting : Bytes → ℕ → ConnectCalls → (ℕ → Bool) → Operation
  disconnecting : Operation
  losing : Bool → Operation
  starting : ℕ → Operation
  stopping : Operation
  sending : NetworkMessage → List SendAnswer → Operation

unfoldable pub perform : UsbipClient → Operation → UsbipClient × Outcome
perform c (connecting host port calls ends) = connect_client c host port calls ends
perform c disconnecting = disconnect c
perform c (losing broken) =
    if c.socket.is_connected then receive_end c broken else (c, returns true)
perform c (starting seconds) = start_heartbeat c seconds
perform c stopping = (stop_heartbeat c, returns true)
perform c (sending m answers) = (sent c m answers, returns true)

-- The operations one after the other; nothing follows a termination.
unfoldable pub run : UsbipClient → List Operation → UsbipClient × Outcome
unfolding perform
run c [] = (c, returns true)
run c (op ∷ ops) = continue (perform c op) (λ c'. run c' ops)

abbrev SafeOrStale : UsbipClient → UsbipClient × Outcome → Type 0
SafeOrStale c r = IsSafe r ⊎ ((r.1 ≡ terminates) × IsStale c)

perform-cases : (c : UsbipClient) (op : Operation) → IsCoherent c → SafeOrStale c (perform c op)
unfolding perform connect_client
perform-cases c (connecting host port calls ends) v =
    branch (SafeOrStale c) c.connected _ _ (λ up. inl (v, returns-ne-terminates true))
      (λ off.
        connect_client-cases (record c { server_host = host; server_port = port }) calls ends
          (addressed-IsCoherent c host port v) off (connect-Attempt c.socket calls))
perform-cases c disconnecting v = inl (disconnect-IsSafe c v)
perform-cases c (losing broken) v = inl (
    branch-IsSafe c.socket.is_connected (receive_end c broken) (c, returns true)
      (receive_end-IsSafe c broken v) (v, returns-ne-terminates true))
perform-cases c (starting seconds) v = inl (start_heartbeat-IsSafe c seconds v)
perform-cases c stopping v = inl (stop_heartbeat-IsCoherent c v, returns-ne-terminates true)
perform-cases c (sending m answers) v =
    inl (sent-IsCoherent c m answers v, returns-ne-terminates true)

-- The operations run up to a client whose socket is stale.
abbrev pub Reaches : UsbipClient → List Operation → Type 0
Reaches c [] = ⊥
Reaches c (op ∷ ops) =
    IsStale c ⊎ ((d : UsbipClient) × (b : Bool) × (perform c op ≡ (d, returns b)) × Reaches d ops)

-- From a coherent client, such as a new one, any sequence of operations either leaves a coherent
-- client and a running process, or terminates the process; it terminates only if on the way a
-- connection was lost and its socket not closed.
pub run-IsSafe :
    (c : UsbipClient) (ops : List Operation)
    → IsCoherent c
    → IsSafe (run c ops) ⊎ (((run c ops).1 ≡ terminates) × Reaches c ops)
unfolding run
run-IsSafe c [] v = inl (v, returns-ne-terminates true)
run-IsSafe c (op ∷ ops) v =
    step (perform c op) refl (perform-cases c op v) (λ d w. run-IsSafe d ops w)
  where
    step :
        (r : UsbipClient × Outcome)
        → perform c op ≡ r
        → SafeOrStale c r
        → ((d : UsbipClient)
            → IsCoherent d
            → IsSafe (run d ops) ⊎ (((run d ops).1 ≡ terminates) × Reaches d ops))
        → IsSafe (continue r (λ c'. run c' ops))
          ⊎ (((continue r (λ c'. run c' ops)).1 ≡ terminates) × Reaches c (op ∷ ops))
    step (d, terminates) e (inl (w, bad)) rec = absurd (bad refl)
    step (d, terminates) e (inr (_, stale)) rec = inr (refl, inl stale)
    step (d, returns b) e (inr (bad, stale)) rec = inr (cc, cc)
    step (d, returns b) e (inl (w, ok)) rec = elim (rec d w) [
      | inl safe ↦ inl safe
      | inr (ended, way) ↦ inr (ended, inr (d, b, e, way))
    ]

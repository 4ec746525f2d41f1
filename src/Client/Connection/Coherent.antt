-- ===== src/Client/Connection/Coherent.antt =====
-- What the operations of a UsbipClient keep: its flags against its threads and its socket.
use usb_lib.Prelude.{
  branch, ℕ, zero, suc, ◌≡◌, ◌≢◌, refl, ◌∙◌, ◌⊎◌, inl, inr, [], ◌∷◌, Bool, true, false, ◌&&◌, ◌||◌,
  not, List, none, arith, Bool-cases, if◌then◌else◌,
}
use usb_lib.Words.{Bytes}
use usb_lib.Message.{NetworkMessage}
use usb_lib.Socket.{
  Event, SendAnswer, SendState, finished, waiting, loop_errors, send_errors, TcpSocket, tcp_socket,
  ConnectCalls, notify_connect, Outcome, returns, terminates, connect, close, is_open,
}
use usb_lib.Socket.Attempt.{Attempt, online, already_up, no_socket, abandoned, crashed, connects}
use usb_lib.Client.Connection.{
  UsbipClient, usbip_client, start_heartbeat, stop_heartbeat, on_network_connect, on_network_error,
  continue, on_events, close_socket, receive_end, wait_for_confirmation, after_connect, disconnect,
  sent,
}
use usb_lib.Client.Connection.Events.{offline, close_socket_lem, receive_end_lem}

-- The heartbeat thread is joinable exactly while its flag is set. A client that says that it is
-- connected has a connected socket, and a connected socket is open and has its receive thread.
pub record IsCoherent (c : UsbipClient) : Type 0 where
  pub thread_flag : c.heartbeat_thread ≡ c.heartbeat_running
  pub online_flag : (c.connected ≡ false) ⊎ (c.socket.is_connected ≡ true)
  pub receiving : (c.socket.is_connected ≡ false) ⊎ (c.socket.receive_thread ≡ true)
  pub opened : (c.socket.is_connected ≡ false) ⊎ (is_open c.socket ≡ true)

offline-IsCoherent :
    (c : UsbipClient) (s : TcpSocket)
    → s.is_connected ≡ false
    → IsCoherent c
    → IsCoherent (offline c s)
unfolding stop_heartbeat
offline-IsCoherent c s down v = ground arith

close-down : (s : TcpSocket) → (close s).0.is_connected ≡ false
unfolding close
close-down s = refl

-- An operation that the process survives, with a coherent client after it.
abbrev pub IsSafe : UsbipClient × Outcome → Type 0
IsSafe (c, outcome) = IsCoherent c × (outcome ≢ terminates)

pub returns-ne-terminates : (b : Bool) → returns b ≢ terminates
returns-ne-terminates b e = cc

close-IsSafe : (c : UsbipClient) → IsCoherent c → IsSafe (close_socket c)
close-IsSafe c v =
    rw (close_socket_lem c)
      (offline-IsCoherent c (close c.socket).0 (close-down c.socket) v, returns-ne-terminates true)

pub receive_end-IsSafe :
    (c : UsbipClient) (broken : Bool) → IsCoherent c → IsSafe (receive_end c broken)
receive_end-IsSafe c broken v =
    rw (receive_end_lem c broken) (offline-IsCoherent c _ refl v, returns-ne-terminates true)

continue-IsSafe :
    (r : UsbipClient × Outcome) (rest : UsbipClient → UsbipClient × Outcome)
    → IsSafe r
    → ((c : UsbipClient) → IsCoherent c → IsSafe (rest c))
    → IsSafe (continue r rest)
continue-IsSafe (c, returns b) rest (v, e) h = h c v
continue-IsSafe (c, terminates) rest (v, e) h = absurd (e refl)

pub branch-IsSafe :
    (b : Bool) (x y : UsbipClient × Outcome) → IsSafe x → IsSafe y → IsSafe (if b then x else y)
branch-IsSafe true x y v w = v
branch-IsSafe false x y v w = w

wait-IsSafe :
    (n : ℕ) (c : UsbipClient) (ends : ℕ → Bool)
    → IsCoherent c
    → IsSafe (wait_for_confirmation n c ends)
unfolding wait_for_confirmation
wait-IsSafe zero c ends v =
    continue-IsSafe (close_socket c) _ (close-IsSafe c v)
      (λ c' v'. (v', returns-ne-terminates false))
wait-IsSafe (suc n) c ends v =
    continue-IsSafe
      (if ends n && c.socket.is_connected then receive_end c false else (c, returns true)) _
      (branch-IsSafe (ends n && c.socket.is_connected) (receive_end c false) (c, returns true)
        (receive_end-IsSafe c false v) (v, returns-ne-terminates true))
      (λ c' v'.
        branch-IsSafe c'.connected (c', returns true) (wait_for_confirmation n c' ends)
          (v', returns-ne-terminates true) (wait-IsSafe n c' ends v'))

-- The parts of a client that a new address leaves alone.
pub addressed-IsCoherent :
    (c : UsbipClient) (host : Bytes) (port : ℕ)
    → IsCoherent c
    → IsCoherent (record c { server_host = host; server_port = port })
addressed-IsCoherent c host port v = record {
  thread_flag = v.thread_flag;
  online_flag = v.online_flag;
  receiving = v.receiving;
  opened = v.opened;
}

failed-IsCoherent :
    (c : UsbipClient)
    → c.socket.is_connected ≡ false
    → IsCoherent c
    → IsCoherent (record c { socket = record (c.socket) { socket_fd = none }; connected = false })
failed-IsCoherent c down v = record {
  thread_flag = v.thread_flag;
  online_flag = inl refl;
  receiving = inl down;
  opened = inl down;
}

connected-IsSafe :
    (c : UsbipClient) (fd : ℕ)
    → IsCoherent c
    → IsSafe (on_events (record c { socket = online c.socket fd }) (notify_connect true ∷ []))
unfolding on_events on_network_connect start_heartbeat
connected-IsSafe c fd v = elim (Bool-cases c.heartbeat_running) [
  | inl on ↦ rw on (
    record {
      thread_flag = v.thread_flag ∙ on;
      online_flag = inr refl;
      receiving = inr refl;
      opened = inr refl;
    },
    returns-ne-terminates true,
  )
  | inr off ↦
      rw (off, v.thread_flag ∙ off)
        (
          record {
            thread_flag = refl;
            online_flag = inr refl;
            receiving = inr refl;
            opened = inr refl;
          },
          returns-ne-terminates true,
        )
]

-- A connection was lost and its socket never closed.
abbrev pub IsStale : UsbipClient → Type 0
IsStale c = (c.socket.is_connected ≡ false) × (c.socket.receive_thread ≡ true)

-- What a `Connect` comes to: it is safe, unless a connection was lost and never closed.
pub connect_client-cases :
    (c : UsbipClient) (calls : ConnectCalls) (ends : ℕ → Bool)
    → IsCoherent c
    → c.connected ≡ false
    → Attempt c.socket calls
    → IsSafe (after_connect c (connect c.socket calls) ends)
      ⊎ ((after_connect c (connect c.socket calls) ends).1 ≡ terminates) × IsStale c
unfolding after_connect
connect_client-cases c calls ends v off (already_up up e) =
    inl (rw e (unfold on_events in (v, returns-ne-terminates false)))
connect_client-cases c calls ends v off (no_socket down e) = inl (
    rw e (
      unfold on_events on_network_error in
      (failed-IsCoherent c down v, returns-ne-terminates false)))
connect_client-cases c calls ends v off (abandoned fd down e) = inl (
    rw e (
      unfold on_events on_network_error in
      (failed-IsCoherent c down v, returns-ne-terminates false)))
connect_client-cases c calls ends v off (crashed t down old e) = inr (rw e refl, (down, old))
connect_client-cases c calls ends v off (connects fd down free e) = inl (
    rw e (
      continue-IsSafe
        (on_events (record c { socket = online c.socket fd }) (notify_connect true ∷ []))
        (λ c'. wait_for_confirmation 50 c' ends) (connected-IsSafe c fd v)
        (λ c' v'. wait-IsSafe 50 c' ends v')))

pub stop_heartbeat-IsCoherent : (c : UsbipClient) → IsCoherent c → IsCoherent (stop_heartbeat c)
unfolding stop_heartbeat
stop_heartbeat-IsCoherent c v = ground arith

pub disconnect-IsSafe : (c : UsbipClient) → IsCoherent c → IsSafe (disconnect c)
unfolding disconnect
disconnect-IsSafe c v =
    branch-IsSafe (not c.connected) (c, returns true) _ (v, returns-ne-terminates true)
      (continue-IsSafe (close_socket (stop_heartbeat c))
        (λ c'. (record c' { connected = false }, returns true))
        (close-IsSafe (stop_heartbeat c) (stop_heartbeat-IsCoherent c v))
        (λ c' w. (
          record {
            thread_flag = w.thread_flag;
            online_flag = inl refl;
            receiving = w.receiving;
            opened = w.opened;
          },
          returns-ne-terminates true,
        )))

pub start_heartbeat-IsSafe :
    (c : UsbipClient) (seconds : ℕ) → IsCoherent c → IsSafe (start_heartbeat c seconds)
unfolding start_heartbeat
start_heartbeat-IsSafe c seconds v =
    branch IsSafe c.heartbeat_running _ _ (λ on. (v, returns-ne-terminates true))
      (λ off.
        branch IsSafe c.heartbeat_thread _ _ (λ joinable. cc (joinable, off, v.thread_flag))
          (λ free. (
            record {
              thread_flag = refl;
              online_flag = v.online_flag;
              receiving = v.receiving;
              opened = v.opened;
            },
            returns-ne-terminates true,
          )))

errors-IsCoherent :
    (c : UsbipClient) (state : SendState)
    → IsCoherent c
    → IsCoherent (on_events c (loop_errors state)).0
unfolding on_events on_network_error loop_errors
errors-IsCoherent c (finished true) v = v
errors-IsCoherent c (finished false) v = record {
  thread_flag = v.thread_flag;
  online_flag = inl refl;
  receiving = v.receiving;
  opened = v.opened;
}
errors-IsCoherent c waiting v = v

pub sent-IsCoherent :
    (c : UsbipClient) (m : NetworkMessage) (answers : List SendAnswer)
    → IsCoherent c
    → IsCoherent (sent c m answers)
unfolding sent send_errors
sent-IsCoherent c m answers v =
    branch IsCoherent c.connected _ _
      (λ _.
        branch (λ (events : List Event). IsCoherent (on_events c events).0)
          (not c.socket.is_connected || not (is_open c.socket)) _ _ (λ _. unfold on_events in v)
          (λ _. errors-IsCoherent c _ v))
      (λ _. v)

pub usbip_client-IsCoherent : IsCoherent usbip_client
unfolding usbip_client tcp_socket
usbip_client-IsCoherent = record {
  thread_flag = refl;
  online_flag = inl refl;
  receiving = inl refl;
  opened = inl refl;
}

-- ===== src/Socket/Attempt.antt =====
-- The cases of `TcpSocket::Connect`, by the state of the socket and the system calls.
use usb_lib.Prelude.{
  ℕ, ◌≡◌, inl, inr, [], ◌∷◌, true, false, none, some, arith, Bool-cases, Option-cases,
}
use usb_lib.Socket.{
  TcpSocket, ConnectCalls, notify_error, notify_connect, closed_fd, returns, terminates, connect,
}

-- The socket that is connected on `fd`, with a receive thread.
abbrev pub online : TcpSocket → ℕ → TcpSocket
online s fd = record s {
  socket_fd = some fd;
  is_connected = true;
  should_stop = false;
  receive_thread = true;
}

pub data Attempt (s : TcpSocket) (c : ConnectCalls) : Type 0 where
  already_up : s.is_connected ≡ true → connect s c ≡ (s, returns false, []) → Attempt s c
  no_socket :
      s.is_connected ≡ false
      → connect s c ≡ (record s { socket_fd = none }, returns false, notify_error ∷ [])
      → Attempt s c
  abandoned :
      (fd : ℕ)
      → s.is_connected ≡ false
      → connect s c
        ≡ (record s { socket_fd = none }, returns false, notify_error ∷ closed_fd fd ∷ [])
      → Attempt s c
  crashed :
      (t : TcpSocket)
      → s.is_connected ≡ false
      → s.receive_thread ≡ true
      → connect s c ≡ (t, terminates, [])
      → Attempt s c
  connects :
      (fd : ℕ)
      → s.is_connected ≡ false
      → s.receive_thread ≡ false
      → connect s c ≡ (online s fd, returns true, notify_connect true ∷ [])
      → Attempt s c

opened-Attempt :
    (s : TcpSocket) (c : ConnectCalls) (fd : ℕ)
    → s.is_connected ≡ false
    → c.socket_result ≡ some fd
    → Attempt s c
unfolding connect
opened-Attempt s c fd down got = elim (Bool-cases c.address_valid) [
  | inr bad ↦ abandoned fd down (ground arith)
  | inl good ↦ elim (Bool-cases c.connect_done) [
    | inr refused ↦ abandoned fd down (ground arith)
    | inl done ↦ elim (Bool-cases s.receive_thread) [
      | inl old ↦
          crashed (record s { socket_fd = some fd; is_connected = true; should_stop = false }) down
            old (ground arith)
      | inr free ↦ connects fd down free (ground arith)
    ]
  ]
]

pub connect-Attempt : (s : TcpSocket) (c : ConnectCalls) → Attempt s c
connect-Attempt s c = elim (Bool-cases s.is_connected) [
  | inl up ↦ already_up up (unfold connect in ground arith)
  | inr down ↦ elim (Option-cases c.socket_result) [
    | inl failed ↦ no_socket down (unfold connect in ground arith)
    | inr (fd, got) ↦ opened-Attempt s c fd down got
  ]
]

-- ===== src/Socket/Reconnect.antt =====
-- Connecting, losing the peer, closing, and connecting again.
use usb_lib.Prelude.{Option-cases, inl, inr, ℕ, ◌≡◌, [], ◌∷◌, none, some, true, false, arith}
use usb_lib.Socket.{
  closed, TcpSocket, ConnectCalls, connect, receive_thread_end, close, returns, terminates,
  notify_connect, notify_error,
}

-- The system calls of a `Connect` all succeed.
pub record CallsSucceed (c : ConnectCalls) (fd : ℕ) : Type 0 where
  pub opened : c.socket_result ≡ some fd
  pub address : c.address_valid ≡ true
  pub answered : c.connect_done ≡ true

-- After a `Connect` that returned true and the end of its receive thread, a second `Connect` whose
-- system calls succeed terminates the process.
pub connect-after_loss :
    (s : TcpSocket) (c c' : ConnectCalls) (fd' : ℕ)
    → (connect s c).1 ≡ returns true
    → CallsSucceed c' fd'
    → (connect (receive_thread_end (connect s c).0).0 c').1 ≡ terminates
unfolding connect receive_thread_end
connect-after_loss s c c' fd' first v = ground arith

-- After `Close` a `Connect` whose system calls succeed returns true, from whatever state was closed,
-- and leaves a connected socket on the new descriptor with its receive thread.
pub connect-after_close :
    (s : TcpSocket) (c : ConnectCalls) (fd : ℕ)
    → CallsSucceed c fd
    → let r = connect (close s).0 c in
      (r.1 ≡ returns true)
      × (r.0.socket_fd ≡ some fd)
      × (r.0.is_connected ≡ true)
      × (r.0.should_stop ≡ false)
      × (r.0.receive_thread ≡ true)
      × (r.2 ≡ notify_connect true ∷ [])
unfolding connect close
connect-after_close s c fd v = ground arith

-- A `Connect` that returns false on an unconnected socket leaves no descriptor and no connection, reports
-- one error, and has closed the descriptor if `socket` gave one.
pub connect_failed :
    (s : TcpSocket) (c : ConnectCalls)
    → s.is_connected ≡ false
    → (connect s c).1 ≡ returns false
    → ((connect s c).0.socket_fd ≡ none)
      × ((connect s c).0.is_connected ≡ false)
      × ((connect s c).2 ≡ notify_error ∷ closed c.socket_result)
unfolding connect closed
connect_failed s c idle no_luck = elim (Option-cases c.socket_result) [
  | inl e ↦ (ground arith, ground arith, ground arith)
  | inr (fd, e) ↦ (ground arith, ground arith, ground arith)
]

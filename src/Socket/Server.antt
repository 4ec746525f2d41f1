-- ===== src/Socket/Server.antt =====
-- A listening TcpSocket and the histories without `Connect`, as those of the sender.
use usb_lib.Prelude.{ℕ, ◌≡◌, refl, List, [], false, arith}
use usb_lib.Words.{Bytes}
use usb_lib.Socket.{
  TcpSocket, tcp_socket, ListenCalls, listen, AcceptAnswer, accepted, accept_again, accept_failed,
  accept_round, client_end, close, SendAnswer, finished, send,
}

-- What happens to the socket of the sender's `main`: it listens, accepts, serves and closes.
pub data ServerStep (s : TcpSocket) : TcpSocket → Type 0 where
  listens : (c : ListenCalls) → ServerStep s (listen s c).0
  accepts : (a : AcceptAnswer) → ServerStep s (accept_round s a).0
  client_ends : (fd : ℕ) → ServerStep s (client_end s fd).0
  closes : ServerStep s (close s).0

pub data ServerRun : TcpSocket → Type 0 where
  fresh : ServerRun tcp_socket
  later : {s t : TcpSocket} → ServerRun s → ServerStep s t → ServerRun t

ServerStep-disconnected :
    {s t : TcpSocket} → ServerStep s t → s.is_connected ≡ false → t.is_connected ≡ false
unfolding listen accept_round client_end close
ServerStep-disconnected (listens c) h = ground arith
ServerStep-disconnected (accepts (accepted fd)) h = h
ServerStep-disconnected (accepts accept_again) h = h
ServerStep-disconnected (accepts accept_failed) h = h
ServerStep-disconnected (client_ends fd) h = h
ServerStep-disconnected closes h = refl

ServerRun-disconnected : {s : TcpSocket} → ServerRun s → s.is_connected ≡ false
ServerRun-disconnected fresh = unfold tcp_socket in refl
ServerRun-disconnected (later r st) = ServerStep-disconnected st (ServerRun-disconnected r)

-- A socket that listens and accepts, and never calls `Connect`, sends nothing: in every state of such a
-- run `Send` returns false at once and the kernel gets no byte, also while clients are connected.
pub send-ServerRun :
    {s : TcpSocket} (bytes : Bytes) (answers : List SendAnswer)
    → ServerRun s
    → send s bytes answers ≡ (finished false, [])
unfolding send
send-ServerRun bytes answers r = ground (arith, ServerRun-disconnected r)

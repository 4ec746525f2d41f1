-- ===== src/Socket.antt =====
-- common/network/tcp_socket.h and tcp_socket.cpp. The answers of the system calls are arguments, in
-- the order in which the code asks for them; callbacks are events, returned in order.
pub mod Send
pub mod Server
pub mod Reconnect
pub mod Attempt
pub mod Address
use usb_lib.Prelude.{
  ℕ, ◌+◌, ◌≡◌, List, [], ◌∷◌, ◌++◌, Option, none, some, Bool, true, false, ◌&&◌, ◌||◌, not, ltb,
  ◌==◌, if◌then◌else◌, length, take, drop, arith,
}
use usb_lib.Words.{Bytes}

-- `socket_fd` is `none` for -1; the thread fields say whether the `std::thread` is joinable.
pub record TcpSocket : Type 0 where
  pub socket_fd : Option ℕ
  pub is_connected : Bool
  pub is_listening : Bool
  pub should_stop : Bool
  pub client_fds : List ℕ
  pub receive_thread : Bool
  pub accept_thread : Bool

pub data Event : Type 0 where
  notify_error : Event
  notify_connect : Bool → Event
  data_received : Bytes → Event
  closed_fd : ℕ → Event

-- What a member function does to its caller: it returns, or a `std::thread` that is still joinable is
-- assigned to, for which the standard library calls `std::terminate`.
pub data Outcome : Type 0 where
  returns : Bool → Outcome
  terminates : Outcome

abbrev pub is_open : TcpSocket → Bool
is_open s = elim (s.socket_fd) [ none ↦ false | some fd ↦ true ]

unfoldable pub tcp_socket : TcpSocket
tcp_socket = record {
  socket_fd = none;
  is_connected = false;
  is_listening = false;
  should_stop = false;
  client_fds = [];
  receive_thread = false;
  accept_thread = false;
}

-- The answers of `socket`, `inet_pton` and `connect`.
pub record ConnectCalls : Type 0 where
  pub socket_result : Option ℕ
  pub address_valid : Bool
  pub connect_done : Bool

-- `connect` failed after `socket` gave `fd`.
abbrev pub abandon : TcpSocket → ℕ → TcpSocket × Outcome × List Event
abandon s fd = (record s { socket_fd = none }, returns false, notify_error ∷ closed_fd fd ∷ [])

abbrev pub connected : TcpSocket → ℕ → TcpSocket × Outcome × List Event
connected s fd =
    let s' = record s { socket_fd = some fd; is_connected = true; should_stop = false } in
    if s.receive_thread
    then (s', terminates, [])
    else (record s' { receive_thread = true }, returns true, notify_connect true ∷ [])

unfoldable pub connect : TcpSocket → ConnectCalls → TcpSocket × Outcome × List Event
connect s c = if s.is_connected then (s, returns false, []) else elim (c.socket_result) [
  | none ↦ (record s { socket_fd = none }, returns false, notify_error ∷ [])
  | some fd ↦
      if not c.address_valid
      then abandon s fd
      else if not c.connect_done
      then abandon s fd
      else connected s fd
]

-- The answers of `socket`, `setsockopt`, `inet_pton` (not asked for the wildcard address), `bind` and
-- `listen`.
pub record ListenCalls : Type 0 where
  pub socket_result : Option ℕ
  pub option_set : Bool
  pub is_wildcard : Bool
  pub address_valid : Bool
  pub bind_done : Bool
  pub listen_done : Bool

abbrev pub listening : TcpSocket → ℕ → TcpSocket × Outcome × List Event
listening s fd =
    let s' = record s { socket_fd = some fd; is_listening = true; should_stop = false } in
    if s.accept_thread
    then (s', terminates, [])
    else (record s' { accept_thread = true }, returns true, [])

unfoldable pub listen : TcpSocket → ListenCalls → TcpSocket × Outcome × List Event
listen s c = if s.is_listening then (s, returns false, []) else elim (c.socket_result) [
  | none ↦ (record s { socket_fd = none }, returns false, notify_error ∷ [])
  | some fd ↦
      if not c.option_set
      then abandon s fd
      else if not (c.is_wildcard || c.address_valid)
      then abandon s fd
      else if not c.bind_done
      then abandon s fd
      else if not c.listen_done
      then abandon s fd
      else listening s fd
]

-- The answer of one call of `send`: it took so many bytes, would block, or failed.
pub data SendAnswer : Type 0 where
  took : ℕ → SendAnswer
  would_block failed : SendAnswer

-- How the loop of `Send` stands once the answers are used up.
pub data SendState : Type 0 where
  finished : Bool → SendState
  waiting : SendState

-- The loop, with `total` bytes sent so far; the second part is what the kernel took, in order.
unfoldable pub send_loop : Bytes → ℕ → List SendAnswer → SendState × Bytes
send_loop bytes total [] = if ltb total (length bytes) then (waiting, []) else (finished true, [])
send_loop bytes total (took n ∷ answers) =
    let (state, wire) = send_loop bytes (total + n) answers in
    if ltb total (length bytes)
    then (state, take n (drop total bytes) ++ wire)
    else (finished true, [])
send_loop bytes total (would_block ∷ answers) =
    let rest = send_loop bytes total answers in
    if ltb total (length bytes) then rest else (finished true, [])
send_loop bytes total (failed ∷ answers) =
    if ltb total (length bytes) then (finished false, []) else (finished true, [])

unfoldable pub send : TcpSocket → Bytes → List SendAnswer → SendState × Bytes
send s bytes answers =
    if not s.is_connected || not (is_open s)
    then (finished false, [])
    else send_loop bytes 0 answers

-- The `NotifyError` of the loop, which the failure of `send` alone calls.
unfoldable pub loop_errors : SendState → List Event
loop_errors (finished true) = []
loop_errors (finished false) = notify_error ∷ []
loop_errors waiting = []

-- The callbacks that `Send` calls; its guard calls none.
unfoldable pub send_errors : TcpSocket → Bytes → List SendAnswer → List Event
unfolding loop_errors
send_errors s bytes answers =
    if not s.is_connected || not (is_open s) then [] else loop_errors (send_loop bytes 0 answers).0

unfoldable pub closed : Option ℕ → List Event
closed none = []
closed (some fd) = closed_fd fd ∷ []

unfoldable pub closed_all : List ℕ → List Event
closed_all [] = []
closed_all (fd ∷ fds) = closed_fd fd ∷ closed_all fds

-- `Close`, if its joins return: a `recv` or `accept` that is still blocked in one of the threads has to come
-- back once the descriptor is closed, which depends on the system. The last event is the callback of
-- `NotifyConnect(false)`.
unfoldable pub close : TcpSocket → TcpSocket × List Event
unfolding closed closed_all
close s = (
  record {
    socket_fd = none;
    is_connected = false;
    is_listening = false;
    should_stop = true;
    client_fds = [];
    receive_thread = false;
    accept_thread = false;
  },
  closed s.socket_fd ++ (closed_all s.client_fds ++ (notify_connect false ∷ [])),
)

-- The answer of one call of `recv`.
pub data RecvAnswer : Type 0 where
  got : Bytes → RecvAnswer
  end_of_stream no_data broken : RecvAnswer

-- `ReceiveThread` while nobody else changes the flags: the events, and whether the loop has ended.
unfoldable pub receive_loop : List RecvAnswer → List Event × Bool
receive_loop [] = ([], false)
receive_loop (got bytes ∷ more) =
    let (events, over) = receive_loop more in (data_received bytes ∷ events, over)
receive_loop (end_of_stream ∷ more) = ([], true)
receive_loop (no_data ∷ more) = receive_loop more
receive_loop (broken ∷ more) = (notify_error ∷ [], true)

-- The thread's end leaves the descriptor open and the thread joinable.
unfoldable pub receive_thread_end : TcpSocket → TcpSocket × List Event
receive_thread_end s = (record s { is_connected = false }, notify_connect false ∷ [])

-- A round of `AcceptThread`: `accept` gives a descriptor, would block, or fails.
pub data AcceptAnswer : Type 0 where
  accepted : ℕ → AcceptAnswer
  accept_again accept_failed : AcceptAnswer

unfoldable pub accept_round : TcpSocket → AcceptAnswer → TcpSocket × List Event
accept_round s (accepted fd) = (record s { client_fds = s.client_fds ++ (fd ∷ []) }, [])
accept_round s accept_again = (s, [])
accept_round s accept_failed = (s, if not s.should_stop then notify_error ∷ [] else [])

-- `erase(remove(...))`: every entry of the descriptor goes.
unfoldable pub remove_fd : ℕ → List ℕ → List ℕ
remove_fd fd [] = []
remove_fd fd (x ∷ xs) = let rest = remove_fd fd xs in if x == fd then rest else x ∷ rest

-- The end of `HandleClient` for one descriptor; a receive error is not reported here.
unfoldable pub client_end : TcpSocket → ℕ → TcpSocket × List Event
unfolding remove_fd
client_end s fd = (record s { client_fds = remove_fd fd s.client_fds }, closed_fd fd ∷ [])

-- The loop of `HandleClient`.
unfoldable pub client_loop : List RecvAnswer → List Event × Bool
client_loop [] = ([], false)
client_loop (got bytes ∷ more) =
    let (events, over) = client_loop more in (data_received bytes ∷ events, over)
client_loop (end_of_stream ∷ more) = ([], true)
client_loop (no_data ∷ more) = client_loop more
client_loop (broken ∷ more) = ([], true)

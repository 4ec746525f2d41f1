-- ===== src/Socket/Address.antt =====
-- `GetLocalAddress` and `GetRemoteAddress` of tcp_socket.cpp. An answer is the text that `inet_ntop` gives
-- for the address, and the port in network order; `none` if the system call fails.
use usb_lib.Prelude.{ℕ, [], ◌∷◌, ◌++◌, Option, none, some, not, if◌then◌else◌}
use usb_lib.Words.{Bytes, ntohs}
use usb_lib.Text.{to_string}
use usb_lib.Socket.{TcpSocket, is_open}

abbrev address_text : TcpSocket → Option (Bytes × ℕ) → Bytes
address_text s none = []
address_text s (some (ip, port)) =
    if not (is_open s) then [] else ip ++ (58 ∷ to_string (ntohs port))

unfoldable pub get_local_address : TcpSocket → Option (Bytes × ℕ) → Bytes
get_local_address s getsockname = address_text s getsockname

unfoldable pub get_remote_address : TcpSocket → Option (Bytes × ℕ) → Bytes
get_remote_address s getpeername = address_text s getpeername

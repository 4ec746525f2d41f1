-- ===== src/Socket/Send.antt =====
-- The loop of `TcpSocket::Send` of common/network/tcp_socket.cpp, and what it writes.
use usb_lib.Prelude.{
  ◌↔◌, ℕ, ◌+◌, ◌≤◌, ◌<◌, ◌≡◌, refl, sym, ap, ◌∙◌, List, [], ◌∷◌, ◌++◌, true, false, ltb, length,
  take, drop, arith, take-append-drop, append_assoc, inl, inr, Bool-cases, drop-add, drop-all,
  drop-nonempty, ◌≢◌, ltb→lt, ltb→le, min,
}
use usb_lib.Words.{Bytes}
use usb_lib.Socket.{
  TcpSocket, SendAnswer, took, would_block, failed, SendState, finished, waiting, send_loop, send,
  is_open,
}

-- `send` never takes more than it was offered.
abbrev pub AreHonest : Bytes → ℕ → List SendAnswer → Type 0
AreHonest bytes total [] = Unit {0}
AreHonest bytes total (took n ∷ answers) =
    (total + n ≤ length bytes) × AreHonest bytes (total + n) answers
AreHonest bytes total (would_block ∷ answers) = AreHonest bytes total answers
AreHonest bytes total (failed ∷ answers) = AreHonest bytes total answers

-- What the kernel took is the front of what was left, and all of it exactly on success.
abbrev SendsFrom : Bytes → ℕ → SendState × Bytes → Type 0
SendsFrom bytes total r =
    (rest : Bytes) × (drop total bytes ≡ r.1 ++ rest) × ((r.0 ≡ finished true) ↔ (rest ≡ []))

all_sent :
    (bytes : Bytes) (total : ℕ) → length bytes ≤ total → SendsFrom bytes total (finished true, [])
all_sent bytes total h = ([], drop-all total bytes h, ((λ e. refl), (λ e. refl)))

none_sent :
    (bytes : Bytes) (total : ℕ) (s : SendState)
    → total < length bytes
    → s ≢ finished true
    → SendsFrom bytes total (s, [])
none_sent bytes total s h unfinished = (
  drop total bytes,
  refl,
  ((λ e. absurd (unfinished e)), (λ e. absurd (omega (arith, drop-nonempty total bytes e)))),
)

one_more :
    (bytes : Bytes) (total n : ℕ) (s : SendState) (wire : Bytes)
    → SendsFrom bytes (total + n) (s, wire)
    → SendsFrom bytes total (s, take n (drop total bytes) ++ wire)
one_more bytes total n s wire (rest, e, f) = (
  rest,
  sym (take-append-drop n (drop total bytes))
      ∙ ap (λ (t : Bytes). take n (drop total bytes) ++ t) (sym (drop-add total n bytes) ∙ e)
      ∙ sym (append_assoc (take n (drop total bytes)) wire rest),
  f,
)

send_loop_lem :
    (bytes : Bytes) (total : ℕ) (answers : List SendAnswer)
    → AreHonest bytes total answers
    → SendsFrom bytes total (send_loop bytes total answers)
unfolding send_loop
send_loop_lem bytes total [] h = elim (Bool-cases (ltb total (length bytes))) [
  | inl more ↦ rw more (none_sent bytes total waiting (ltb→lt total (length bytes) more) (λ e. cc))
  | inr done ↦ rw done (all_sent bytes total (ltb→le total (length bytes) done))
]
send_loop_lem bytes total (took n ∷ answers) h = elim (Bool-cases (ltb total (length bytes))) [
  | inl more ↦ rw more (one_more bytes total n _ _ (send_loop_lem bytes (total + n) answers h.1))
  | inr done ↦ rw done (all_sent bytes total (ltb→le total (length bytes) done))
]
send_loop_lem bytes total (would_block ∷ answers) h = elim (Bool-cases (ltb total (length bytes))) [
  | inl more ↦ rw more (send_loop_lem bytes total answers h)
  | inr done ↦ rw done (all_sent bytes total (ltb→le total (length bytes) done))
]
send_loop_lem bytes total (failed ∷ answers) h = elim (Bool-cases (ltb total (length bytes))) [
  | inl more ↦
      rw more (none_sent bytes total (finished false) (ltb→lt total (length bytes) more) (λ e. cc))
  | inr done ↦ rw done (all_sent bytes total (ltb→le total (length bytes) done))
]

-- On a connected socket, if no call of `send` takes more than it is offered, the kernel gets a front
-- part of the data, in order; `Send` returns true exactly when that part is the whole data.
pub send-connected :
    (s : TcpSocket) (bytes : Bytes) (answers : List SendAnswer)
    → s.is_connected ≡ true
    → is_open s ≡ true
    → AreHonest bytes 0 answers
    → (rest : Bytes) × (bytes ≡ (send s bytes answers).1 ++ rest)
      × (((send s bytes answers).0 ≡ finished true) ↔ (rest ≡ []))
unfolding send
send-connected s bytes answers up open_fd h = rw (up, open_fd) (send_loop_lem bytes 0 answers h)

-- How many of the answers took something, up to the first failure.
abbrev pub takes : List SendAnswer → ℕ
takes [] = 0
takes (took n ∷ answers) = min n 1 + takes answers
takes (would_block ∷ answers) = takes answers
takes (failed ∷ answers) = takes answers

send_loop-ends :
    (bytes : Bytes) (total : ℕ) (answers : List SendAnswer)
    → length bytes ≤ total + takes answers
    → (send_loop bytes total answers).0 ≢ waiting
unfolding send_loop
send_loop-ends bytes total [] h = ground arith
send_loop-ends bytes total (took n ∷ answers) h =
    ground (arith, send_loop-ends bytes (total + n) answers)
send_loop-ends bytes total (would_block ∷ answers) h =
    ground (arith, send_loop-ends bytes total answers)
send_loop-ends bytes total (failed ∷ answers) h = ground arith

-- The loop of `Send` ends once as many calls as there are bytes have taken something, or one failed
-- before: calls that would block or take nothing only delay it.
pub send-ends :
    (s : TcpSocket) (bytes : Bytes) (answers : List SendAnswer)
    → length bytes ≤ takes answers
    → (send s bytes answers).0 ≢ waiting
unfolding send
send-ends s bytes answers h = ground (arith, send_loop-ends bytes 0 answers)

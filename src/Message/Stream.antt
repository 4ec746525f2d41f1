-- ===== src/Message/Stream.antt =====
-- `MessageHandler::ProcessReceivedData` on a stream of frames that arrives in pieces cut anywhere.
use usb_lib.Prelude.{
  ℕ, zero, suc, ◌≤◌, ◌<◌, ◌≡◌, refl, sym, ap, ◌∙◌, List, [], ◌∷◌, ◌++◌, some, map, length, arith,
  length-append, append_assoc, append-nil, All,
}
use mathlib.Core.List.{map-append}
use native.Mathlib.Decide.{dec_lt}
use usb_lib.Words.{Bytes}
use usb_lib.Message.{
  NetworkMessage, serialize_message, leave, round, process_loop, process_received_data, receive_all,
  delivering,
}
use usb_lib.Message.Frame.{IsMessage, received, round-serialize, round-partial, length-serialize}

-- What the sender puts on the wire.
abbrev pub frames : List NetworkMessage → Bytes
frames [] = []
frames (m ∷ ms) = serialize_message m ++ frames ms

-- The bytes of all pieces.
abbrev pub join : List Bytes → Bytes
join [] = []
join (c ∷ cs) = c ++ join cs

-- What the loop leaves: the frames that were whole are delivered, and the buffer is the part of the
-- next frame that is there.
record Progress (fuel : ℕ) (front back : Bytes) (ms : List NetworkMessage) : Type 0 where
  done : List NetworkMessage
  todo : List NetworkMessage
  rest : Bytes
  split : ms ≡ done ++ todo
  remains : rest ++ back ≡ frames todo
  runs : process_loop fuel front ≡ some (map received done, rest)
  waits : round rest ≡ leave
  valid : All IsMessage todo

split_front :
    (s front back r : Bytes)
    → front ++ back ≡ s ++ r
    → length s ≤ length front
    → (t : Bytes) × (front ≡ s ++ t) × (t ++ back ≡ r)
split_front [] front back r e h = (front, refl, e)
split_front (x ∷ s) [] back r e h = absurd (omega arith)
split_front (x ∷ s) (y ∷ front) back r e h =
    let (t, p, q) = split_front s front back r (cc) (omega arith) in (t, cc, q)

loop_delivers :
    (fuel : ℕ) (m : NetworkMessage) (t : Bytes)
    → IsMessage m
    → process_loop (suc fuel) (serialize_message m ++ t)
      ≡ delivering (some (received m)) (process_loop fuel t)
unfolding process_loop
loop_delivers fuel m t v = rw (round-serialize m v t, process_loop)

loop_waits : (fuel : ℕ) (bs : Bytes) → round bs ≡ leave → process_loop (suc fuel) bs ≡ some ([], bs)
unfolding process_loop
loop_waits fuel bs e = rw (e, process_loop)

round-nil : (bs : Bytes) → bs ≡ [] → round bs ≡ leave
unfolding round
round-nil [] e = refl
round-nil (b ∷ bs) e = cc

loop-Progress :
    (fuel : ℕ) (front back : Bytes) (ms : List NetworkMessage)
    → All IsMessage ms
    → front ++ back ≡ frames ms
    → length front < fuel
    → Progress fuel front back ms
loop-Progress zero front back ms v e h = absurd (omega arith)
loop-Progress (suc fuel) front back [] v e h = record {
  done = [];
  todo = [];
  rest = front;
  split = refl;
  remains = e;
  runs = loop_waits fuel front empty;
  waits = empty;
  valid = tt;
}
  where
    nil_left : (bs more : Bytes) → bs ++ more ≡ [] → bs ≡ []
    nil_left [] more p = refl
    nil_left (b ∷ bs) more p = cc

    empty : round front ≡ leave
    empty = round-nil front (nil_left front back e)
loop-Progress (suc fuel) front back (m ∷ ms) v e h =
    elim (dec_lt (length front) (length (serialize_message m))) [
      | yes short ↦
          let wait : round front ≡ leave = round-partial m v.0 front back (frames ms) e short in
          record {
            done = [];
            todo = m ∷ ms;
            rest = front;
            split = refl;
            remains = e;
            runs = loop_waits fuel front wait;
            waits = wait;
            valid = v;
          }
      | no whole ↦
          first (split_front (serialize_message m) front back (frames ms) e (omega arith)) (λ t p q.
            loop-Progress fuel t back ms v.1 q (
              omega (
                arith,
                ap length p,
                length-append (serialize_message m) t,
                length-serialize m v.0,
              )))
    ]
  where
    first :
        ((t : Bytes) × (front ≡ serialize_message m ++ t) × (t ++ back ≡ frames ms))
        → ((t : Bytes)
            → front ≡ serialize_message m ++ t
            → t ++ back ≡ frames ms
            → Progress fuel t back ms)
        → Progress (suc fuel) front back (m ∷ ms)
    first (t, p, q) rec =
        let r = rec t p q in
        record {
          done = m ∷ r.done;
          todo = r.todo;
          rest = r.rest;
          split = ap (◌∷◌ m) r.split;
          remains = r.remains;
          runs = rw p (rw (loop_delivers fuel m t v.0) (rw (r.runs) refl));
          waits = r.waits;
          valid = r.valid;
        }

-- A buffer that waits holds no whole frame.
nothing_left :
    (buf : Bytes) (ms : List NetworkMessage)
    → All IsMessage ms
    → round buf ≡ leave
    → buf ++ [] ≡ frames ms
    → (ms ≡ []) × (buf ≡ [])
nothing_left buf [] v w e = (refl, sym (append-nil buf) ∙ e)
nothing_left buf (m ∷ ms) v w e =
    cc (w, ap round (sym (append-nil buf) ∙ e), round-serialize m v.0 (frames ms))

receive_step :
    (buf : Bytes) (c : Bytes) (cs : List Bytes) (ms more : List NetworkMessage) (rest last : Bytes)
    → process_loop (suc (length (buf ++ c))) (buf ++ c) ≡ some (ms, rest)
    → receive_all rest cs ≡ some (more, last)
    → receive_all buf (c ∷ cs) ≡ some (ms ++ more, last)
unfolding receive_all process_received_data
receive_step buf c cs ms more rest last p q = rw (p, receive_all) (rw (q, receive_all))

-- Feeding the pieces one after the other, from any partial frame on.
receive_progress :
    (buf : Bytes) (cs : List Bytes) (ms : List NetworkMessage)
    → All IsMessage ms
    → round buf ≡ leave
    → buf ++ join cs ≡ frames ms
    → receive_all buf cs ≡ some (map received ms, [])
receive_progress buf [] ms v w e =
    let (none_left, empty) = nothing_left buf ms v w e in
    rw (none_left, empty) (unfold receive_all in refl)
receive_progress buf (c ∷ cs) ms v w e =
    let p =
      loop-Progress (suc (length (buf ++ c))) (buf ++ c) (join cs) ms v
        (append_assoc buf c (join cs) ∙ e) (omega arith) in
    let later = receive_progress p.rest cs p.todo p.valid p.waits p.remains in
    receive_step buf c cs (map received p.done) (map received p.todo) p.rest [] p.runs later
    ∙ ap (λ (l : List NetworkMessage). some (l, []))
        (sym (map-append received p.done p.todo) ∙ ap (map received) (sym p.split))

-- Messages with the magic number, a type and a number of 32 bits, their payload's length in the
-- header and a payload within the limit are sent one after the other, and their bytes arrive in
-- pieces that are cut anywhere. With an empty buffer before, the handler delivers each message once
-- and in order, with its checksum filled in, and its buffer is empty again.
pub receive_all-frames :
    (ms : List NetworkMessage) (cs : List Bytes)
    → All IsMessage ms
    → join cs ≡ frames ms
    → receive_all [] cs ≡ some (map received ms, [])
receive_all-frames ms cs v e = receive_progress [] cs ms v (round-nil [] refl) e

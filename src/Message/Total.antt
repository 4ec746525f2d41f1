-- ===== src/Message/Total.antt =====
-- The end of the receive loop of `MessageHandler::ProcessReceivedData`.
use usb_lib.Prelude.{
  ℕ, zero, suc, ◌+◌, ◌≤◌, ◌<◌, ◌≡◌, refl, ◌⊎◌, inl, inr, List, [], ◌++◌, Option, some, length, drop,
  arith, length-drop, Option-cases,
}
use usb_lib.Words.{Bytes}
use usb_lib.Search.{search_from, search_from_found}
use usb_lib.Message.{
  MessageHeader, NetworkMessage, Round, leave, again, header_to_host, load_message_header,
  round_after, round, resync, process_loop, process_received_data, deliver, magic_pattern,
}

-- The search drops the first byte at least.
resync_shrinks : (buf : Bytes) → 20 ≤ length buf → length (resync buf) < length buf
unfolding resync
resync_shrinks buf h = elim (Option-cases (search_from magic_pattern (drop 1 buf))) [
  | inl e ↦ rw (e, resync) (omega arith)
  | inr (found, e) ↦
      rw (e, resync)
        (omega (arith, search_from_found magic_pattern (drop 1 buf) found e, length-drop 1 buf))
]

round_after_shrinks :
    (h : MessageHeader) (buf : Bytes) (m : Option NetworkMessage) (rest : Bytes)
    → 20 ≤ length buf
    → round_after h buf ≡ again m rest
    → length rest < length buf
unfolding round_after
round_after_shrinks h buf m rest enough e =
    ground (arith, resync_shrinks buf, length-drop 20 buf, length-drop (20 + h.length) buf)

-- Every round that goes on shortens the receive buffer.
pub round_shrinks :
    (buf : Bytes) (m : Option NetworkMessage) (rest : Bytes)
    → round buf ≡ again m rest
    → length rest < length buf
unfolding round
round_shrinks buf m rest e =
    ground (arith, round_after_shrinks (header_to_host (load_message_header buf)) buf m rest)

pub Round-cases :
    (r : Round) → (r ≡ leave) ⊎ ((m : Option NetworkMessage) × (rest : Bytes) × (r ≡ again m rest))
Round-cases leave = inl refl
Round-cases (again m rest) = inr (m, rest, refl)

record Ended (fuel : ℕ) (buf : Bytes) : Type 0 where
  ms : List NetworkMessage
  rest : Bytes
  runs : process_loop fuel buf ≡ some (ms, rest)
  waits : round rest ≡ leave
  shorter : length rest ≤ length buf

process_loop_ends : (fuel : ℕ) (buf : Bytes) → length buf < fuel → Ended fuel buf
unfolding process_loop
process_loop_ends zero buf h = absurd (omega arith)
process_loop_ends (suc fuel) buf h = go (Round-cases (round buf)) (process_loop_ends fuel)
  where
    go :
        (round buf ≡ leave)
          ⊎ ((m : Option NetworkMessage) × (rest : Bytes) × (round buf ≡ again m rest))
        → ((b : Bytes) → length b < fuel → Ended fuel b)
        → Ended (suc fuel) buf
    go (inl e) rec = record {
      ms = [];
      rest = buf;
      runs = rw (e, process_loop);
      waits = e;
      shorter = omega arith;
    }
    go (inr (m, rest, e)) rec =
        let smaller = round_shrinks buf m rest e in
        let r = rec rest (omega arith) in
        record {
          ms = deliver m r.ms;
          rest = r.rest;
          runs = rw (e, process_loop) (rw (r.runs) refl);
          waits = r.waits;
          shorter = omega (arith, r.shorter);
        }

-- On every buffer and every piece of data the loop ends; what it leaves in the buffer holds no whole
-- message and is no longer than what came in.
pub process_received_data-total :
    (buf bytes : Bytes)
    → (ms : List NetworkMessage) × (rest : Bytes) × (process_received_data buf bytes
        ≡ some (ms, rest))
      × (round rest ≡ leave)
      × (length rest ≤ length (buf ++ bytes))
unfolding process_received_data
process_received_data-total buf bytes =
    let r = process_loop_ends (suc (length (buf ++ bytes))) (buf ++ bytes) (omega arith) in
    (r.ms, r.rest, r.runs, r.waits, r.shorter)

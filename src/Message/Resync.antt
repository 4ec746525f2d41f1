-- ===== src/Message/Resync.antt =====
-- `MessageHandler::ProcessReceivedData` after bytes that are no frame. `std::search` looks for the magic
-- number as it stands in the host's memory, and the frames carry it in network order.
use usb_lib.Prelude.{
  ℕ, zero, suc, ◌≤◌, ◌<◌, ◌≡◌, ◌≢◌, ◌⊎◌, inl, inr, [], ◌∷◌, ◌++◌, none, some, length, drop, arith,
  Option-cases, true, Bool-cases, ltb, ltb→le, ltb→lt,
}
use usb_lib.Words.{Bytes, load32, ntohl, image32}
use usb_lib.Search.{begins_with, search_from, search_from_found}
use usb_lib.Message.{
  leave, again, round_after, round, resync, process_loop, process_received_data, message_magic,
  magic_pattern, header_to_host, load_message_header,
}
use usb_lib.Message.Frame.{front_header}
use usb_lib.Message.Total.{round_shrinks}

-- The receive buffer does not stand at the start of a frame.
abbrev pub IsAstray : Bytes → Type 0
IsAstray buf = (20 ≤ length buf) × ((front_header buf).magic ≢ message_magic)

-- Where the pattern stands, the header reads another magic number.
pattern_is_no_magic :
    (bs : Bytes)
    → begins_with magic_pattern bs ≡ true
    → 20 ≤ length bs
    → (front_header bs).magic ≢ message_magic
unfolding front_header begins_with load_message_header header_to_host load32 ntohl image32
pattern_is_no_magic [] e h = absurd (omega arith)
pattern_is_no_magic (a ∷ []) e h = absurd (omega arith)
pattern_is_no_magic (a ∷ b ∷ []) e h = absurd (omega arith)
pattern_is_no_magic (a ∷ b ∷ c ∷ []) e h = absurd (omega arith)
pattern_is_no_magic (a ∷ b ∷ c ∷ d ∷ bs) e h = ground arith

resync-IsAstray : (buf : Bytes) → (length (resync buf) < 20) ⊎ IsAstray (resync buf)
unfolding resync
resync-IsAstray buf = elim (Option-cases (search_from magic_pattern (drop 1 buf))) [
  | inl e ↦ rw (e, resync) (inl (omega arith))
  | inr (found, e) ↦
      rw (e, resync)
        (elim (Bool-cases (ltb (length found) 20)) [
          | inl short ↦ inl (ltb→lt (length found) 20 short)
          | inr long ↦ inr (
            ltb→le (length found) 20 long,
            pattern_is_no_magic found (search_from_found magic_pattern (drop 1 buf) found e).0
                (ltb→le (length found) 20 long),
          )
        ])
]

round_astray : (buf : Bytes) → IsAstray buf → round buf ≡ again none (resync buf)
unfolding round round_after front_header
round_astray buf (enough, wrong) = ground arith

round_short : (buf : Bytes) → length buf < 20 → round buf ≡ leave
unfolding round
round_short buf h = ground arith

-- Nothing is delivered any more, and the buffer is emptied down to less than a header.
Lost : ℕ → Bytes → Type 0
Lost fuel buf = (rest : Bytes) × (process_loop fuel buf ≡ some ([], rest)) × (length rest < 20)

loop-Lost :
    (fuel : ℕ) (buf : Bytes) → length buf < fuel → (length buf < 20) ⊎ IsAstray buf → Lost fuel buf
unfolding Lost process_loop
loop-Lost zero buf h s = absurd (omega arith)
loop-Lost (suc fuel) buf h (inl short) = (buf, rw (round_short buf short, process_loop), short)
loop-Lost (suc fuel) buf h (inr astray) =
    let e = round_astray buf astray in
    let (rest, run, short) =
      loop-Lost fuel (resync buf) (omega (arith, round_shrinks buf none (resync buf) e))
        (resync-IsAstray buf) in
    (rest, rw (e, process_loop) (rw run), short)

-- Once the buffer with the new data is at least a header long and does not begin with the magic
-- number, no message is delivered, whatever frames follow in that data, and fewer bytes than a
-- header are kept.
pub process_received_data-astray :
    (buf bytes : Bytes)
    → 20 ≤ length (buf ++ bytes)
    → (front_header (buf ++ bytes)).magic ≢ message_magic
    → (rest : Bytes) × (process_received_data buf bytes ≡ some ([], rest)) × (length rest < 20)
unfolding process_received_data Lost
process_received_data-astray buf bytes enough wrong =
    loop-Lost (suc (length (buf ++ bytes))) (buf ++ bytes) (omega arith) (inr (enough, wrong))

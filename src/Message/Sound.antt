-- ===== src/Message/Sound.antt =====
-- What the handler delivers, whatever bytes arrive.
use usb_lib.Prelude.{
  ℕ, zero, suc, ◌+◌, ◌≤◌, ◌≡◌, inl, inr, List, [], ◌++◌, Option, none, some, length, drop, take,
  arith, length-drop, length-take, All, Bool-cases, Option-cases, true, take_self, le→ltb, subst,
  if◌then◌else◌, ◌==◌, ltb,
}
use usb_lib.Words.{Bytes}
use usb_lib.Message.{
  MessageHeader, NetworkMessage, again, round_after, round, process_loop, validate_message,
  process_complete_message, process_received_data, deliver, message_magic, max_message_size,
  calculate_checksum, checksum_from, header_to_host, load_message_header,
}
use usb_lib.Message.Total.{Round-cases}

-- A message that is what its header says.
pub record IsSound (m : NetworkMessage) : Type 0 where
  pub magic_right : m.header.magic ≡ message_magic
  pub within_limit : m.header.length ≤ max_message_size
  pub length_right : length m.payload ≡ m.header.length
  pub checksum_right : calculate_checksum m.payload (length m.payload) ≡ m.header.checksum

abbrev IsSoundOption : Option NetworkMessage → Type 0
IsSoundOption none = Unit {0}
IsSoundOption (some m) = IsSound m

-- The payload that is cut out has the announced length and the checksum that was verified.
payload_sound :
    (h : MessageHeader) (d : Bytes)
    → h.length ≤ length d
    → validate_message h d ≡ true
    → let p = if ltb 0 h.length then take h.length d else [] in
      (length p ≡ h.length) × (calculate_checksum p (length p) ≡ h.checksum)
unfolding validate_message calculate_checksum
payload_sound h d enough valid = elim (Bool-cases (h.length == 0)) [
  | inl e ↦ let z : h.length ≡ 0 = ground arith in unfold checksum_from in ground arith
  | inr e ↦ ground (arith, length-take h.length d, take_self (take h.length d))
]

complete-IsSound :
    (buf : Bytes) (m : NetworkMessage)
    → let h = header_to_host (load_message_header buf) in
      h.magic ≡ message_magic
      → h.length ≤ max_message_size
      → 20 + h.length ≤ length buf
      → validate_message h (drop 20 buf) ≡ true
      → process_complete_message buf (20 + h.length) ≡ some m
      → IsSound m
unfolding process_complete_message
complete-IsSound buf m magic limit enough valid done =
    let h = header_to_host (load_message_header buf) in
    let (len, sum) = payload_sound h (drop 20 buf) (omega (arith, length-drop 20 buf)) valid in
    let out : NetworkMessage = record {
      header = h;
      payload = if ltb 0 h.length then take h.length (drop 20 buf) else [];
    } in
    let value : process_complete_message buf (20 + h.length) ≡ some out =
      rw (le→ltb (20 + h.length) 20 (omega arith)) in
    let e : out ≡ m = cc (value, done) in
    subst IsSound e (record {
      magic_right = magic;
      within_limit = limit;
      length_right = len;
      checksum_right = sum;
    })

round_sound :
    (buf : Bytes) (o : Option NetworkMessage) (rest : Bytes)
    → round buf ≡ again o rest
    → IsSoundOption o
unfolding round round_after
round_sound buf none rest e = tt
round_sound buf (some m) rest e =
    complete-IsSound buf m (ground arith) (ground arith) (ground arith) (ground arith)
      (ground arith)

deliver-IsSound :
    (o : Option NetworkMessage) (ms : List NetworkMessage)
    → IsSoundOption o
    → All IsSound ms
    → All IsSound (deliver o ms)
deliver-IsSound none ms h hs = hs
deliver-IsSound (some m) ms h hs = (h, hs)

loop_step :
    (fuel : ℕ) (buf rest last : Bytes) (o : Option NetworkMessage) (ms : List NetworkMessage)
    → round buf ≡ again o rest
    → process_loop (suc fuel) buf ≡ some (ms, last)
    → (more : List NetworkMessage) × (process_loop fuel rest ≡ some (more, last))
      × (ms ≡ deliver o more)
unfolding process_loop
loop_step fuel buf rest last o ms e run = elim (Option-cases (process_loop fuel rest)) [
  | inl p ↦ absurd (ground arith)
  | inr ((more, l), p) ↦ (more, ground arith, ground arith)
]

process_loop-IsSound :
    (fuel : ℕ) (buf last : Bytes) (ms : List NetworkMessage)
    → process_loop fuel buf ≡ some (ms, last)
    → All IsSound ms
process_loop-IsSound zero buf last ms run = unfold process_loop in cc
process_loop-IsSound (suc fuel) buf last ms run = elim (Round-cases (round buf)) [
  | inl e ↦ unfold process_loop in subst (All IsSound) {x = []} (ground arith) tt
  | inr (o, rest, e) ↦
      let (more, r, d) = loop_step fuel buf rest last o ms e run in
      rw d (
        deliver-IsSound o more (round_sound buf o rest e)
          (process_loop-IsSound fuel rest last more r))
]

-- Every message that the callback gets has the magic number, a length within the limit, a payload of
-- that length and the payload's checksum, whatever bytes came in.
pub process_received_data-IsSound :
    (buf bytes last : Bytes) (ms : List NetworkMessage)
    → process_received_data buf bytes ≡ some (ms, last)
    → All IsSound ms
unfolding process_received_data
process_received_data-IsSound buf bytes last ms run =
    process_loop-IsSound _ (buf ++ bytes) last ms run

-- ===== src/Message/Frame.antt =====
-- One round of the receive loop on the front of a frame that `SerializeMessage` wrote.
use usb_lib.Prelude.{
  ℕ, zero, suc, ◌+◌, ◌%◌, ◌≤◌, ◌<◌, ◌≡◌, refl, sym, ap, ◌∙◌, inl, inr, [], ◌∷◌, ◌++◌, some, true,
  false, ltb, ◌==◌, length, take, drop, arith, le→ltb, Bool-cases, ==-refl, length-append,
  take_self, take-append_left, drop-append_left, drop-add, ltb→le,
}
use usb_lib.Words.{Bytes, IsU32, image32, load32, ntohl_field}
use usb_lib.Message.{
  MessageHeader, NetworkMessage, message_magic, max_message_size, calculate_checksum, checksum_from,
  header_to_network, header_to_host, image_message_header, load_message_header, serialize_message,
  validate_message, process_complete_message, leave, again, round_after, round,
}

-- What a sender's constructors establish: the magic number, fields that fit, and a payload of the
-- announced length within the limit.
pub record IsMessage (m : NetworkMessage) : Type 0 where
  pub magic_right : m.header.magic ≡ message_magic
  pub type_u32 : IsU32 m.header.type
  pub length_right : m.header.length ≡ length m.payload
  pub within_limit : length m.payload ≤ max_message_size
  pub sequence_u32 : IsU32 m.header.sequence

-- The header that goes over the wire: the checksum is filled in.
unfoldable pub wire_header : NetworkMessage → MessageHeader
wire_header m = record (m.header) { checksum = calculate_checksum m.payload (length m.payload) }

-- The message as the receiver gets it.
unfoldable pub received : NetworkMessage → NetworkMessage
unfolding wire_header
received m = record { header = wire_header m; payload = m.payload }

checksum_from-lt : (acc : ℕ) (bs : Bytes) → IsU32 acc → IsU32 (checksum_from acc bs)
unfolding checksum_from
checksum_from-lt acc [] h = h
checksum_from-lt acc (b ∷ bs) h = checksum_from-lt ((acc + b) % 4294967296) bs (omega arith)

calculate_checksum-lt : (bs : Bytes) (len : ℕ) → IsU32 (calculate_checksum bs len)
unfolding calculate_checksum
calculate_checksum-lt bs len = checksum_from-lt 0 (take len bs) (omega arith)

-- The header that stands at the front of the receive buffer.
unfoldable pub front_header : Bytes → MessageHeader
front_header bs = header_to_host (load_message_header bs)

load32-append : (bs more : Bytes) → 4 ≤ length bs → load32 (bs ++ more) ≡ load32 bs
unfolding load32
load32-append [] more h = absurd (omega arith)
load32-append (a ∷ []) more h = absurd (omega arith)
load32-append (a ∷ b ∷ []) more h = absurd (omega arith)
load32-append (a ∷ b ∷ c ∷ []) more h = absurd (omega arith)
load32-append (a ∷ b ∷ c ∷ d ∷ bs) more h = refl

load32_behind :
    (n : ℕ) (bs more : Bytes)
    → n + 4 ≤ length bs
    → load32 (drop n (bs ++ more)) ≡ load32 (drop n bs)
load32_behind zero bs more h = load32-append bs more (omega arith)
load32_behind (suc n) [] more h = absurd (omega arith)
load32_behind (suc n) (b ∷ bs) more h = load32_behind n bs more (omega arith)

-- Bytes that arrive later do not change a header that is there.
pub front_header-append :
    (bs more : Bytes) → 20 ≤ length bs → front_header (bs ++ more) ≡ front_header bs
unfolding front_header load_message_header
front_header-append bs more h = ap header_to_host (λ i. record {
  magic = load32_behind 0 bs more (omega arith) i;
  type = load32_behind 4 bs more (omega arith) i;
  length = load32_behind 8 bs more (omega arith) i;
  sequence = load32_behind 12 bs more (omega arith) i;
  checksum = load32_behind 16 bs more (omega arith) i;
})

length_zero : (bs : Bytes) → length bs ≡ 0 → bs ≡ []
length_zero [] h = refl
length_zero (b ∷ bs) h = absurd (omega arith)

module _ (m : NetworkMessage) (v : IsMessage m) where
  front_header-serialize :
      (rest : Bytes) → front_header (serialize_message m ++ rest) ≡ wire_header m
  unfolding front_header load_message_header serialize_message image_message_header
      header_to_network header_to_host image32 load32 wire_header
  front_header-serialize rest =
      let magic_u32 : IsU32 m.header.magic = omega (arith, v.magic_right) in
      let length_u32 : IsU32 m.header.length = omega (arith, v.length_right, v.within_limit) in
      λ i. record {
        magic = ntohl_field m.header.magic magic_u32 i;
        type = ntohl_field m.header.type v.type_u32 i;
        length = ntohl_field m.header.length length_u32 i;
        sequence = ntohl_field m.header.sequence v.sequence_u32 i;
        checksum = ntohl_field _ (calculate_checksum-lt m.payload (length m.payload)) i;
      }

  drop-serialize : (rest : Bytes) → drop 20 (serialize_message m ++ rest) ≡ m.payload ++ rest
  unfolding serialize_message image_message_header image32
  drop-serialize rest = refl

  pub length-serialize : length (serialize_message m) ≡ 20 + length m.payload
  unfolding serialize_message image_message_header image32
  length-serialize = omega arith

  whole_payload : (rest : Bytes) → take m.header.length (m.payload ++ rest) ≡ m.payload
  whole_payload rest = take-append_left m.header.length m.payload rest (sym v.length_right)

  behind_payload : (rest : Bytes) → drop m.header.length (m.payload ++ rest) ≡ rest
  behind_payload rest = drop-append_left m.header.length m.payload rest (sym v.length_right)

  no_payload : m.header.length ≡ 0 → m.payload ≡ []
  no_payload e = length_zero m.payload (sym v.length_right ∙ e)

  validate_received : (rest : Bytes) → validate_message (wire_header m) (m.payload ++ rest) ≡ true
  unfolding validate_message wire_header calculate_checksum
  validate_received rest = elim (Bool-cases (m.header.length == 0)) [
    | inl e ↦ rw (e, no_payload (ground arith)) (unfold checksum_from in refl)
    | inr e ↦ rw (e, whole_payload rest, take_self m.payload) (==-refl _)
  ]

  process_received :
      (rest : Bytes)
      → process_complete_message (serialize_message m ++ rest) (20 + m.header.length)
        ≡ some (received m)
  unfolding process_complete_message received front_header wire_header
  process_received rest =
      ground
        (arith, front_header-serialize rest, drop-serialize rest, whole_payload rest, no_payload)

  length-frame :
      (rest : Bytes) → length (serialize_message m ++ rest) ≡ 20 + m.header.length + length rest
  length-frame rest =
      omega (arith, length-append (serialize_message m) rest, length-serialize, v.length_right)

  behind_frame : (rest : Bytes) → drop (20 + m.header.length) (serialize_message m ++ rest) ≡ rest
  behind_frame rest =
      drop-add 20 m.header.length (serialize_message m ++ rest)
      ∙ ap (drop m.header.length) (drop-serialize rest)
      ∙ behind_payload rest

  round_after-serialize :
      (rest : Bytes)
      → round_after (wire_header m) (serialize_message m ++ rest) ≡ again (some (received m)) rest
  unfolding round_after wire_header
  round_after-serialize rest = ground (
    arith,
    v.magic_right,
    v.length_right,
    v.within_limit,
    length-frame rest,
    behind_frame rest,
    validate_received rest,
    process_received rest,
    drop-serialize rest,
  )

  -- A whole frame at the front is delivered and removed.
  pub round-serialize :
      (rest : Bytes) → round (serialize_message m ++ rest) ≡ again (some (received m)) rest
  unfolding round front_header
  round-serialize rest =
      rw (le→ltb (length (serialize_message m ++ rest)) 20 (omega (arith, length-frame rest)))
        (rw (front_header-serialize rest) (round_after-serialize rest))

  round_after-partial :
      (front : Bytes)
      → length front < length (serialize_message m)
      → round_after (wire_header m) front ≡ leave
  unfolding round_after wire_header
  round_after-partial front short =
      ground (arith, v.magic_right, v.length_right, v.within_limit, length-serialize)

  -- Part of a frame waits for the rest.
  pub round-partial :
      (front back rest : Bytes)
      → front ++ back ≡ serialize_message m ++ rest
      → length front < length (serialize_message m)
      → round front ≡ leave
  unfolding round front_header
  round-partial front back rest e short = elim (Bool-cases (ltb (length front) 20)) [
    | inl little ↦ rw little
    | inr enough ↦ rw enough (rw (header enough) (round_after-partial front short))
  ]
    where
      header : ltb (length front) 20 ≡ false → front_header front ≡ wire_header m
      header enough =
          sym (front_header-append front back (ltb→le (length front) 20 enough))
          ∙ ap front_header e
          ∙ front_header-serialize rest

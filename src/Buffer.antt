-- ===== src/Buffer.antt =====
-- common/utils/buffer.h and buffer.cpp: the class Buffer, which is its vector of bytes.
pub mod Finding
pub mod Hex
use usb_lib.Prelude.{
  ℕ, zero, suc, ◌+◌, ◌-◌, ◌/◌, ◌%◌, List, [], ◌∷◌, ◌++◌, Bool, true, false, ◌&&◌, ◌||◌, Option,
  none, some, ◌==◌, ltb, leb, if◌then◌else◌, length, take, drop, replicate, min,
}
use usb_lib.Words.{Bytes}
use usb_lib.Search.{begins_with}

-- The new bytes of a longer vector are 0.
unfoldable pub resize : Bytes → ℕ → Bytes
resize bytes size = take size bytes ++ replicate (size - length bytes) 0

unfoldable pub append : Bytes → Bytes → Bytes
append bytes more = bytes ++ more

unfoldable pub prepend : Bytes → Bytes → Bytes
prepend bytes more = more ++ bytes

unfoldable pub extract : Bytes → ℕ → ℕ → Bytes
extract bytes offset size =
    if leb (length bytes) offset
    then []
    else take (min size (length bytes - offset)) (drop offset bytes)

unfoldable pub sub_buffer : Bytes → ℕ → ℕ → Bytes
unfolding extract
sub_buffer bytes offset size = extract bytes offset size

-- `std::search` from the position `i` on, where `bytes` begin; `none` for the end.
unfoldable pub find_from : Bytes → Bytes → ℕ → Option ℕ
find_from pattern [] i = none
find_from pattern (b ∷ bs) i =
    let rest = find_from pattern bs (suc i) in if begins_with pattern (b ∷ bs) then some i else rest

-- `none` for `npos`.
unfoldable pub find : Bytes → Bytes → ℕ → Option ℕ
unfolding find_from
find bytes pattern start =
    if length pattern == 0 || leb (length bytes) start
    then none
    else find_from pattern (drop start bytes) start

-- A hexadecimal digit as the stream writes it.
unfoldable pub hex_digit : ℕ → ℕ
hex_digit n = if ltb n 10 then 48 + n else 87 + n

-- `setw(2)` with `setfill('0')` for a byte.
unfoldable pub hex_byte : ℕ → Bytes
unfolding hex_digit
hex_byte b = hex_digit (b / 16) ∷ hex_digit (b % 16) ∷ []

-- The loop, behind the first byte.
unfoldable pub hex_more : Bytes → Bytes
unfolding hex_byte
hex_more [] = []
hex_more (b ∷ bs) = 32 ∷ (hex_byte b ++ hex_more bs)

unfoldable pub to_hex_string : Bytes → Bytes
unfolding hex_more
to_hex_string [] = []
to_hex_string (b ∷ bs) = hex_byte b ++ hex_more bs

-- ===== src/Buffer/Hex.antt =====
-- `ToHexString` of Buffer, read back.
use usb_lib.Prelude.{
  ℕ, ◌+◌, ◌-◌, ◌*◌, ◌/◌, ◌%◌, ◌<◌, ◌≡◌, refl, ap, ap₂, [], ◌∷◌, ltb, if◌then◌else◌, arith, All,
  length,
}
use usb_lib.Words.{Bytes, IsU8}
use usb_lib.Buffer.{hex_digit, hex_byte, hex_more, to_hex_string}

-- The value of a lower-case hexadecimal digit.
unfoldable pub digit_value : ℕ → ℕ
digit_value c = if ltb c 58 then c - 48 else c - 87

-- Two digits and the space behind them, if there is one, give a byte.
unfoldable pub from_hex : Bytes → Bytes
unfolding digit_value
from_hex [] = []
from_hex (h ∷ []) = []
from_hex (h ∷ l ∷ []) = (digit_value h * 16 + digit_value l) ∷ []
from_hex (h ∷ l ∷ space ∷ rest) = (digit_value h * 16 + digit_value l) ∷ from_hex rest

digit_value-hex_digit : (n : ℕ) → n < 16 → digit_value (hex_digit n) ≡ n
unfolding digit_value hex_digit
digit_value-hex_digit n h = ground arith

byte_back :
    (b : ℕ) → IsU8 b → digit_value (hex_digit (b / 16)) * 16 + digit_value (hex_digit (b % 16)) ≡ b
byte_back b h =
    rw (digit_value-hex_digit (b / 16) (omega arith), digit_value-hex_digit (b % 16) (omega arith))
      (omega arith)

from_hex-to_hex : (bs : Bytes) → All IsU8 bs → from_hex (to_hex_string bs) ≡ bs
unfolding from_hex to_hex_string hex_more hex_byte
from_hex-to_hex [] v = refl
from_hex-to_hex (b ∷ []) (h, _) = ap (λ (n : ℕ). n ∷ []) (byte_back b h)
from_hex-to_hex (b ∷ c ∷ bs) (h, v) = ap₂ ◌∷◌ (byte_back b h) (from_hex-to_hex (c ∷ bs) v)

length-hex_more : (bs : Bytes) → length (hex_more bs) ≡ 3 * length bs
unfolding hex_more hex_byte
length-hex_more [] = refl
length-hex_more (b ∷ bs) = omega (arith, length-hex_more bs)

length-hex : (bs : Bytes) → length (to_hex_string bs) ≡ 3 * length bs - 1
unfolding to_hex_string hex_byte
length-hex [] = refl
length-hex (b ∷ bs) = omega (arith, length-hex_more bs)

-- For bytes below 256, the text of `ToHexString` has three characters for every byte but the last,
-- which has two, and from its pairs of digits the bytes can be read back.
pub from_hex-to_hex_string :
    (bs : Bytes)
    → All IsU8 bs
    → (from_hex (to_hex_string bs) ≡ bs) × (length (to_hex_string bs) ≡ 3 * length bs - 1)
from_hex-to_hex_string bs v = (from_hex-to_hex bs v, length-hex bs)

-- ===== src/Words.antt =====
-- Bytes and machine words: the memory image of an integer on a little-endian host, `htonl`, `htons`
-- and their inverses, `std::memcpy` into a field, and the C++ integer conversions.
use usb_lib.Prelude.{
  ℕ, ◌+◌, ◌*◌, ◌/◌, ◌%◌, ◌<◌, ◌≡◌, List, [], ◌∷◌, ◌++◌, arith, length, drop, append-nil, Bool, ltb,
  ◌&&◌,
}

abbrev pub Bytes : Type 0
Bytes = List ℕ

abbrev pub IsU8 : ℕ → Type 0
IsU8 b = b < 256

abbrev pub IsU16 : ℕ → Type 0
IsU16 w = w < 65536

abbrev pub IsU32 : ℕ → Type 0
IsU32 w = w < 4294967296

abbrev pub IsU64 : ℕ → Type 0
IsU64 w = w < 18446744073709551616

-- The bytes of a uint16_t and of a uint32_t in memory.
unfoldable pub image16 : ℕ → Bytes
image16 w = w % 256 ∷ w / 256 % 256 ∷ []

unfoldable pub image32 : ℕ → Bytes
image32 w = w % 256 ∷ w / 256 % 256 ∷ w / 65536 % 256 ∷ w / 16777216 % 256 ∷ []

unfoldable pub image64 : ℕ → Bytes
unfolding image32
image64 w = image32 (w % 4294967296) ++ image32 (w / 4294967296)

-- The integer that stands in memory at the front of the bytes.
unfoldable pub load16 : Bytes → ℕ
load16 (a ∷ b ∷ _) = a + 256 * b
load16 _ = 0

unfoldable pub load32 : Bytes → ℕ
load32 (a ∷ b ∷ c ∷ d ∷ _) = a + 256 * b + 65536 * c + 16777216 * d
load32 _ = 0

unfoldable pub load64 : Bytes → ℕ
unfolding load32
load64 bs = load32 bs + 4294967296 * load32 (drop 4 bs)

-- The host and the network differ in their byte order, so that each conversion swaps the bytes.
unfoldable pub htons : ℕ → ℕ
htons w = w / 256 % 256 + 256 * (w % 256)

unfoldable pub htonl : ℕ → ℕ
htonl w =
    w / 16777216 % 256 + 256 * (w / 65536 % 256) + 65536 * (w / 256 % 256) + 16777216 * (w % 256)

unfoldable pub ntohs : ℕ → ℕ
unfolding htons
ntohs w = htons w

unfoldable pub ntohl : ℕ → ℕ
unfolding htonl
ntohl w = htonl w

-- `x > 0` for an int32_t given by its bit pattern.
abbrev pub is_positive32 : ℕ → Bool
is_positive32 w = ltb 0 w && ltb w 2147483648

pub load16-image16 : (w : ℕ) (rest : Bytes) → IsU16 w → load16 (image16 w ++ rest) ≡ w
unfolding load16 image16
load16-image16 w rest h = omega arith

pub load32-image32 : (w : ℕ) (rest : Bytes) → IsU32 w → load32 (image32 w ++ rest) ≡ w
unfolding load32 image32
load32-image32 w rest h = omega arith

pub load64-image64 : (w : ℕ) (rest : Bytes) → IsU64 w → load64 (image64 w ++ rest) ≡ w
unfolding load64 image64
load64-image64 w rest h = omega arith

pub htonl-lt : (w : ℕ) → IsU32 (htonl w)
unfolding htonl
htonl-lt w = omega arith

pub htons-lt : (w : ℕ) → IsU16 (htons w)
unfolding htons
htons-lt w = omega arith

pub ntohl-htonl : (w : ℕ) → IsU32 w → ntohl (htonl w) ≡ w
unfolding ntohl
ntohl-htonl w h = omega arith

pub ntohs-htons : (w : ℕ) → IsU16 w → ntohs (htons w) ≡ w
unfolding ntohs
ntohs-htons w h = omega arith

-- A field that crosses the network, whatever stands behind it.
pub ntohl_field : (w : ℕ) → IsU32 w → ntohl (load32 (image32 (htonl w))) ≡ w
ntohl_field w h =
    rw (← append-nil (image32 (htonl w)))
      (rw (load32-image32 (htonl w) [] (htonl-lt w)) (ntohl-htonl w h))

pub ntohs_field : (w : ℕ) → IsU16 w → ntohs (load16 (image16 (htons w))) ≡ w
ntohs_field w h =
    rw (← append-nil (image16 (htons w)))
      (rw (load16-image16 (htons w) [] (htons-lt w)) (ntohs-htons w h))

-- The lengths of the images.
pub length-image32 : (w : ℕ) (rest : Bytes) → length (image32 w ++ rest) ≡ length rest + 4
unfolding image32
length-image32 w rest = omega arith

pub length-image16 : (w : ℕ) (rest : Bytes) → length (image16 w ++ rest) ≡ length rest + 2
unfolding image16
length-image16 w rest = omega arith

-- ===== src/Text.antt =====
-- Texts as bytes: literals, `std::to_string` of a number, and the text in a char array.
pub mod Decimal
use Prim.Native.Char.{code}
use Prim.Native.String.{String}
use usb_lib.Prelude.{ℕ, zero, suc, ◌+◌, ◌/◌, ◌%◌, [], ◌∷◌, ltb, ◌==◌, if◌then◌else◌}
use usb_lib.Words.{Bytes}

-- The code points of a literal: its bytes, as all literals of the program's logic are ASCII.
abbrev pub codes : String → Bytes
codes String.[] = []
codes (String.◌∷◌ c s) = code c ∷ codes s

-- The decimal digits of `n` in front of `acc`; a number has no more digits than it has units and one.
unfoldable pub decimal_loop : ℕ → ℕ → Bytes → Bytes
decimal_loop zero n acc = acc
decimal_loop (suc fuel) n acc =
    let digits = (48 + n % 10) ∷ acc in
    let more = decimal_loop fuel (n / 10) digits in if ltb n 10 then digits else more

unfoldable pub to_string : ℕ → Bytes
unfolding decimal_loop
to_string n = decimal_loop (suc n) n []

-- The text that a char array holds: the bytes before the first NUL.
unfoldable pub c_text : Bytes → Bytes
c_text [] = []
c_text (b ∷ bs) = if b == 0 then [] else b ∷ c_text bs

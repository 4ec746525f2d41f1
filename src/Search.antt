-- ===== src/Search.antt =====
-- `std::search` over bytes, as the message handler and the buffer call it.
use usb_lib.Prelude.{
  ◌≤◌, ◌≡◌, Bool, true, false, ◌&&◌, [], ◌∷◌, Option, none, some, arith, ◌==◌, if◌then◌else◌,
  length,
}
use usb_lib.Words.{Bytes}

-- Whether the bytes begin with the pattern.
unfoldable pub begins_with : Bytes → Bytes → Bool
begins_with [] bs = true
begins_with (p ∷ ps) [] = false
begins_with (p ∷ ps) (b ∷ bs) = p == b && begins_with ps bs

-- The first position at which the pattern stands, given as the bytes from there on; `none` is `end()`.
unfoldable pub search_from : Bytes → Bytes → Option Bytes
unfolding begins_with
search_from pat [] = if begins_with pat [] then some [] else none
search_from pat (b ∷ bs) = if begins_with pat (b ∷ bs) then some (b ∷ bs) else search_from pat bs

-- What is found is no longer than what was searched, and begins with the pattern.
pub search_from_found :
    (pat bs found : Bytes)
    → search_from pat bs ≡ some found
    → (begins_with pat found ≡ true) × (length found ≤ length bs)
unfolding search_from
search_from_found pat [] found e = ground arith
search_from_found pat (b ∷ bs) found e = ground (arith, search_from_found pat bs found)

-- ===== src/Virtual/Descriptors.antt =====
-- What the host reads back from the virtual device's descriptors.
use usb_lib.Prelude.{
  ℕ, ◌*◌, ◌≤◌, ◌≡◌, ◌≢◌, refl, ap, [], ◌∷◌, some, length, drop, get_or, get_elem?, arith,
}
use usb_lib.Words.{Bytes}
use usb_lib.Usb.{desc_string}
use usb_lib.Virtual.{VirtualDevice}
use usb_lib.Virtual.Urb.{widen, get_descriptor}

-- Every second byte: the text that a host reads from the characters of a string descriptor.
unfoldable pub narrow : Bytes → Bytes
narrow [] = []
narrow (c ∷ []) = c ∷ []
narrow (c ∷ z ∷ rest) = c ∷ narrow rest

narrow-widen : (text : Bytes) → narrow (widen text) ≡ text
unfolding narrow widen
narrow-widen [] = refl
narrow-widen (c ∷ text) = ap (◌∷◌ c) (narrow-widen text)

length-widen : (text : Bytes) → length (widen text) ≡ length text * 2
unfolding widen
length-widen [] = refl
length-widen (c ∷ text) = omega (arith, length-widen text)

-- For a string of at most 126 characters at an index other than 0, the string descriptor announces
-- its own length, has the type of a string, and its characters are the string.
pub get_string_descriptor-text :
    (d : VirtualDevice) (index : ℕ) (text : Bytes)
    → index ≢ 0
    → get_elem? d.string_descriptors index ≡ some text
    → length text ≤ 126
    → let r = get_descriptor d desc_string index in
      (get_or r 0 0 ≡ length r) × (get_or r 1 0 ≡ desc_string) × (narrow (drop 2 r) ≡ text)
unfolding get_descriptor
get_string_descriptor-text d index text other e short =
    ground (arith, narrow-widen text, length-widen text)

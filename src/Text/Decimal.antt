-- ===== src/Text/Decimal.antt =====
-- The decimal digits of `to_string`, read back.
use usb_lib.Prelude.{
  ℕ, zero, suc, ◌+◌, ◌-◌, ◌*◌, ◌/◌, ◌%◌, ◌≤◌, ◌<◌, ◌≡◌, refl, sym, ap, ◌∙◌, [], ◌∷◌, ◌++◌,
  Bool-cases, ltb, ◌==◌, if◌then◌else◌, arith, All, inl, inr,
}
use usb_lib.Words.{Bytes}
use usb_lib.Text.{to_string, decimal_loop}

-- The number that the digits `text` make behind the number `acc`.
unfoldable pub decimal_value : ℕ → Bytes → ℕ
decimal_value acc [] = acc
decimal_value acc (c ∷ text) = decimal_value (acc * 10 + (c - 48)) text

decimal_value-decimal_loop :
    (fuel n : ℕ) (acc : Bytes)
    → n < fuel
    → decimal_value 0 (decimal_loop fuel n acc) ≡ decimal_value n acc
unfolding decimal_value decimal_loop
decimal_value-decimal_loop zero n acc h = absurd (omega arith)
decimal_value-decimal_loop (suc fuel) n acc h = elim (Bool-cases (ltb n 10)) [
  | inl small ↦ rw small (ap (λ (k : ℕ). decimal_value k acc) (ground arith))
  | inr large ↦ rw large (
      decimal_value-decimal_loop fuel (n / 10) ((48 + n % 10) ∷ acc) (ground arith)
      ∙ ap (λ (k : ℕ). decimal_value k acc) (ground arith))
]

pub decimal_value-to_string : (n : ℕ) → decimal_value 0 (to_string n) ≡ n
unfolding to_string
decimal_value-to_string n =
    decimal_value-decimal_loop (suc n) n [] (omega arith) ∙ (unfold decimal_value in refl)

abbrev pub IsDigit : ℕ → Type 0
IsDigit c = (48 ≤ c) × (c ≤ 57)

decimal_loop-IsDigit :
    (fuel n : ℕ) (acc : Bytes) → All IsDigit acc → All IsDigit (decimal_loop fuel n acc)
unfolding decimal_loop
decimal_loop-IsDigit zero n acc v = v
decimal_loop-IsDigit (suc fuel) n acc v = elim (Bool-cases (ltb n 10)) [
  | inl small ↦ rw small ((omega arith, omega arith), v)
  | inr large ↦
      rw large
        (decimal_loop-IsDigit fuel (n / 10) ((48 + n % 10) ∷ acc) ((omega arith, omega arith), v))
]

pub to_string-IsDigit : (n : ℕ) → All IsDigit (to_string n)
unfolding to_string
to_string-IsDigit n = decimal_loop-IsDigit (suc n) n [] tt

-- Equal texts of two numbers on both sides of a separator: the parts in front of it are equal.
unfoldable pub up_to : ℕ → Bytes → Bytes
up_to c [] = []
up_to c (b ∷ bs) = let rest = up_to c bs in if b == c then [] else b ∷ rest

unfoldable pub behind : ℕ → Bytes → Bytes
behind c [] = []
behind c (b ∷ bs) = let rest = behind c bs in if b == c then bs else rest

module _ (c : ℕ) (low : c < 48) (rest : Bytes) where
  pub up_to-digits : (ds : Bytes) → All IsDigit ds → up_to c (ds ++ (c ∷ rest)) ≡ ds
  unfolding up_to
  up_to-digits [] v = ground arith
  up_to-digits (d ∷ ds) ((lo, hi), v) = ground (arith, up_to-digits ds v)

  pub behind-digits : (ds : Bytes) → All IsDigit ds → behind c (ds ++ (c ∷ rest)) ≡ rest
  unfolding behind
  behind-digits [] v = ground arith
  behind-digits (d ∷ ds) ((lo, hi), v) = ground (arith, behind-digits ds v)

-- Two pairs of digit texts joined by a separator that is no digit are equal only part by part.
pub digits-join :
    (c : ℕ) (xs xs' ys ys' : Bytes)
    → c < 48
    → All IsDigit xs
    → All IsDigit xs'
    → xs ++ (c ∷ ys) ≡ xs' ++ (c ∷ ys')
    → (xs ≡ xs') × (ys ≡ ys')
digits-join c xs xs' ys ys' low v v' e = (
  sym (up_to-digits c low ys xs v) ∙ ap (up_to c) e ∙ up_to-digits c low ys' xs' v',
  sym (behind-digits c low ys xs v) ∙ ap (behind c) e ∙ behind-digits c low ys' xs' v',
)

-- ===== src/Buffer/Finding.antt =====
-- `Find` and `Extract` of Buffer, against positions in the bytes.
use usb_lib.Prelude.{
  drop-add, branch, ℕ, zero, suc, ◌+◌, ◌-◌, ◌≤◌, ◌<◌, ◌≡◌, refl, sym, ap, ◌∙◌, inl, inr, [], ◌∷◌,
  ◌++◌, true, ◌||◌, Option, none, some, ◌==◌, leb, length, take, drop, min, arith, Bool-cases,
  length-append, take_self, drop-append_left, take-append_left,
}
use usb_lib.Words.{Bytes}
use usb_lib.Search.{begins_with}
use usb_lib.Buffer.{append, prepend, extract, find_from, find}

-- The pattern stands in the bytes at the position `i`.
abbrev pub StandsAt : Bytes → Bytes → ℕ → Type 0
StandsAt pattern bytes i = take (length pattern) (drop i bytes) ≡ pattern

begins_with→prefix : (ps bs : Bytes) → begins_with ps bs ≡ true → take (length ps) bs ≡ ps
unfolding begins_with
begins_with→prefix [] bs e = refl
begins_with→prefix (p ∷ ps) [] e = absurd cc
begins_with→prefix (p ∷ ps) (b ∷ bs) e = ground (arith, begins_with→prefix ps bs)

prefix→begins_with : (ps bs : Bytes) → take (length ps) bs ≡ ps → begins_with ps bs ≡ true
unfolding begins_with
prefix→begins_with [] bs e = refl
prefix→begins_with (p ∷ ps) [] e = absurd cc
prefix→begins_with (p ∷ ps) (b ∷ bs) e = ground (arith, prefix→begins_with ps bs)

-- What a search from `start` on comes to: the first position at which the pattern stands, or nothing
-- if it stands nowhere from there on.
pub data FirstAt (bytes pattern : Bytes) (start : ℕ) : Option ℕ → Type 0 where
  nowhere : ((i : ℕ) → start ≤ i → ¬ StandsAt pattern bytes i) → FirstAt bytes pattern start none
  at_first :
      {i : ℕ}
      → start ≤ i
      → StandsAt pattern bytes i
      → ((j : ℕ) → start ≤ j → j < i → ¬ StandsAt pattern bytes j)
      → FirstAt bytes pattern start (some i)

-- A pattern that is not empty does not stand behind the end.
past_end : (p : ℕ) (ps bytes : Bytes) (i : ℕ) → length bytes ≤ i → ¬ StandsAt (p ∷ ps) bytes i
past_end p ps [] zero h e = absurd cc
past_end p ps [] (suc i) h e = absurd cc
past_end p ps (b ∷ bs) zero h e = absurd (omega arith)
past_end p ps (b ∷ bs) (suc i) h e = past_end p ps bs i (omega arith) e

module _ (p : ℕ) (ps : Bytes) where
  -- The same of a search in `bs`, whose first byte has the position `k`.
  data FirstIn (bs : Bytes) (k : ℕ) : Option ℕ → Type 0 where
    nowhere_in : ((i : ℕ) → ¬ StandsAt (p ∷ ps) bs i) → FirstIn bs k none
    first_in :
        {r : ℕ} (n : ℕ)
        → r ≡ k + n
        → StandsAt (p ∷ ps) bs n
        → ((j : ℕ) → j < n → ¬ StandsAt (p ∷ ps) bs j)
        → FirstIn bs k (some r)

  further :
      (b k : ℕ) (bs : Bytes) (o : Option ℕ)
      → ¬ StandsAt (p ∷ ps) (b ∷ bs) 0
      → FirstIn bs (suc k) o
      → FirstIn (b ∷ bs) k o
  further b k bs none other (nowhere_in all) = nowhere_in anywhere
    where
      anywhere : (i : ℕ) → ¬ StandsAt (p ∷ ps) (b ∷ bs) i
      anywhere zero = other
      anywhere (suc i) = all i
  further b k bs (some r) other (first_in n e here before) =
      first_in (suc n) (omega arith) here later
    where
      later : (j : ℕ) → j < suc n → ¬ StandsAt (p ∷ ps) (b ∷ bs) j
      later zero less = other
      later (suc j) less = before j (omega arith)

  find_from-FirstIn : (bs : Bytes) (k : ℕ) → FirstIn bs k (find_from (p ∷ ps) bs k)
  unfolding find_from
  find_from-FirstIn [] k = nowhere_in (λ i. past_end p ps [] i (omega arith))
  find_from-FirstIn (b ∷ bs) k = elim (Bool-cases (begins_with (p ∷ ps) (b ∷ bs))) [
    | inl here ↦ rw here (
        first_in 0 (omega arith) (begins_with→prefix (p ∷ ps) (b ∷ bs) here)
          (λ j less. absurd (omega arith)))
    | inr other ↦ rw other (
        further b k bs (find_from (p ∷ ps) bs (suc k))
          (λ e. let h = prefix→begins_with (p ∷ ps) (b ∷ bs) e in cc)
          (find_from-FirstIn bs (suc k)))
  ]

extract_front : (xs ys : Bytes) → extract (xs ++ ys) 0 (length xs) ≡ xs
unfolding extract
extract_front [] ys =
    branch (λ (r : Bytes). r ≡ []) (leb (length ys) 0) _ _ (λ _. refl)
      (λ _. let e : min 0 (length ys - 0) ≡ 0 = omega arith in rw e refl)
extract_front (x ∷ xs) ys =
    branch (λ (r : Bytes). r ≡ x ∷ xs) (leb (length (x ∷ xs ++ ys)) 0) _ _
      (λ bad. absurd (ground arith))
      (λ _.
        let e : min (length (x ∷ xs)) (length (x ∷ xs ++ ys) - 0) ≡ length (x ∷ xs) =
          omega (arith, length-append xs ys) in
        rw e (take-append_left (length (x ∷ xs)) (x ∷ xs) ys refl))

extract_back : (xs ys : Bytes) → extract (xs ++ ys) (length xs) (length ys) ≡ ys
unfolding extract
extract_back xs ys =
    let size = length-append xs ys in
    branch (λ (r : Bytes). r ≡ ys) (leb (length (xs ++ ys)) (length xs)) _ _
      (λ over. sym (none_left ys (ground (arith, size, over))))
      (λ _.
        let e : min (length ys) (length (xs ++ ys) - length xs) ≡ length ys = omega (arith, size) in
        rw (e, drop-append_left (length xs) xs ys refl) (take_self ys))
  where
    none_left : (zs : Bytes) → length zs ≡ 0 → zs ≡ []
    none_left [] e = refl
    none_left (z ∷ zs) e = absurd (omega arith)

-- `Find` for a pattern that is not empty gives the first position from `start` on at which the pattern
-- stands in the buffer, and `npos` exactly if there is none.
pub find-FirstAt :
    (bytes : Bytes) (p : ℕ) (ps : Bytes) (start : ℕ)
    → FirstAt bytes (p ∷ ps) start (find bytes (p ∷ ps) start)
unfolding find
find-FirstAt bytes p ps start =
    branch (FirstAt bytes (p ∷ ps) start) (length (p ∷ ps) == 0 || leb (length bytes) start) _ _
      (λ over. nowhere (λ i from. past_end p ps bytes i (ground (arith, over, from))))
      (λ _.
        moved (find_from (p ∷ ps) (drop start bytes) start)
          (find_from-FirstIn p ps (drop start bytes) start))
  where
    -- A position from `start` on is a position behind it.
    back :
        (i : ℕ)
        → start ≤ i
        → StandsAt (p ∷ ps) bytes i
        → StandsAt (p ∷ ps) (drop start bytes) (i - start)
    back i from e =
        let split : start + (i - start) ≡ i = omega arith in
        ap (take (suc (length ps)))
          (sym (drop-add start (i - start) bytes) ∙ ap (λ (k : ℕ). drop k bytes) split)
        ∙ e

    forth :
        (n i : ℕ)
        → i ≡ start + n
        → StandsAt (p ∷ ps) (drop start bytes) n
        → StandsAt (p ∷ ps) bytes i
    forth n i at e =
        ap (take (suc (length ps))) (ap (λ (k : ℕ). drop k bytes) at ∙ drop-add start n bytes) ∙ e

    moved :
        (o : Option ℕ) → FirstIn p ps (drop start bytes) start o → FirstAt bytes (p ∷ ps) start o
    moved none (nowhere_in all) = nowhere (λ i from e. all (i - start) (back i from e))
    moved (some r) (first_in n at here before) =
        at_first (omega arith) (forth n r at here)
          (λ j from less e. before (j - start) (omega arith) (back j from e))

-- What was appended, and what was there before, can be extracted again; the same for what was
-- prepended.
pub extract-append :
    (bytes more : Bytes)
    → (extract (append bytes more) 0 (length bytes) ≡ bytes)
      × (extract (append bytes more) (length bytes) (length more) ≡ more)
      × (extract (prepend bytes more) 0 (length more) ≡ more)
      × (extract (prepend bytes more) (length more) (length bytes) ≡ bytes)
unfolding append prepend
extract-append bytes more = (
  extract_front bytes more,
  extract_back bytes more,
  extract_front more bytes,
  extract_back more bytes,
)

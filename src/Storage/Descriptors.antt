-- ===== src/Storage/Descriptors.antt =====
-- The walk of `FindEndpoints` against the list of descriptors that a configuration is made of.
use usb_lib.Prelude.{
  ℕ, zero, suc, ◌≤◌, ◌<◌, append_assoc, ◌≡◌, refl, ap, ap₂, ◌∙◌, List, [], ◌∷◌, ◌++◌, true, ◌||◌,
  some, ltb, leb, ◌==◌, length, drop, get_or, arith, All, drop-append_left, drop-append_le,
  length-append, length-drop, Bool-cases, inl, inr,
}
use usb_lib.Words.{Bytes, load16}
use usb_lib.Storage.FindEndpoints.{
  Endpoints, visit_interface, visit_endpoint, visit, find_loop, find_endpoints,
}

-- A descriptor: its first byte is its length, which covers at least the two bytes of its head.
abbrev pub IsDescriptor : Bytes → Type 0
IsDescriptor d = (2 ≤ length d) × (get_or d 0 0 ≡ length d)

-- The whole configuration.
abbrev pub flat : List Bytes → Bytes
flat [] = []
flat (d ∷ ds) = d ++ flat ds

-- What the descriptors say, each looked at alone and in order.
unfoldable pub survey : List Bytes → Endpoints → Endpoints
survey [] e = e
survey (d ∷ ds) e = survey ds (visit (length d) d e)

get_or-append : (n : ℕ) (xs ys : Bytes) → n < length xs → get_or (xs ++ ys) n 0 ≡ get_or xs n 0
get_or-append n [] ys h = absurd (omega arith)
get_or-append zero (x ∷ xs) ys h = refl
get_or-append (suc n) (x ∷ xs) ys h = get_or-append n xs ys (omega arith)

load16-append : (xs ys : Bytes) → 2 ≤ length xs → load16 (xs ++ ys) ≡ load16 xs
unfolding load16
load16-append [] ys h = absurd (omega arith)
load16-append (a ∷ []) ys h = absurd (omega arith)
load16-append (a ∷ b ∷ xs) ys h = refl

-- A visit reads nothing behind its descriptor.
visit_interface-append :
    (d rest : Bytes) (e : Endpoints)
    → visit_interface (length d) (d ++ rest) e ≡ visit_interface (length d) d e
unfolding visit_interface
visit_interface-append d rest e = elim (Bool-cases (leb 9 (length d))) [
  | inl fits ↦ rw (get_or-append 5 d rest (ground arith), get_or-append 2 d rest (ground arith))
  | inr short ↦ rw short
]

packet_size-append :
    (d rest : Bytes) → 7 ≤ length d → load16 (drop 4 (d ++ rest)) ≡ load16 (drop 4 d)
packet_size-append d rest h =
    ap load16 (drop-append_le 4 d rest (omega arith))
    ∙ load16-append (drop 4 d) rest (omega (arith, length-drop 4 d))

visit_endpoint-append :
    (d rest : Bytes) (e : Endpoints)
    → visit_endpoint (length d) (d ++ rest) e ≡ visit_endpoint (length d) d e
unfolding visit_endpoint
visit_endpoint-append d rest e = elim (Bool-cases (leb 7 (length d))) [
  | inl fits ↦ rw (
    get_or-append 2 d rest (ground arith),
    get_or-append 3 d rest (ground arith),
    packet_size-append d rest (ground arith),
  )
  | inr short ↦ rw short
]

visit-append :
    (d rest : Bytes) (e : Endpoints)
    → 2 ≤ length d
    → visit (length d) (d ++ rest) e ≡ visit (length d) d e
unfolding visit
visit-append d rest e h = rw (
  get_or-append 1 d rest (omega arith),
  visit_interface-append d rest e,
  visit_endpoint-append d rest e,
)

find_loop_step :
    (fuel : ℕ) (d rest : Bytes) (e : Endpoints)
    → IsDescriptor d
    → find_loop (suc fuel) (d ++ rest) e ≡ find_loop fuel rest (visit (length d) d e)
unfolding find_loop
find_loop_step fuel d rest e (head, len) = ground (
  arith,
  head,
  len,
  get_or-append 0 d rest (omega arith),
  length-append d rest,
  ap₂ (find_loop fuel) (drop-append_left (length d) d rest refl) (visit-append d rest e head),
)

-- Where the walk stops: less than a head, a length of zero, or a length past the end.
abbrev pub IsEnd : Bytes → Type 0
IsEnd bs = ((ltb (length bs) 2 || get_or bs 0 0 == 0 || ltb (length bs) (get_or bs 0 0)) ≡ true)

find_loop_end :
    (fuel : ℕ) (bs : Bytes) (e : Endpoints) → IsEnd bs → find_loop (suc fuel) bs e ≡ some e
unfolding find_loop
find_loop_end fuel bs e stop = ground (arith, stop)

find_loop-survey :
    (ds : List Bytes) (fuel : ℕ) (junk : Bytes) (e : Endpoints)
    → All IsDescriptor ds
    → IsEnd junk
    → length (flat ds) < fuel
    → find_loop fuel (flat ds ++ junk) e ≡ some (survey ds e)
unfolding survey
find_loop-survey ds zero junk e v stop h = absurd (omega arith)
find_loop-survey [] (suc fuel) junk e v stop h = find_loop_end fuel junk e stop
find_loop-survey (d ∷ ds) (suc fuel) junk e v stop h = rw (append_assoc d (flat ds) junk) (
    find_loop_step fuel d (flat ds ++ junk) e v.0
    ∙ find_loop-survey ds fuel junk (visit (length d) d e) v.1 stop
        (omega (arith, length-append d (flat ds), v.0)))

-- On a configuration that is a list of descriptors, followed by nothing or by bytes that begin no
-- descriptor (a rest too short for a head, a length of zero, a length past the end), the search ends
-- with what the descriptors say one by one: it reads none of them past its end, and nothing behind.
pub find_endpoints-survey :
    (ds : List Bytes) (junk : Bytes) (e : Endpoints)
    → All IsDescriptor ds
    → IsEnd junk
    → find_endpoints (flat ds ++ junk) e ≡ some (survey ds e)
unfolding find_endpoints
find_endpoints-survey ds junk e v stop =
    find_loop-survey ds (suc (length (flat ds ++ junk))) junk e v stop
      (omega (arith, length-append (flat ds) junk))

find_loop-total :
    (fuel : ℕ) (bs : Bytes) (e : Endpoints)
    → length bs < fuel
    → (r : Endpoints) × (find_loop fuel bs e ≡ some r)
unfolding find_loop
find_loop-total zero bs e h = absurd (omega arith)
find_loop-total (suc fuel) bs e h =
    elim (Bool-cases (ltb (length bs) 2 || get_or bs 0 0 == 0 || ltb (length bs) (get_or bs 0 0))) [
      | inl stop ↦ (e, find_loop_end fuel bs e stop)
      | inr go ↦
          let (r, q) =
            find_loop-total fuel (drop (get_or bs 0 0) bs) (visit (get_or bs 0 0) bs e)
              (let s = length-drop (get_or bs 0 0) bs in ground (arith, go, s)) in
          (r, ground (arith, go, q))
    ]

-- The search ends on every configuration, well formed or not.
pub find_endpoints-total :
    (config : Bytes) (e : Endpoints) → (r : Endpoints) × (find_endpoints config e ≡ some r)
unfolding find_endpoints
find_endpoints-total config e = find_loop-total (suc (length config)) config e (omega arith)

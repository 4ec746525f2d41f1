-- ===== src/Sender/Device/Session.antt =====
-- The protocol of libusb's handles, as its documentation gives it, against a device of the sender.
use usb_lib.Prelude.{
  steps, steps-cons, ℕ, ◌≡◌, ◌≢◌, refl, ◌∙◌, List, [], ◌∷◌, ◌++◌, Bool, true, false, ◌&&◌, Option,
  none, some, arith, ◌==◌, if◌then◌else◌, ==-refl,
}
use usb_lib.Capture.{erase_first}
use usb_lib.Sender.Device.{
  Call, call_open, call_close, call_claim, call_release, call_control, call_bulk, call_interrupt,
  call_string, call_submit, SenderUsbDevice, releases,
}

-- A handle, if there is one, with the interfaces that were claimed on it and whose release was not
-- called since, whatever that would answer.
pub data Session : Type 0 where
  idle : Session
  using : ℕ → List ℕ → Session

unfoldable pub is_in : ℕ → List ℕ → Bool
is_in n [] = false
is_in n (m ∷ ms) = let rest = is_in n ms in if m == n then true else rest

unfoldable pub without : ℕ → List ℕ → List ℕ
without n [] = []
without n (m ∷ ms) = let rest = without n ms in if m == n then rest else m ∷ rest

abbrev is_empty : List ℕ → Bool
is_empty [] = true
is_empty (n ∷ ns) = false

-- What a call makes of the session, `none` if the protocol forbids it: a handle is opened only while
-- there is none and closed only when no interface is claimed on it, all else is called on the open
-- handle, and a transfer, which has a handle of its own, is submitted only while there is one.
unfoldable pub session_step : Session → Call → Option Session
unfolding without
session_step idle (call_open none) = some idle
session_step idle (call_open (some h)) = some (using h [])
session_step idle _ = none
session_step (using g ns) (call_open _) = none
session_step (using g ns) (call_close h) = if h == g && is_empty ns then some idle else none
session_step (using g ns) (call_claim h n ok) =
    if h == g then some (using g (if ok then n ∷ ns else ns)) else none
session_step (using g ns) (call_release h n) =
    if h == g then some (using g (without n ns)) else none
session_step (using g ns) (call_control h setup) = if h == g then some (using g ns) else none
session_step (using g ns) (call_bulk h e size) = if h == g then some (using g ns) else none
session_step (using g ns) (call_interrupt h e size) = if h == g then some (using g ns) else none
session_step (using g ns) (call_submit h) = some (using g ns)
session_step (using g ns) (call_string h i) = if h == g then some (using g ns) else none

-- Whether the calls are allowed one after the other, and what they make of it.
abbrev pub accepts : Session → List Call → Option Session
accepts s calls = steps session_step s calls

-- The device's fields against the session: what is claimed is in its list.
abbrev pub Matches : SenderUsbDevice → Session → Type 0
Matches d idle = (d.handle ≡ none) × (d.claimed_interfaces ≡ [])
Matches d (using h ns) =
    (d.handle ≡ some h) × ((n : ℕ) → is_in n ns ≡ true → is_in n d.claimed_interfaces ≡ true)

-- The session takes the calls and ends where the device does.
abbrev pub Follows : Session → SenderUsbDevice × List Call → Type 0
Follows s (d, calls) = (t : Session) × (accepts s calls ≡ some t) × Matches d t

pub is_in-without :
    (n m : ℕ) (ns : List ℕ) → is_in n (without m ns) ≡ true → (is_in n ns ≡ true) × (m ≢ n)
unfolding without is_in
is_in-without n m [] h = absurd cc
is_in-without n m (k ∷ ns) h = ground (arith, is_in-without n m ns)

pub is_in-erase_first :
    (n m : ℕ) (ns : List ℕ) → m ≢ n → is_in n ns ≡ true → is_in n (erase_first m ns) ≡ true
unfolding is_in erase_first
is_in-erase_first n m [] ne h = h
is_in-erase_first n m (k ∷ ns) ne h = ground (arith, is_in-erase_first n m ns)

pub is_in-append :
    (n m : ℕ) (ns : List ℕ) → is_in n (m ∷ ns) ≡ true → is_in n (ns ++ (m ∷ [])) ≡ true
unfolding is_in
is_in-append n m [] h = h
is_in-append n m (k ∷ ns) h = ground (arith, is_in-append n m ns)

is_in-tail : (n m : ℕ) (ms : List ℕ) → m ≢ n → is_in n (m ∷ ms) ≡ true → is_in n ms ≡ true
unfolding is_in
is_in-tail n m ms ne e = ground arith

pub is_in-cons :
    (n m : ℕ) (xs ys : List ℕ)
    → (is_in n xs ≡ true → is_in n ys ≡ true)
    → is_in n (m ∷ xs) ≡ true
    → is_in n (m ∷ ys) ≡ true
unfolding is_in
is_in-cons n m xs ys sub e = ground arith

pub not_in-nil : (n : ℕ) → is_in n [] ≢ true
unfolding is_in
not_in-nil n e = absurd cc

module _ (h : ℕ) where
  pub release-step :
      (n : ℕ) (ns : List ℕ)
      → session_step (using h ns) (call_release h n) ≡ some (using h (without n ns))
  unfolding session_step
  release-step n ns = rw (==-refl h) refl

  pub claim-step :
      (n : ℕ) (ok : Bool) (ns : List ℕ)
      → session_step (using h ns) (call_claim h n ok) ≡ some (using h (if ok then n ∷ ns else ns))
  unfolding session_step
  claim-step n ok ns = rw (==-refl h) refl

  pub close-step : session_step (using h []) (call_close h) ≡ some idle
  unfolding session_step
  close-step = rw (==-refl h) refl

  -- The releases leave nothing of what they name.
  pub accepts-releases :
      (ms ns : List ℕ)
      → ((n : ℕ) → is_in n ns ≡ true → is_in n ms ≡ true)
      → accepts (using h ns) (releases (some h) ms) ≡ some (using h [])
  unfolding releases
  accepts-releases [] [] sub = unfold steps in refl
  accepts-releases [] (n ∷ ns) sub =
      absurd (not_in-nil n (sub n (unfold is_in in rw (==-refl n) refl)))
  accepts-releases (m ∷ ms) ns sub =
      steps-cons session_step (using h ns) (using h (without m ns)) (call_release h m) _
        (release-step m ns)
      ∙ accepts-releases ms (without m ns)
          (λ n e. let (e', ne) = is_in-without n m ns e in others n ne (sub n e'))
    where
      others : (n : ℕ) → m ≢ n → is_in n (m ∷ ms) ≡ true → is_in n ms ≡ true
      others n ne e = is_in-tail n m ms ne e

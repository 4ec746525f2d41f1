-- ===== src/Sender/Manager/Registration.antt =====
-- The rules of libusb's contexts and hotplug callbacks.
use usb_lib.Prelude.{
  steps, steps-one, ℕ, ◌≡◌, refl, List, [], ◌∷◌, ◌&&◌, Option, none, some, ◌==◌, if◌then◌else◌,
  ==-refl,
}
use usb_lib.Sender.Manager.{ContextCall, call_init, call_exit, call_register, call_deregister}

-- The context that is open, if one is, and the callback that is registered in it, if one is.
pub data Registration : Type 0 where
  shut : Registration
  quiet : ℕ → Registration
  registered : ℕ → ℕ → Registration

-- What a call makes of it, `none` if the rules forbid the call: one context at a time, in it one
-- callback at a time, what is deregistered is the one that is registered, in its own context, and the
-- context that is given back is the one that is open, with no callback left.
unfoldable pub registration_step : Registration → ContextCall → Option Registration
registration_step shut (call_init c) = some (quiet c)
registration_step shut call = none
registration_step (quiet c) (call_exit d) = if d == c then some shut else none
registration_step (quiet c) (call_register d h) = if d == c then some (registered c h) else none
registration_step (quiet c) call = none
registration_step (registered c h) (call_deregister d g) =
    if d == c && g == h then some (quiet c) else none
registration_step (registered c h) call = none

-- Whether the calls are allowed one after the other, and what they make of it.
abbrev pub accepts : Registration → List ContextCall → Option Registration
accepts s calls = steps registration_step s calls

pub opens : (c : ℕ) → accepts shut (call_init c ∷ []) ≡ some (quiet c)
unfolding steps registration_step
opens c = refl

register-step : (c h : ℕ) → registration_step (quiet c) (call_register c h) ≡ some (registered c h)
unfolding registration_step
register-step c h = rw (==-refl c) refl

pub registers : (c h : ℕ) → accepts (quiet c) (call_register c h ∷ []) ≡ some (registered c h)
registers c h = steps-one registration_step (quiet c) _ (call_register c h) (register-step c h)

exit-step : (c : ℕ) → registration_step (quiet c) (call_exit c) ≡ some shut
unfolding registration_step
exit-step c = rw (==-refl c) refl

pub exits : (c : ℕ) → accepts (quiet c) (call_exit c ∷ []) ≡ some shut
exits c = steps-one registration_step (quiet c) _ (call_exit c) (exit-step c)

deregister-step :
    (c h : ℕ) → registration_step (registered c h) (call_deregister c h) ≡ some (quiet c)
unfolding registration_step
deregister-step c h = rw (==-refl c, ==-refl h) refl

pub deregisters : (c h : ℕ) → accepts (registered c h) (call_deregister c h ∷ []) ≡ some (quiet c)
deregisters c h =
    steps-one registration_step (registered c h) _ (call_deregister c h) (deregister-step c h)

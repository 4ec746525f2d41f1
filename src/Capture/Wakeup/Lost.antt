-- ===== src/Capture/Wakeup/Lost.antt =====
-- The lost notification of `StopCapture`.
use usb_lib.Prelude.{◌≡◌, ◌≢◌, ◌⊎◌, inl, inr, refl, sym, ap, ◌∙◌, List, [], ◌∷◌, ◌++◌, false}
use usb_lib.Usb.{UsbUrb}
use usb_lib.Capture.Wakeup.Ordered.{Reach-IsOrdered}
use usb_lib.Capture.Wakeup.{
  Reach, cleared, WorkerPc, left, about_to_wait, blocked, joining, System, notify, notify_all, Work,
  enters, ends, locks, finds_nothing, finds_urb, finds_stop, blocks, relocks, breaks, goes_on,
  takes, returns, runs_dry, Step, works, tests, pushes, notifies, asks, clears, notifies_all, joins,
}

-- `StopCapture` waits for a thread that is about to wait, or waits, with nobody left to notify it.
record IsStuck (s : System) : Type 0 where
  waits : s.stopper ≡ joining
  asleep : (s.worker ≡ about_to_wait) ⊎ (s.worker ≡ blocked)
  closed : s.capture.capturing ≡ false
  nobody : s.entering ≡ []
  silent : s.notifying ≡ 0

asleep-ne :
    {w v : WorkerPc}
    → (w ≡ about_to_wait) ⊎ (w ≡ blocked)
    → w ≡ v
    → about_to_wait ≢ v
    → blocked ≢ v
    → ⊥
asleep-ne (inl e) p a b = a (sym e ∙ p)
asleep-ne (inr e) p a b = b (sym e ∙ p)

-- Of the processing thread's steps only the beginning of the wait is possible.
Work-IsStuck : {s t : System} → Work s t → IsStuck s → IsStuck t
Work-IsStuck (enters w go) v = absurd (asleep-ne v.asleep w (λ e. cc) (λ e. cc))
Work-IsStuck (ends w stop) v = absurd (asleep-ne v.asleep w (λ e. cc) (λ e. cc))
Work-IsStuck (locks w) v = absurd (asleep-ne v.asleep w (λ e. cc) (λ e. cc))
Work-IsStuck (finds_nothing w q go) v = absurd (asleep-ne v.asleep w (λ e. cc) (λ e. cc))
Work-IsStuck (finds_urb w q) v = absurd (asleep-ne v.asleep w (λ e. cc) (λ e. cc))
Work-IsStuck (finds_stop w stop) v = absurd (asleep-ne v.asleep w (λ e. cc) (λ e. cc))
Work-IsStuck (blocks w) v = record {
  waits = v.waits;
  asleep = inr refl;
  closed = v.closed;
  nobody = v.nobody;
  silent = v.silent;
}
Work-IsStuck (relocks w) v = absurd (asleep-ne v.asleep w (λ e. cc) (λ e. cc))
Work-IsStuck (breaks w stop) v = absurd (asleep-ne v.asleep w (λ e. cc) (λ e. cc))
Work-IsStuck (goes_on w go) v = absurd (asleep-ne v.asleep w (λ e. cc) (λ e. cc))
Work-IsStuck (takes urb rest w q) v = absurd (asleep-ne v.asleep w (λ e. cc) (λ e. cc))
Work-IsStuck (returns w) v = absurd (asleep-ne v.asleep w (λ e. cc) (λ e. cc))
Work-IsStuck (runs_dry w q) v = absurd (asleep-ne v.asleep w (λ e. cc) (λ e. cc))

append-cons-ne :
    (before : List UsbUrb) (u : UsbUrb) (behind : List UsbUrb) → before ++ (u ∷ behind) ≢ []
append-cons-ne [] u behind e = cc
append-cons-ne (b ∷ before) u behind e = cc

Step-IsStuck : {s t : System} → Step s t → IsStuck s → IsStuck t
Step-IsStuck (works w) v = Work-IsStuck w v
Step-IsStuck (tests urb on) v = absurd (let e = v.closed in cc)
Step-IsStuck (pushes before urb behind e free) v =
    absurd (append-cons-ne before urb behind (sym e ∙ v.nobody))
Step-IsStuck (notifies n e) v = absurd (let z = v.silent in cc)
Step-IsStuck (asks i on) v = absurd (let e = v.waits in cc)
Step-IsStuck (clears a) v = absurd (let e = v.waits in cc)
Step-IsStuck (notifies_all c) v = absurd (let e = v.waits in cc)
Step-IsStuck (joins j l) v = absurd (asleep-ne v.asleep l (λ e. cc) (λ e. cc))

-- The steps of all threads, in any order, where no wait ends by itself.
pub data Run (s : System) : System → Type 0 where
  stays : Run s s
  then : {t u : System} → Run s t → Step t u → Run s u

Run-IsStuck : {s t : System} → Run s t → IsStuck s → IsStuck t
Run-IsStuck stays v = v
Run-IsStuck (then r st) v = Step-IsStuck st (Run-IsStuck r v)

-- If in a reachable state `StopCapture` is about to notify while the processing thread is between its
-- test and its wait, and no thread is about to push a URB or to notify, then whatever steps the threads
-- take from there, as long as no wait ends by itself, `StopCapture` goes on waiting and the processing
-- thread has not left its loop.
pub notify_all-stuck :
    {s t : System}
    → Reach s
    → s.stopper ≡ cleared
    → s.worker ≡ about_to_wait
    → s.entering ≡ []
    → s.notifying ≡ 0
    → Run (notify_all s) t
    → (t.stopper ≡ joining) × (t.worker ≢ left)
unfolding notify_all notify
notify_all-stuck reached c w e n r =
    let v = Run-IsStuck r (record {
      waits = refl;
      asleep = inl (ap notify w);
      closed = (Reach-IsOrdered reached).shut c;
      nobody = e;
      silent = n;
    }) in
    (v.waits, λ l. asleep-ne v.asleep l (λ e. cc) (λ e. cc))

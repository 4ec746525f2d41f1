-- ===== src/Capture/Wakeup/Kept.antt =====
-- What becomes of the URBs while the capture is stopped.
use usb_lib.Prelude.{◌≡◌, refl, sym, ap, ◌∙◌, List, [], ◌∷◌, ◌++◌, append_assoc}
use usb_lib.Usb.{UsbUrb}
use usb_lib.Capture.Wakeup.{
  System, Work, enters, ends, locks, finds_nothing, finds_urb, finds_stop, blocks, relocks, breaks,
  goes_on, takes, returns, runs_dry, Step, works, tests, pushes, notifies, asks, clears,
  notifies_all, joins, Reach, here, next, wakes_by_itself, notify_all,
}

-- No URB is lost or delivered twice, and their order is kept.
abbrev pub IsKept : System → Type 0
IsKept s = s.accepted ≡ s.delivered ++ s.capture.urb_queue

pub Work-IsKept : {s t : System} → Work s t → IsKept s → IsKept t
Work-IsKept (enters w go) v = v
Work-IsKept (ends w stop) v = v
Work-IsKept (locks w) v = v
Work-IsKept (finds_nothing w q go) v = v
Work-IsKept (finds_urb w q) v = v
Work-IsKept (finds_stop w stop) v = v
Work-IsKept (blocks w) v = v
Work-IsKept (relocks w) v = v
Work-IsKept (breaks w stop) v = v
Work-IsKept (goes_on w go) v = v
Work-IsKept {s} (takes urb rest w q) v =
    v ∙ ap (◌++◌ s.delivered) q ∙ sym (append_assoc s.delivered (urb ∷ []) rest)
Work-IsKept (returns w) v = v
Work-IsKept (runs_dry w q) v = v

Step-IsKept : {s t : System} → Step s t → IsKept s → IsKept t
unfolding notify_all
Step-IsKept (works w) v = Work-IsKept w v
Step-IsKept (tests urb on) v = v
Step-IsKept {s} (pushes before urb behind e free) v =
    ap (λ (l : List UsbUrb). l ++ (urb ∷ [])) v
    ∙ append_assoc s.delivered s.capture.urb_queue (urb ∷ [])
Step-IsKept (notifies n e) v = v
Step-IsKept (asks i on) v = v
Step-IsKept (clears a) v = v
Step-IsKept (notifies_all c) v = v
Step-IsKept (joins j l) v = v

pub Reach-IsKept : {s : System} → Reach s → IsKept s
Reach-IsKept (here c) = refl
Reach-IsKept (next r st) = Step-IsKept st (Reach-IsKept r)
Reach-IsKept (wakes_by_itself r b) = Reach-IsKept r

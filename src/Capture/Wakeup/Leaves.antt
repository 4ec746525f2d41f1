-- ===== src/Capture/Wakeup/Leaves.antt =====
-- `StopCapture` comes to its end where its notification does not fall between the processing thread's
-- test and its wait.
use usb_lib.Prelude.{
  ℕ, suc, ◌+◌, ◌*◌, ◌≤◌, ◌≡◌, ◌≢◌, refl, sym, ◌∙◌, List, [], ◌∷◌, ◌++◌, true, false, arith, length,
  Bool-cases, inl, inr,
}
use usb_lib.Usb.{UsbUrb}
use usb_lib.Capture.Wakeup.{
  WorkerPc, at_head, locking, testing, about_to_wait, blocked, woken, tested, draining, calling,
  left, absent, joining, stopped, System, Work, enters, ends, locks, finds_nothing, finds_urb,
  finds_stop, blocks, relocks, breaks, goes_on, takes, returns, runs_dry, Step, joins, Reach,
}
use usb_lib.Capture.Wakeup.Kept.{IsKept, Work-IsKept, Reach-IsKept}
use usb_lib.Capture.Wakeup.Ordered.{is_waiting, IsOrdered, Reach-IsOrdered}

-- `n` steps of the processing thread alone.
pub data WorkRun : System → ℕ → System → Type 0 where
  rests : {s : System} → WorkRun s 0 s
  goes : {s t u : System} {n : ℕ} → Work s t → WorkRun t n u → WorkRun s (suc n) u

-- In so many steps of its own the thread is behind its loop.
Leaves : System → ℕ → Type 0
Leaves s n = (t : System) × WorkRun s n t × (t.worker ≡ left) × (t.stopper ≡ s.stopper)

before_leaving :
    {s t : System} (n : ℕ) → Work s t → t.stopper ≡ s.stopper → Leaves t n → Leaves s (suc n)
unfolding Leaves
before_leaving n w same (u, run, gone, still) = (u, goes w run, gone, still ∙ same)

Leaves-now : (s : System) → s.worker ≡ left → Leaves s 0
unfolding Leaves
Leaves-now s w = (s, rests, w, refl)

module _ (s : System) (stop : s.capture.should_stop ≡ true) where
  head-Leaves : s.worker ≡ at_head → Leaves s 1
  head-Leaves w = before_leaving 0 (ends w stop) refl (Leaves-now _ refl)

  tested-Leaves : s.worker ≡ tested → Leaves s 1
  tested-Leaves w = before_leaving 0 (breaks w stop) refl (Leaves-now _ refl)

testing-Leaves : (s : System) → s.capture.should_stop ≡ true → s.worker ≡ testing → Leaves s 2
testing-Leaves s stop w = before_leaving 1 (finds_stop w stop) refl (tested-Leaves _ stop refl)

-- Two steps for each URB, and two to leave both loops.
abbrev drain_steps : List UsbUrb → ℕ
drain_steps [] = 2
drain_steps (urb ∷ rest) = suc (suc (drain_steps rest))

drain_steps_length : (queue : List UsbUrb) → drain_steps queue ≡ length queue * 2 + 2
drain_steps_length [] = refl
drain_steps_length (urb ∷ rest) = omega (arith, drain_steps_length rest)

draining-Leaves :
    (queue : List UsbUrb) (s : System)
    → s.capture.should_stop ≡ true
    → s.worker ≡ draining
    → s.capture.urb_queue ≡ queue
    → Leaves s (drain_steps queue)
draining-Leaves [] s stop w q = before_leaving 1 (runs_dry w q) refl (head-Leaves _ stop refl)
draining-Leaves (urb ∷ rest) s stop w q =
    before_leaving (suc (drain_steps rest)) (takes urb rest w q) refl (
      before_leaving (drain_steps rest) (returns refl) refl (draining-Leaves rest _ stop refl refl))

-- Within the bound.
Soon : System → Type 0
Soon s = (n : ℕ) × (n ≤ length s.capture.urb_queue * 2 + 3) × Leaves s n

active_leaves :
    (s : System) (w : WorkerPc)
    → s.worker ≡ w
    → s.capture.should_stop ≡ true
    → is_waiting w ≡ false
    → w ≢ absent
    → Soon s
unfolding is_waiting Soon
active_leaves s at_head e stop a p = (1, omega arith, head-Leaves s stop e)
active_leaves s locking e stop a p =
    (3, omega arith, before_leaving 2 (locks e) refl (testing-Leaves _ stop refl))
active_leaves s testing e stop a p = (2, omega arith, testing-Leaves s stop e)
active_leaves s about_to_wait e stop a p = absurd cc
active_leaves s blocked e stop a p = absurd cc
active_leaves s woken e stop a p =
    (3, omega arith, before_leaving 2 (relocks e) refl (testing-Leaves _ stop refl))
active_leaves s tested e stop a p = (1, omega arith, tested-Leaves s stop e)
active_leaves s draining e stop a p =
    (_, omega (arith, drain_steps_length s.capture.urb_queue), draining-Leaves _ s stop e refl)
active_leaves s calling e stop a p = (
  suc (drain_steps s.capture.urb_queue),
  omega (arith, drain_steps_length s.capture.urb_queue),
  before_leaving _ (returns e) refl (draining-Leaves _ _ stop refl refl),
)
active_leaves s left e stop a p = (0, omega arith, Leaves-now s e)
active_leaves s absent e stop a p = absurd (p refl)

Work-accepted : {s t : System} → Work s t → t.accepted ≡ s.accepted
Work-accepted (enters w go) = refl
Work-accepted (ends w stop) = refl
Work-accepted (locks w) = refl
Work-accepted (finds_nothing w q go) = refl
Work-accepted (finds_urb w q) = refl
Work-accepted (finds_stop w stop) = refl
Work-accepted (blocks w) = refl
Work-accepted (relocks w) = refl
Work-accepted (breaks w stop) = refl
Work-accepted (goes_on w go) = refl
Work-accepted (takes urb rest w q) = refl
Work-accepted (returns w) = refl
Work-accepted (runs_dry w q) = refl

WorkRun-accepted : {s t : System} {n : ℕ} → WorkRun s n t → t.accepted ≡ s.accepted
WorkRun-accepted rests = refl
WorkRun-accepted (goes w run) = WorkRun-accepted run ∙ Work-accepted w

WorkRun-IsKept : {s t : System} {n : ℕ} → WorkRun s n t → IsKept s → IsKept t
WorkRun-IsKept rests v = v
WorkRun-IsKept (goes w run) v = WorkRun-IsKept run (Work-IsKept w v)

-- In every reachable state in which `StopCapture` waits to join and did not notify between the
-- processing thread's test and its wait, the thread alone comes behind its loop, in at most twice as
-- many steps as there are URBs in the queue and three more, and the next step is the return of the join.
-- Then the URBs that were pushed until that state are, in their order, those the callback got and those
-- that are still in the queue.
pub Reach-leaves :
    {s : System}
    → Reach s
    → s.stopper ≡ joining
    → s.missed ≡ false
    → (n : ℕ) × (t : System) × (u : System) × (n ≤ length s.capture.urb_queue * 2 + 3)
      × WorkRun s n t
      × Step t u
      × (u.stopper ≡ stopped)
      × (u.worker ≡ absent)
      × (s.accepted ≡ u.delivered ++ u.capture.urb_queue)
unfolding Leaves Soon
Reach-leaves {s} r j seen =
    let v = Reach-IsOrdered r in
    let (n, small, (t, run, gone, same)) =
      active_leaves s s.worker refl (v.flag_set (λ e. cc)) (active v)
        (λ e. let x = v.there e in cc) in
    let kept = WorkRun-IsKept run (Reach-IsKept r) in
    (n, t, _, small, run, joins (same ∙ j) gone, refl, refl, sym (WorkRun-accepted run) ∙ kept)
  where
    active : IsOrdered s → is_waiting s.worker ≡ false
    active v = elim (Bool-cases (is_waiting s.worker)) [
      | inl w ↦ absurd (let m = v.only_missed j w in cc)
      | inr e ↦ e
    ]

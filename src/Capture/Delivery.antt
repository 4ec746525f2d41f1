-- ===== src/Capture/Delivery.antt =====
-- What the capture thread of UrbCapture delivers and counts, over its interleavings.
use usb_lib.Prelude.{
  ◌+◌, ◌%◌, ◌≡◌, refl, sym, ap, ◌∙◌, List, [], ◌∷◌, ◌++◌, arith, append_assoc, append-nil, subst,
}
use usb_lib.Usb.{UsbUrb, UsbTransferType, control, isochronous, bulk, interrupt}
use usb_lib.Capture.{
  urb_capture, Statistics, no_statistics, update_statistics, count_type, reset_statistics, u64_mod,
}
use usb_lib.Capture.Thread.{
  Worker, absent, waiting, draining, left, popped, calling, System, Step, tests, pushes, starts,
  asks, clears, joins, resets, wakes, pops, counts, calls, runs_dry, leaves, Reach, here, next,
}

-- The statistics of a list of URBs, from given ones on.
unfoldable pub counted : Statistics → List UsbUrb → Statistics
counted s [] = s
counted s (u ∷ us) = counted (update_statistics s u) us

counted-append :
    (s : Statistics) (us vs : List UsbUrb) → counted s (us ++ vs) ≡ counted (counted s us) vs
unfolding counted
counted-append s [] vs = refl
counted-append s (u ∷ us) vs = counted-append (update_statistics s u) us vs

-- What the processing thread has in hand, and the part of it that is counted.
unfoldable pub in_hand : Worker → List UsbUrb
in_hand (popped urb) = urb ∷ []
in_hand (calling urb) = urb ∷ []
in_hand w = []

unfoldable pub counted_in_hand : Worker → List UsbUrb
counted_in_hand (calling urb) = urb ∷ []
counted_in_hand w = []

-- The same with an empty hand before and after.
abbrev IsEmptyHanded : Worker → Type 0
IsEmptyHanded w = (in_hand w ≡ []) × (counted_in_hand w ≡ [])

waiting-IsEmptyHanded : IsEmptyHanded waiting
unfolding in_hand counted_in_hand
waiting-IsEmptyHanded = (refl, refl)

draining-IsEmptyHanded : IsEmptyHanded draining
unfolding in_hand counted_in_hand
draining-IsEmptyHanded = (refl, refl)

left-IsEmptyHanded : IsEmptyHanded left
unfolding in_hand counted_in_hand
left-IsEmptyHanded = (refl, refl)

absent-IsEmptyHanded : IsEmptyHanded absent
unfolding in_hand counted_in_hand
absent-IsEmptyHanded = (refl, refl)

-- What was pushed is delivered, in hand or queued; what was counted is delivered or in hand; and the
-- statistics are those of what was counted since the last reset.
abbrev pub IsFaithful : System → Type 0
IsFaithful s =
    (s.delivered ++ (in_hand s.worker ++ s.capture.urb_queue) ≡ s.accepted)
    × (s.before_reset ++ s.since_reset ≡ s.delivered ++ counted_in_hand s.worker)
    × (s.capture.statistics ≡ counted no_statistics s.since_reset)

-- A step of the processing thread between two points at which it has nothing in hand.
walks-IsFaithful :
    (s : System) (w : Worker)
    → IsEmptyHanded s.worker
    → IsEmptyHanded w
    → IsFaithful s
    → IsFaithful (record s { worker = w })
walks-IsFaithful s w (e, e') (f, f') (kept, told, sum) = (
  ap (λ (h : List UsbUrb). s.delivered ++ (h ++ s.capture.urb_queue)) (f ∙ sym e) ∙ kept,
  told ∙ ap (◌++◌ s.delivered) (e' ∙ sym f'),
  sum,
)

at_worker : {v w : Worker} → v ≡ w → IsEmptyHanded w → IsEmptyHanded v
at_worker e empty = rw e empty

Step-IsFaithful : {s t : System} → Step s t → IsFaithful s → IsFaithful t
unfolding reset_statistics counted_in_hand
Step-IsFaithful (tests urb on) v = v
Step-IsFaithful {s} (pushes before urb behind e free) (kept, told, sum) = (
  ap (◌++◌ s.delivered) (sym (append_assoc (in_hand s.worker) s.capture.urb_queue (urb ∷ [])))
      ∙ sym (append_assoc s.delivered (in_hand s.worker ++ s.capture.urb_queue) (urb ∷ []))
      ∙ ap (λ (l : List UsbUrb). l ++ (urb ∷ [])) kept,
  told,
  sum,
)
Step-IsFaithful {s} (starts off free gone) v =
    walks-IsFaithful s waiting (at_worker gone absent-IsEmptyHanded) waiting-IsEmptyHanded v
Step-IsFaithful (asks on free) v = v
Step-IsFaithful (clears a) v = v
Step-IsFaithful {s} (joins j gone) v =
    walks-IsFaithful s absent (at_worker gone left-IsEmptyHanded) absent-IsEmptyHanded v
Step-IsFaithful {s} resets (kept, told, sum) = (
  kept,
  append-nil (s.before_reset ++ s.since_reset) ∙ told,
  unfold counted reset_statistics in refl,
)
Step-IsFaithful {s} (wakes w go full) v =
    walks-IsFaithful s draining (at_worker w waiting-IsEmptyHanded) draining-IsEmptyHanded v
Step-IsFaithful {s} (pops urb rest w q) (kept, told, sum) =
    let (e, e') = at_worker w draining-IsEmptyHanded in
    (
      unfold in_hand in
          ap (◌++◌ s.delivered) (sym (ap (λ (h : List UsbUrb). h ++ s.capture.urb_queue) e ∙ q))
          ∙ kept,
      told ∙ ap (◌++◌ s.delivered) e',
      sum,
    )
Step-IsFaithful {s} (counts urb w) (kept, told, sum) = (
  unfold in_hand in
      ap (λ (x : Worker). s.delivered ++ (in_hand x ++ s.capture.urb_queue)) (sym w) ∙ kept,
  unfold counted_in_hand in
      sym (append_assoc s.before_reset s.since_reset (urb ∷ []))
      ∙ ap (λ (l : List UsbUrb). l ++ (urb ∷ []))
          (told ∙ ap (λ (x : Worker). s.delivered ++ counted_in_hand x) w ∙ append-nil s.delivered),
  unfold counted in
      ap (λ (x : Statistics). update_statistics x urb) sum
      ∙ sym (counted-append no_statistics s.since_reset (urb ∷ [])),
)
Step-IsFaithful {s} (calls urb w) (kept, told, sum) = (
  unfold in_hand in
      append_assoc s.delivered (urb ∷ []) s.capture.urb_queue
      ∙ ap (λ (x : Worker). s.delivered ++ (in_hand x ++ s.capture.urb_queue)) (sym w)
      ∙ kept,
  unfold counted_in_hand in
      told
      ∙ ap (λ (x : Worker). s.delivered ++ counted_in_hand x) w
      ∙ sym (append-nil (s.delivered ++ (urb ∷ []))),
  sum,
)
Step-IsFaithful {s} (runs_dry w e) v =
    walks-IsFaithful s waiting (at_worker w draining-IsEmptyHanded) waiting-IsEmptyHanded v
Step-IsFaithful {s} (leaves w stop) v =
    walks-IsFaithful s left (at_worker w waiting-IsEmptyHanded) left-IsEmptyHanded v

-- In every interleaving of the threads that bring URBs, the starts, the stops, the resets and the
-- processing thread, the URBs that were pushed are, in their order and each once, those the callback got,
-- the one the processing thread has in hand, and those in the queue. Those counted before and since the
-- last reset are those the callback got, and the one in hand once it is counted; and the statistics are
-- exactly those of the URBs counted since the last reset.
pub Reach-delivered : {s : System} → Reach s → IsFaithful s
Reach-delivered here = unfold urb_capture counted in_hand counted_in_hand in (refl, refl, refl)
Reach-delivered (next r st) = Step-IsFaithful st (Reach-delivered r)

-- The counters of the four types add up to the total.
abbrev pub Balanced : Statistics → Type 0
Balanced s =
    (s.control_urbs + s.bulk_urbs + s.interrupt_urbs + s.iso_urbs) % u64_mod
    ≡ s.total_urbs % u64_mod

-- With the total already counted, the counter of the type makes up for it.
count-Balanced :
    (t : UsbTransferType) (s : Statistics)
    → (s.control_urbs + s.bulk_urbs + s.interrupt_urbs + s.iso_urbs + 1) % u64_mod
      ≡ s.total_urbs % u64_mod
    → Balanced (count_type t s)
unfolding count_type
count-Balanced control s h = omega arith
count-Balanced isochronous s h = omega arith
count-Balanced bulk s h = omega arith
count-Balanced interrupt s h = omega arith

update-Balanced : (s : Statistics) (u : UsbUrb) → Balanced s → Balanced (update_statistics s u)
unfolding update_statistics
update-Balanced s u b = count-Balanced u.transfer_type _ (omega arith)

counted-Balanced : (us : List UsbUrb) (s : Statistics) → Balanced s → Balanced (counted s us)
unfolding counted
counted-Balanced [] s b = b
counted-Balanced (u ∷ us) s b = counted-Balanced us (update_statistics s u) (update-Balanced s u b)

-- In every reachable state the four counters by type add up to the total, modulo 2^64.
pub Reach-Balanced : {s : System} → Reach s → Balanced s.capture.statistics
Reach-Balanced {s} r =
    subst Balanced (sym (Reach-delivered r).2) (counted-Balanced s.since_reset no_statistics refl)

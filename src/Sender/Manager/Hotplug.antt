-- ===== src/Sender/Manager/Hotplug.antt =====
-- The hotplug monitoring of the device manager, against the rules of libusb's contexts.
use usb_lib.Prelude.{
  steps_nil, steps-append, branch, ℕ, ◌<◌, ◌≡◌, ◌≢◌, refl, sym, ap, subst, ◌∙◌, List, [], ◌∷◌, ◌++◌,
  Bool, true, false, ◌||◌, not, Option, none, some, arith, if◌then◌else◌,
}
use usb_lib.Socket.{returns, terminates}
use usb_lib.Sender.Manager.{
  UsbDeviceManager, ContextCall, call_exit, call_register, call_deregister, has_context, on_context,
  usb_device_manager, ManagerResult, initialize_manager, start_hotplug_monitoring,
  stop_hotplug_monitoring, cleanup_manager,
}
use usb_lib.Sender.Manager.Registration.{
  Registration, shut, quiet, registered, registration_step, accepts, opens, registers, exits,
  deregisters,
}

pub data Operation : Type 0 where
  initializing : Option ℕ → Operation
  cleaning : Operation
  starting : Bool → Option ℕ → Operation
  stopping : Operation

unfoldable pub perform : UsbDeviceManager → Operation → ManagerResult
perform m (initializing answer) = initialize_manager m answer
perform m cleaning = cleanup_manager m
perform m (starting capable answer) = start_hotplug_monitoring m capable answer
perform m stopping = let (m', calls) = stop_hotplug_monitoring m in (m', returns true, calls)

-- The operations, until one terminates the process.
unfoldable pub run : UsbDeviceManager → List Operation → ManagerResult
unfolding perform
run m [] = (m, returns true, [])
run m (op ∷ ops) =
    let (m', outcome, calls) = perform m op in
    let (m'', outcome', more) = run m' ops in
    elim outcome [
      | terminates ↦ (m', terminates, calls)
      | returns b ↦ (m'', outcome', calls ++ more)
    ]

-- Whether a context is open after an operation.
abbrev pub after : Bool → Operation → Bool
after opened (initializing none) = opened
after opened (initializing (some c)) = true
after opened cleaning = false
after opened op = opened

-- `Initialize` is not called while a context is open, and libusb's handles are positive.
abbrev pub Allowed : Bool → Operation → Type 0
Allowed true (initializing answer) = ⊥
Allowed opened (starting capable (some h)) = 0 < h
Allowed opened op = Unit

abbrev pub AllAllowed : Bool → List Operation → Type 0
AllAllowed opened [] = Unit
AllAllowed opened (op ∷ ops) = Allowed opened op × AllAllowed (after opened op) ops

-- The manager's fields against what is open and registered.
abbrev pub Matches : UsbDeviceManager → Registration → Type 0
Matches m shut = (m.context ≡ none) × (m.monitoring ≡ false) × (m.hotplug_thread ≡ false)
Matches m (quiet c) = (m.context ≡ some c) × (m.monitoring ≡ false) × (m.hotplug_thread ≡ false)
Matches m (registered c h) =
    (m.context ≡ some c)
    × (m.monitoring ≡ true)
    × (m.hotplug_thread ≡ true)
    × (m.hotplug_handle ≡ h)
    × (0 < h)

abbrev is_open : Registration → Bool
is_open shut = false
is_open (quiet c) = true
is_open (registered c h) = true

-- The calls follow the rules, the manager's fields follow the calls, and the process goes on.
abbrev pub Follows : Registration → ManagerResult → Type 0
Follows r (m, outcome, calls) =
    (outcome ≢ terminates) × ((r' : Registration) × (accepts r calls ≡ some r') × Matches m r')

-- The same, with whether a context is open afterwards.
abbrev Leads : Registration → Bool → ManagerResult → Type 0
Leads r opened (m, outcome, calls) =
    (outcome ≢ terminates)
    × ((r' : Registration) × (accepts r calls ≡ some r') × Matches m r' × (is_open r' ≡ opened))

survives : (b : Bool) → returns b ≢ terminates
survives b e = cc

stays :
    (r : Registration) (m : UsbDeviceManager) (b : Bool)
    → Matches m r
    → Leads r (is_open r) (m, returns b, [])
stays r m b v = (survives b, (r, steps_nil registration_step r, v, refl))

on_context_lem :
    (m : UsbDeviceManager) (c : ℕ) (call : ℕ → ContextCall)
    → m.context ≡ some c
    → on_context m call ≡ call c ∷ []
on_context_lem m c call e = rw e refl

start-Leads :
    (r : Registration) (m : UsbDeviceManager) (capable : Bool) (answer : Option ℕ)
    → Allowed (is_open r) (starting capable answer)
    → Matches m r
    → Leads r (is_open r) (start_hotplug_monitoring m capable answer)
unfolding start_hotplug_monitoring
start-Leads (registered c h) m capable answer pos v =
    branch (Leads (registered c h) true) (m.monitoring || not (has_context m)) _ _
      (λ _. stays (registered c h) m true v) (λ off. absurd (ground (arith, off, v.1)))
start-Leads shut m capable answer pos v =
    branch (Leads shut false) (m.monitoring || not (has_context m)) _ _ (λ _. stays shut m true v)
      (λ off. absurd (ground (arith, off, v.0, v.1)))
start-Leads (quiet c) m capable none pos v =
    branch (Leads (quiet c) true) (m.monitoring || not (has_context m)) _ _
      (λ _. stays (quiet c) m true v)
      (λ _.
        branch (Leads (quiet c) true) (not capable) _ _ (λ _. stays (quiet c) m true v)
          (λ _. stays (quiet c) m true v))
start-Leads (quiet c) m capable (some h) pos v =
    branch (Leads (quiet c) true) (m.monitoring || not (has_context m)) _ _
      (λ _. stays (quiet c) m true v)
      (λ _.
        branch (Leads (quiet c) true) (not capable) _ _ (λ _. stays (quiet c) m true v)
          (λ _.
            branch (Leads (quiet c) true) m.hotplug_thread _ _
              (λ old. absurd (let free = v.2 in cc))
              (λ _. (
                survives true,
                (
                  registered c h,
                  ap (accepts (quiet c)) (on_context_lem m c (λ d. call_register d h) v.0)
                      ∙ registers c h,
                  (v.0, refl, refl, refl, pos),
                  refl,
                ),
              ))))

-- What `StopHotplugMonitoring` leaves.
unfoldable silenced : Registration → Registration
silenced shut = shut
silenced (quiet c) = quiet c
silenced (registered c h) = quiet c

is_open-silenced : (r : Registration) → is_open (silenced r) ≡ is_open r
unfolding silenced
is_open-silenced shut = refl
is_open-silenced (quiet c) = refl
is_open-silenced (registered c h) = refl

stop-unmonitored :
    (m : UsbDeviceManager) → m.monitoring ≡ false → stop_hotplug_monitoring m ≡ (m, [])
unfolding stop_hotplug_monitoring
stop-unmonitored m off = ground arith

abbrev stopped : UsbDeviceManager → UsbDeviceManager
stopped m = record m { monitoring = false; hotplug_thread = false; hotplug_handle = 0 }

stop-monitored :
    (m : UsbDeviceManager) (c h : ℕ)
    → Matches m (registered c h)
    → stop_hotplug_monitoring m
      ≡ (stopped m, on_context m (λ d. call_deregister d m.hotplug_handle))
unfolding stop_hotplug_monitoring
stop-monitored m c h (up, on, thread, handle, pos) = ground arith

stop-silenced :
    (r : Registration) (m : UsbDeviceManager)
    → Matches m r
    → let (m', calls) = stop_hotplug_monitoring m in
      (accepts r calls ≡ some (silenced r)) × Matches m' (silenced r)
unfolding silenced
stop-silenced shut m v = rw (stop-unmonitored m v.1) (steps_nil registration_step shut, v)
stop-silenced (quiet c) m v = rw (stop-unmonitored m v.1) (steps_nil registration_step (quiet c), v)
stop-silenced (registered c h) m v = rw (stop-monitored m c h v) (
  ap (accepts (registered c h)) (on_context_lem m c (λ d. call_deregister d m.hotplug_handle) v.0)
      ∙ ap (λ (g : ℕ). accepts (registered c h) (call_deregister c g ∷ [])) v.3
      ∙ deregisters c h,
  (v.0, refl, refl),
)

-- The rest of `Cleanup`, for a manager without monitoring.
abbrev exiting : UsbDeviceManager → List ContextCall → ManagerResult
exiting m calls =
    if has_context m
    then (record m { context = none }, returns true, calls ++ on_context m call_exit)
    else (m, returns true, calls)

exit-quiet :
    (r : Registration) (c : ℕ) (m : UsbDeviceManager) (calls : List ContextCall)
    → accepts r calls ≡ some (quiet c)
    → Matches m (quiet c)
    → let (m', outcome, all) = exiting m calls in
      (outcome ≢ terminates) × (accepts r all ≡ some shut) × Matches m' shut
exit-quiet r c m calls e v =
    branch
      (λ (q : ManagerResult). (q.1 ≢ terminates) × (accepts r q.2 ≡ some shut) × Matches q.0 shut)
      (has_context m) _ _
      (λ _. (
        survives true,
        ap (λ (more : List ContextCall). accepts r (calls ++ more))
              (on_context_lem m c call_exit v.0)
            ∙ steps-append registration_step r (quiet c) calls (call_exit c ∷ []) e
            ∙ exits c,
        (refl, v.1, v.2),
      ))
      (λ off. absurd (ground (arith, off, v.0)))

exit-shut :
    (r q : Registration) (m : UsbDeviceManager) (calls : List ContextCall)
    → accepts r calls ≡ some (silenced q)
    → Matches m (silenced q)
    → let (m', outcome, all) = exiting m calls in
      (outcome ≢ terminates) × (accepts r all ≡ some shut) × Matches m' shut
unfolding silenced
exit-shut r shut m calls e v = rw v.0 (survives true, e, (refl, v.1, v.2))
exit-shut r (quiet c) m calls e v = exit-quiet r c m calls e v
exit-shut r (registered c h) m calls e v = exit-quiet r c m calls e v

cleanup-shut :
    (r : Registration) (m : UsbDeviceManager)
    → Matches m r
    → let (m', outcome, calls) = cleanup_manager m in
      (outcome ≢ terminates) × (accepts r calls ≡ some shut) × Matches m' shut
unfolding cleanup_manager
cleanup-shut r m v =
    let (e, w) = stop-silenced r m v in
    exit-shut r r (stop_hotplug_monitoring m).0 (stop_hotplug_monitoring m).1 e w

perform-Leads :
    (r : Registration) (m : UsbDeviceManager) (op : Operation)
    → Allowed (is_open r) op
    → Matches m r
    → Leads r (after (is_open r) op) (perform m op)
unfolding perform
perform-Leads shut m (initializing none) ok v = unfold initialize_manager in stays shut m false v
perform-Leads shut m (initializing (some c)) ok v =
    unfold initialize_manager in (survives true, (quiet c, opens c, (refl, v.1, v.2), refl))
perform-Leads (quiet c) m (initializing answer) ok v = absurd ok
perform-Leads (registered c h) m (initializing answer) ok v = absurd ok
perform-Leads r m cleaning ok v =
    let (lives, e, w) = cleanup-shut r m v in (lives, (shut, e, w, refl))
perform-Leads r m (starting capable answer) ok v = start-Leads r m capable answer ok v
perform-Leads r m stopping ok v =
    let (e, w) = stop-silenced r m v in (survives true, (silenced r, e, w, is_open-silenced r))

run-Follows :
    (r : Registration) (m : UsbDeviceManager) (ops : List Operation)
    → AllAllowed (is_open r) ops
    → Matches m r
    → Follows r (run m ops)
unfolding run
run-Follows r m [] ok v = (survives true, (r, steps_nil registration_step r, v))
run-Follows r m (op ∷ ops) (p, ok) v =
    step (perform m op) (perform-Leads r m op p v) (λ r' m' opened w.
      run-Follows r' m' ops (subst (λ (b : Bool). AllAllowed b ops) (sym opened) ok) w)
  where
    step :
        (q : ManagerResult)
        → Leads r (after (is_open r) op) q
        → ((r' : Registration) (m' : UsbDeviceManager)
            → is_open r' ≡ after (is_open r) op
            → Matches m' r'
            → Follows r' (run m' ops))
        → Follows r (
            let (m', outcome, calls) = q in
            let (m'', outcome', more) = run m' ops in
            elim outcome [
              | terminates ↦ (m', terminates, calls)
              | returns b ↦ (m'', outcome', calls ++ more)
            ])
    step (m', terminates, calls) (bad, _) rec = absurd (bad refl)
    step (m', returns b, calls) (_, (r', e, w, opened)) rec =
        let (lives, (r'', e', w')) = rec r' m' opened w in
        (lives, (r'', steps-append registration_step r r' calls (run m' ops).2 e ∙ e', w'))

-- From a new manager on, whatever sequence of `Initialize`, `StartHotplugMonitoring`,
-- `StopHotplugMonitoring` and `Cleanup` follows in which no `Initialize` is called while a context is
-- open, and whatever libusb answers with positive handles, the process is not terminated; at most one
-- context is open and at most one hotplug callback registered at a time, what is deregistered is what was
-- registered, in the context it was registered in, and the context that is given back is the one that
-- was opened, with no callback left. The thread runs exactly while a callback is registered, and a final
-- `Cleanup` gives everything back.
pub run-Registration :
    (ops : List Operation)
    → AllAllowed false ops
    → Follows shut (run usb_device_manager ops)
      × (let (m, outcome, calls) = run usb_device_manager ops in
          let (m', outcome', more) = cleanup_manager m in
          (accepts shut (calls ++ more) ≡ some shut) × Matches m' shut)
run-Registration ops ok =
    let (lives, (r, e, w)) =
      run-Follows shut usb_device_manager ops ok
        (unfold usb_device_manager in (refl, refl, refl)) in
    let (m, outcome, calls) = run usb_device_manager ops in
    let (lives', e', w') = cleanup-shut r m w in
    (
      (lives, (r, e, w)),
      (steps-append registration_step shut r calls (cleanup_manager m).2 e ∙ e', w'),
    )

-- ===== src/Receiver/Main/Signals.antt =====
-- When a signal ends the receiver, and when it is lost.
use usb_lib.Prelude.{ℕ, ◌≡◌, refl, sym, ap, ◌∙◌, List, [], ◌∷◌, ◌++◌, Bool, true, false, arith}
use usb_lib.Words.{Bytes}
use usb_lib.Socket.{Outcome, SendAnswer, SendState}
use usb_lib.Client.Connection.{UsbipClient, connect_client}
use usb_lib.Receiver.Options.{Options}
use usb_lib.Receiver.Program.{
  Program, ProgramOutcome, ended, initialize_receiver, addressed, stop, destroy_receiver, run_round,
}
use usb_lib.Receiver.Main.{
  Phase, constructing, initializing, connecting, requesting, marking, acting, looping, finishing,
  gone, aborted, hung, in_send, Machine, TickCalls, go, outcome_phase, after_initialize,
  connected_as, requested_as, listed_as, imported_as, act, asked, start_connection, tick,
  signal_handler, usb_receiver, Event, ticks, signals, run,
}

-- Before `Start` has set `running_`.
unfoldable pub is_early : Phase → Bool
is_early constructing = true
is_early initializing = true
is_early connecting = true
is_early requesting = true
is_early marking = true
is_early phase = false

-- A receiver before that point is not running.
abbrev IsQuiet : Machine → Type 0
IsQuiet m = is_early m.phase ≡ true → m.program.running ≡ false

pub stop_lem : (p : Program) → p.running ≡ false → stop p ≡ (p, ended true)
unfolding stop
stop_lem p off = ground (arith, off)

pub signal_handler_lem : (m : Machine) → m.program.running ≡ false → signal_handler m ≡ m
unfolding signal_handler outcome_phase
signal_handler_lem m off = ground (arith, stop_lem m.program off)

-- A tick that leaves `main` early began early, and left the flag.
Early : Program → Machine → Type 0
Early p m = is_early m.phase ≡ true → m.program.running ≡ p.running

after_initialize-Early :
    (p : Program) (r : Program × Bool) → r.0.running ≡ p.running → Early p (after_initialize r)
unfolding Early after_initialize
after_initialize-Early p (q, true) same e = same
after_initialize-Early p (q, false) same e = same

connected_as-Early : (p : Program) (r : UsbipClient × Outcome) → Early p (connected_as p r)
unfolding Early connected_as
connected_as-Early p r e = ground arith

requested_as-Early : (p : Program) (r : (SendState × Bytes) × ℕ) → Early p (requested_as p r)
unfolding Early requested_as
requested_as-Early p r e = ground arith

-- Behind `Start`, `main` stays there.
act_late :
    (o : Options) (p : Program) (answers : List SendAnswer)
    → is_early (act o p answers).phase ≡ false
unfolding act listed_as imported_as is_early
act_late o p answers = ground arith

outcome_late :
    (a b : Phase) (outcome : ProgramOutcome)
    → is_early a ≡ false
    → is_early b ≡ false
    → is_early (outcome_phase a b outcome) ≡ false
unfolding outcome_phase is_early
outcome_late a b outcome la lb = ground arith

initialize_keeps :
    (p : Program) (modprobe : Bool) → (initialize_receiver p modprobe).0.running ≡ p.running
unfolding initialize_receiver
initialize_keeps p modprobe = refl

start_connection-Early :
    (o : Options) (p : Program) (c : TickCalls)
    → p.running ≡ false
    → Early p (start_connection o p c.link)
unfolding start_connection Early addressed
start_connection-Early o p c off e = ground (
  arith,
  off,
  connected_as-Early p (
      connect_client p.client (addressed p o.host o.port).server_host
        (addressed p o.host o.port).server_port c.link.connect_calls c.link.ends),
)

tick_early :
    (o : Options) (c : TickCalls) (phase : Phase) (p : Program)
    → is_early (tick o (go phase p) c).phase ≡ true
    → (is_early phase ≡ true)
      × (p.running ≡ false → (tick o (go phase p) c).program.running ≡ false)
unfolding tick Early is_early
tick_early o c constructing p e = (refl, λ off. off)
tick_early o c initializing p e =
    (refl, λ off. after_initialize-Early p _ (initialize_keeps p c.modprobe) e ∙ off)
tick_early o c connecting p e = (refl, λ off. start_connection-Early o p c off e ∙ off)
tick_early o c requesting p e = (refl, λ off. requested_as-Early (asked p c.link.answers) _ e ∙ off)
tick_early o c marking p e = absurd cc
tick_early o c acting p e = absurd (let l = act_late o p c.answers in cc)
tick_early o c looping p e =
    absurd (let l = outcome_late looping (finishing 0) (run_round p c.link).1 refl refl in cc)
tick_early o c (finishing code) p e =
    absurd (let l = outcome_late (gone code) (gone code) (destroy_receiver p).1 refl refl in cc)
tick_early o c (gone code) p e = absurd cc
tick_early o c aborted p e = absurd cc
tick_early o c hung p e = absurd cc
tick_early o c in_send p e = absurd cc

unfoldable pub without_signals : List Event → List Event
without_signals [] = []
without_signals (ticks c ∷ events) = ticks c ∷ without_signals events
without_signals (signals ∷ events) = without_signals events

not_running : (sequence : ℕ) → (usb_receiver sequence).running ≡ false
unfolding usb_receiver
not_running sequence = refl

early_marking : is_early marking ≡ true
unfolding is_early
early_marking = refl

module _ (o : Options) where
  pub run-tick :
      (m : Machine) (c : TickCalls) (events : List Event)
      → run o m (ticks c ∷ events) ≡ run o (tick o m c) events
  unfolding run
  run-tick m c events = refl

  pub run_nothing : (m : Machine) → run o m [] ≡ m
  unfolding run
  run_nothing m = refl

  pub run_signal :
      (m : Machine) (events : List Event)
      → run o m (signals ∷ events) ≡ run o (signal_handler m) events
  unfolding run
  run_signal m events = refl

  -- Ticks that leave `main` early began early.
  began_early :
      (m : Machine) (events : List Event)
      → is_early (run o m (without_signals events)).phase ≡ true
      → is_early m.phase ≡ true
  unfolding without_signals run
  began_early m [] e = e
  began_early m (ticks c ∷ events) e =
      (tick_early o c m.phase m.program (began_early (tick o m c) events e)).0
  began_early m (signals ∷ events) e = began_early m events e

  run-without_signals :
      (m : Machine) (events : List Event)
      → m.program.running ≡ false
      → is_early (run o m (without_signals events)).phase ≡ true
      → (run o m events ≡ run o m (without_signals events))
        × ((run o m (without_signals events)).program.running ≡ false)
  unfolding without_signals run
  run-without_signals m [] off e = (refl, off)
  run-without_signals m (ticks c ∷ events) off e =
      run-without_signals (tick o m c) events
        ((tick_early o c m.phase m.program (began_early (tick o m c) events e)).1 off) e
  run-without_signals m (signals ∷ events) off e =
      let (same, off') = run-without_signals m events off e in
      (ap (λ (x : Machine). run o x events) (signal_handler_lem m off) ∙ same, off')

  pub run-append : (m : Machine) (xs ys : List Event) → run o m (xs ++ ys) ≡ run o (run o m xs) ys
  unfolding run
  run-append m [] ys = refl
  run-append m (ticks c ∷ xs) ys = run-append (tick o m c) xs ys
  run-append m (signals ∷ xs) ys = run-append (signal_handler m) xs ys

  -- `Start` sets the flag.
  marked :
      (m : Machine) (c : TickCalls)
      → m.phase ≡ marking
      → ((run o m (ticks c ∷ [])).phase ≡ acting)
        × ((run o m (ticks c ∷ [])).program.running ≡ true)
  unfolding run tick
  marked m c e = ground (arith, e)

  -- If the ticks among some events bring `main` from its beginning to the point before `Start` sets
  -- `running_`, then with the next tick the receiver runs, exactly as if no signal had come.
  pub run-early_signals :
      (sequence : ℕ) (events : List Event) (c : TickCalls)
      → (run o (go constructing (usb_receiver sequence)) (without_signals events)).phase ≡ marking
      → let m = go constructing (usb_receiver sequence) in
        let r = run o m (events ++ (ticks c ∷ [])) in
        (r ≡ run o m (without_signals events ++ (ticks c ∷ [])))
        × (r.phase ≡ acting)
        × (r.program.running ≡ true)
  run-early_signals sequence events c e =
      let m = go constructing (usb_receiver sequence) in
      let same =
        (run-without_signals m events (not_running sequence) (ap is_early e ∙ early_marking)).0 in
      let there = ap (λ (x : Machine). x.phase) same ∙ e in
      let (acts, runs) = marked (run o m events) c there in
      let before = run-append m events (ticks c ∷ []) in
      (
        before
            ∙ ap (λ (x : Machine). run o x (ticks c ∷ [])) same
            ∙ sym (run-append m (without_signals events) (ticks c ∷ [])),
        ap (λ (x : Machine). x.phase) before ∙ acts,
        ap (λ (x : Machine). x.program.running) before ∙ runs,
      )

-- ===== src/Client/Connection/Stopping.antt =====
-- `StopHeartbeat` of usbip_client.cpp, called by several threads at once: `Disconnect` on the program's
-- thread, and `OnNetworkConnect(false)` on the receive thread. Each access to a shared object is a step.
pub mod Once
pub mod Twice
use usb_lib.Prelude.{ℕ, ◌≡◌, ◌≢◌, Bool, true, false, ◌==◌, if◌then◌else◌}

-- Where a thread is in `StopHeartbeat`.
pub data StopPc : Type 0 where
  outside : StopPc  -- before the load of `heartbeat_running_`
  tested : StopPc  -- the load gave true
  cleared : StopPc  -- `heartbeat_running_` is stored
  joining : StopPc  -- `joinable` gave true
  finished : StopPc

-- `joinable` is that of `heartbeat_thread_`. `raced` is history: whether a thread passed the test while
-- another one had passed it and not yet stored the flag.
pub record System : Type 0 where
  pub heartbeat_running : Bool
  pub joinable : Bool
  pub pc : ℕ → StopPc
  pub raced : Bool

abbrev pub update : (ℕ → StopPc) → ℕ → StopPc → ℕ → StopPc
update pc i x j = if i == j then x else pc j

abbrev pub move : System → ℕ → StopPc → System
move s i x = record s { pc = update s.pc i x }

pub data Step (s : System) : System → Type 0 where
  finds_running :
      (i : ℕ)
      → s.pc i ≡ outside
      → s.heartbeat_running ≡ true
      → ((j : ℕ) → s.pc j ≢ tested)
      → Step s (move s i tested)
  races :
      (i j : ℕ)
      → s.pc i ≡ outside
      → s.heartbeat_running ≡ true
      → s.pc j ≡ tested
      → Step s (record (move s i tested) { raced = true })
  finds_stopped :
      (i : ℕ) → s.pc i ≡ outside → s.heartbeat_running ≡ false → Step s (move s i finished)
  clears :
      (i : ℕ) → s.pc i ≡ tested → Step s (record (move s i cleared) { heartbeat_running = false })
  finds_joinable : (i : ℕ) → s.pc i ≡ cleared → s.joinable ≡ true → Step s (move s i joining)
  finds_joined : (i : ℕ) → s.pc i ≡ cleared → s.joinable ≡ false → Step s (move s i finished)
  joins : (i : ℕ) → s.pc i ≡ joining → Step s (record (move s i finished) { joinable = false })

-- The heartbeat runs, and no thread has called `StopHeartbeat` yet.
abbrev pub beating : System
beating = record { heartbeat_running = true; joinable = true; pc = λ _. outside; raced = false }

pub data Reach : System → Type 0 where
  here : Reach beating
  next : {s t : System} → Reach s → Step s t → Reach t

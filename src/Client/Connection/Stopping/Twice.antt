-- ===== src/Client/Connection/Stopping/Twice.antt =====
-- The race of two calls of `StopHeartbeat`.
use usb_lib.Prelude.{ℕ, ◌≡◌, ◌≢◌, refl, sym, ◌∙◌, true, false, ◌==◌, branch, ==-refl, arith}
use usb_lib.Client.Connection.Stopping.{
  StopPc, tested, cleared, joining, System, update, move, Step, clears, finds_joinable,
}

-- Steps of any threads.
pub data Run (s : System) : System → Type 0 where
  stays : Run s s
  then : {t u : System} → Run s t → Step t u → Run s u

update_here : (pc : ℕ → StopPc) (i : ℕ) (x : StopPc) → update pc i x i ≡ x
update_here pc i x = rw (==-refl i) refl

update_there : (pc : ℕ → StopPc) (i j : ℕ) (x : StopPc) → i ≢ j → update pc i x j ≡ pc j
update_there pc i j x ne =
    branch (λ y. y ≡ pc j) (i == j) _ _ (λ e. absurd (ne (ground arith))) (λ _. refl)

-- If two threads have both passed the test and neither has stored the flag, and the heartbeat's thread
-- is joinable, then four steps of theirs bring both into its join at once.
pub tested-join_twice :
    (s : System) (i j : ℕ)
    → i ≢ j
    → s.pc i ≡ tested
    → s.pc j ≡ tested
    → s.joinable ≡ true
    → (t : System) × Run s t × (t.pc i ≡ joining) × (t.pc j ≡ joining)
tested-join_twice s i j ne ti tj up =
    let s1 = record (move s i cleared) { heartbeat_running = false } in
    let s2 = record (move s1 j cleared) { heartbeat_running = false } in
    let s3 = move s2 i joining in
    let at_j = update_there s.pc i j cleared ne ∙ tj in
    let at_i = update_there s1.pc j i cleared (λ e. ne (sym e)) ∙ update_here s.pc i cleared in
    let at_j2 = update_there s2.pc i j joining ne ∙ update_here s1.pc j cleared in
    (
      move s3 j joining,
      then (then (then (then stays (clears i ti)) (clears j at_j)) (finds_joinable i at_i up))
          (finds_joinable j at_j2 up),
      update_there s3.pc j i joining (λ e. ne (sym e)) ∙ update_here s2.pc i joining,
      update_here s3.pc j joining,
    )

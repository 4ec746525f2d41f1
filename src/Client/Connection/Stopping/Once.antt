-- ===== src/Client/Connection/Stopping/Once.antt =====
-- Without a race the heartbeat's thread is joined once.
use usb_lib.Prelude.{
  ℕ, ◌≡◌, ◌≢◌, refl, sym, subst, ◌∙◌, Bool, true, false, ◌==◌, branch, arith, inl, inr, ◌⊎◌,
}
use usb_lib.Client.Connection.Stopping.{
  StopPc, outside, tested, cleared, joining, finished, System, update, Step, finds_running, races,
  finds_stopped, clears, finds_joinable, finds_joined, joins, Reach, here, next,
}

-- Past the test with the result true, and not yet at the end.
abbrev IsInside : StopPc → Type 0
IsInside x = (x ≡ tested) ⊎ ((x ≡ cleared) ⊎ (x ≡ joining))

-- As long as there was no race, at most one thread is inside; while the flag is set it has only tested it, and
-- no thread is finished.
record IsOrderly (s : System) : Type 0 where
  alone : s.raced ≡ false → (i j : ℕ) → IsInside (s.pc i) → IsInside (s.pc j) → i ≡ j
  early : s.heartbeat_running ≡ true → (i : ℕ) → (s.pc i ≡ outside) ⊎ (s.pc i ≡ tested)

-- A thread of the updated family is the one that moved, or stands where it stood.
update_cases :
    (P : StopPc → Type 0) (pc : ℕ → StopPc) (i : ℕ) (x : StopPc) (a : ℕ)
    → (i ≡ a → P x)
    → P (pc a)
    → P (update pc i x a)
update_cases P pc i x a moved same = branch P (i == a) _ _ (λ e. moved (ground arith)) (λ _. same)

-- Back from an updated family.
IsInside-back :
    (pc : ℕ → StopPc) (i : ℕ) (x : StopPc) (a : ℕ)
    → (IsInside x → IsInside (pc i))
    → IsInside (update pc i x a)
    → IsInside (pc a)
IsInside-back pc i x a f =
    update_cases (λ y. IsInside y → IsInside (pc a)) pc i x a
      (λ e u. subst (λ k. IsInside (pc k)) e (f u)) (λ u. u)

-- A step that takes no thread inside.
moved :
    {s : System} (i : ℕ) (x : StopPc) (running joinable : Bool)
    → IsOrderly s
    → (IsInside x → IsInside (s.pc i))
    → running ≢ true
    → IsOrderly
        (record s { heartbeat_running = running; joinable = joinable; pc = update s.pc i x })
moved {s} i x running joinable v f off = record {
  alone = λ calm a b u w.
      v.alone calm a b (IsInside-back s.pc i x a f u) (IsInside-back s.pc i x b f w);
  early = λ on. absurd (off on);
}

not_running :
    {s : System} (i : ℕ) (x : StopPc)
    → IsOrderly s
    → s.pc i ≡ x
    → outside ≢ x
    → tested ≢ x
    → s.heartbeat_running ≢ true
not_running i x v e a b on = elim (v.early on i) [ inl o ↦ a (sym o ∙ e) | inr o ↦ b (sym o ∙ e) ]

finished_outside : IsInside finished → ⊥
finished_outside (inl e) = cc
finished_outside (inr (inl e)) = cc
finished_outside (inr (inr e)) = cc

outside_inside : (x : StopPc) → x ≡ outside → IsInside x → ⊥
outside_inside x o (inl e) = cc
outside_inside x o (inr (inl e)) = cc
outside_inside x o (inr (inr e)) = cc

Step-IsOrderly : {s t : System} → Step s t → IsOrderly s → IsOrderly t
Step-IsOrderly {s} (finds_running i o on none_tested) v = record {
  alone = λ calm a b u w. sym (is_i a u) ∙ is_i b w;
  early = λ _ a.
      update_cases (λ y. (y ≡ outside) ⊎ (y ≡ tested)) s.pc i tested a (λ _. inr refl)
        (v.early on a);
}
  where
    still : (a : ℕ) → s.pc a ≡ outside
    still a = elim (v.early on a) [ inl e ↦ e | inr e ↦ absurd (none_tested a e) ]

    is_i : (a : ℕ) → IsInside (update s.pc i tested a) → i ≡ a
    is_i a =
        update_cases (λ y. IsInside y → i ≡ a) s.pc i tested a (λ e _. e)
          (λ u. absurd (outside_inside (s.pc a) (still a) u))
Step-IsOrderly {s} (races i j o on e) v = record {
  alone = λ calm a b u w. absurd cc;
  early = λ _ a.
      update_cases (λ y. (y ≡ outside) ⊎ (y ≡ tested)) s.pc i tested a (λ _. inr refl)
        (v.early on a);
}
Step-IsOrderly {s} (finds_stopped i o off) v =
    moved i finished s.heartbeat_running s.joinable v (λ u. absurd (finished_outside u)) (λ on. cc)
Step-IsOrderly {s} (clears i e) v = moved i cleared false s.joinable v (λ _. inl e) (λ on. cc)
Step-IsOrderly {s} (finds_joinable i e up) v =
    moved i joining s.heartbeat_running s.joinable v (λ _. inr (inl e))
      (not_running i cleared v e (λ x. cc) (λ x. cc))
Step-IsOrderly {s} (finds_joined i e up) v =
    moved i finished s.heartbeat_running s.joinable v (λ u. absurd (finished_outside u))
      (not_running i cleared v e (λ x. cc) (λ x. cc))
Step-IsOrderly {s} (joins i e) v =
    moved i finished s.heartbeat_running false v (λ u. absurd (finished_outside u))
      (not_running i joining v e (λ x. cc) (λ x. cc))

Reach-IsOrderly : {s : System} → Reach s → IsOrderly s
Reach-IsOrderly here = record {
  alone = λ _ a b u w. absurd (outside_inside outside refl u);
  early = λ _ a. inl refl;
}
Reach-IsOrderly (next r st) = Step-IsOrderly st (Reach-IsOrderly r)

-- In every state that any number of threads reach with their calls of `StopHeartbeat`, unless a thread
-- has passed the test of the flag while another one had passed it and not yet cleared it, two threads
-- that join the heartbeat's thread are the same.
pub Reach-joins_once :
    {s : System}
    → Reach s
    → s.raced ≡ false
    → (i j : ℕ) → s.pc i ≡ joining
    → s.pc j ≡ joining
    → i ≡ j
Reach-joins_once r calm i j e f = (Reach-IsOrderly r).alone calm i j (inr (inr e)) (inr (inr f))

-- ===== src/Scheduling/Progress.antt =====
-- What a lock that is given back, or not, does to the ticks that come after.
use forecast_e_zoo.Common.{
  ℕ, ◌+◌, ◌≡◌, ◌≢◌, refl, ◌∙◌, inl, inr, Bool, true, false, none, some, Option-cases, List, [], ◌∷◌,
  arith,
}
use forecast_e_zoo.Scheduling.{
  Phase, pooled, Holder, World, try_advisory_lock, advisory_unlock, next_call, tick_step,
  run_schedule,
}
use forecast_e_zoo.Scheduling.Exclusion.{
  IsExclusive, IsReleased, next_call-IsExclusive, run_schedule-IsReleased, unlocks_served, start,
  start-IsExclusive, start-IsReleased,
}

free_lock : (w : World) → IsReleased w → ((d : ℕ) → w.phase d ≡ pooled) → w.lock ≡ none
free_lock w r idle = elim (Option-cases w.lock) [
  | inl e ↦ e
  | inr (h, e) ↦ absurd (ground (arith, r h e, idle h.conn))
]

-- One tick, with no call refused.
abbrev pub whole_tick : ℕ → List (ℕ × Bool)
whole_tick c = (c, false) ∷ (c, false) ∷ (c, false) ∷ (c, false) ∷ (c, false) ∷ []

whole_tick_runs :
    (c : ℕ) (w : World)
    → w.lock ≡ none
    → w.phase c ≡ pooled
    → ((run_schedule (whole_tick c) w).runs ≡ w.runs + 1)
      × ((run_schedule (whole_tick c) w).lock ≡ none)
      × ((run_schedule (whole_tick c) w).phase c ≡ pooled)
unfolding run_schedule tick_step next_call try_advisory_lock advisory_unlock
whole_tick_runs c w e p = ground arith

-- After any schedule that no refused unlock is in, once every connection is back in its pool, the next
-- tick, on any connection, gets the lock, runs the job once and gives the lock back.
pub run_schedule_progress :
    (calls : List (ℕ × Bool)) (c : ℕ)
    → unlocks_served calls start ≡ true
    → ((d : ℕ) → (run_schedule calls start).phase d ≡ pooled)
    → let w = run_schedule calls start in
      let w' = run_schedule (whole_tick c) w in
      (w'.runs ≡ w.runs + 1) × (w'.lock ≡ none) × (w'.phase c ≡ pooled)
run_schedule_progress calls c n idle =
    let r = run_schedule-IsReleased calls start start-IsExclusive start-IsReleased n in
    whole_tick_runs c (run_schedule calls start) (free_lock (run_schedule calls start) r idle)
      (idle c)

-- The calls of the schedule are on other connections than this one.
abbrev pub Elsewhere : ℕ → List (ℕ × Bool) → Type 0
Elsewhere k [] = Unit
Elsewhere k ((c, fails) ∷ rest) = (c ≢ k) × Elsewhere k rest

next_call_blocked :
    (h : Holder) (c : ℕ) (fails : Bool) (p : Phase) (w : World)
    → w.phase c ≡ p
    → IsExclusive w
    → w.lock ≡ some h
    → c ≢ h.conn
    → ((next_call c fails p w).lock ≡ some h) × ((next_call c fails p w).runs ≡ w.runs)
unfolding next_call try_advisory_lock advisory_unlock
next_call_blocked h c fails p w e v l n = ground (arith, v c)

-- Where a session holds the lock, also with its connection back in the pool after a refused unlock,
-- no tick on another connection starts a run, however many are made: only that session can.
pub run_schedule_blocked :
    (h : Holder) (calls : List (ℕ × Bool)) (w : World)
    → IsExclusive w
    → w.lock ≡ some h
    → Elsewhere h.conn calls
    → ((run_schedule calls w).lock ≡ some h) × ((run_schedule calls w).runs ≡ w.runs)
unfolding run_schedule
run_schedule_blocked h [] w v l e = (l, refl)
run_schedule_blocked h ((c, fails) ∷ rest) w v l e =
    let now = next_call_blocked h c fails (w.phase c) w refl v l e.0 in
    let later =
      run_schedule_blocked h rest (tick_step c fails w)
        (next_call-IsExclusive c fails w (w.phase c) refl v) now.0 e.1 in
    (later.0, later.1 ∙ now.1)

-- ===== src/Examples/Scheduling.antt =====
-- Two ticks of one job on two connections.
use forecast_e_zoo.Common.{ℕ, ◌+◌, ◌≡◌, refl, Bool, true, false, none, some, List, [], ◌∷◌, arith}
use forecast_e_zoo.Scheduling.{
  pooled, Holder, World, try_advisory_lock, advisory_unlock, next_call, tick_step, run_schedule,
}
use forecast_e_zoo.Scheduling.Exclusion.{
  IsExclusive, holds_lock, unlocks_served, start, run_schedule_exclusion,
}
use forecast_e_zoo.Scheduling.Progress.{whole_tick, run_schedule_progress, run_schedule_blocked}

-- Both acquire a connection; the first gets the lock, and the second is refused.
abbrev racing : List (ℕ × Bool)
racing = (1, false) ∷ (2, false) ∷ (1, false) ∷ (2, false) ∷ []

-- The rest of the first tick.
abbrev raced : List (ℕ × Bool)
raced = (1, false) ∷ (2, false) ∷ (1, false) ∷ (2, false) ∷ (1, true) ∷ (1, false) ∷ (1, false) ∷ []

first_holds : holds_lock ((run_schedule racing start).phase 1) ≡ true
unfolding run_schedule tick_step next_call try_advisory_lock
first_holds = refl

run_schedule_exclusion_example : ◌≡◌ {A = ℕ} 1 1
run_schedule_exclusion_example = run_schedule_exclusion racing 1 1 first_holds first_holds

raced_served : unlocks_served raced start ≡ true
unfolding unlocks_served tick_step next_call try_advisory_lock advisory_unlock
raced_served = refl

raced_idle : (d : ℕ) → (run_schedule raced start).phase d ≡ pooled
unfolding run_schedule tick_step next_call try_advisory_lock advisory_unlock
raced_idle d = ground arith

run_schedule_progress_example :
    let w = run_schedule raced start in
    let w' = run_schedule (whole_tick 2) w in
    (w'.runs ≡ w.runs + 1) × (w'.lock ≡ none) × (w'.phase 2 ≡ pooled)
run_schedule_progress_example = run_schedule_progress raced 2 raced_served raced_idle

-- The unlock of connection 1 was refused: it is in the pool, with the lock.
abbrev held : Holder
held = record { conn = 1; again = 0 }

abbrev left_locked : World
left_locked = record start { lock = some held }

left_locked-IsExclusive : IsExclusive left_locked
left_locked-IsExclusive c h = cc

refused_leaves_lock :
    (run_schedule ((1, false) ∷ (1, false) ∷ (1, false) ∷ (1, true) ∷ (1, false) ∷ []) start).lock
    ≡ some held
unfolding run_schedule tick_step next_call try_advisory_lock
refused_leaves_lock = refl

run_schedule_blocked_example :
    ((run_schedule (whole_tick 2) left_locked).lock ≡ some held)
    × ((run_schedule (whole_tick 2) left_locked).runs ≡ left_locked.runs)
run_schedule_blocked_example =
    run_schedule_blocked held (whole_tick 2) left_locked left_locked-IsExclusive refl
      (omega arith, (omega arith, (omega arith, (omega arith, (omega arith, tt)))))

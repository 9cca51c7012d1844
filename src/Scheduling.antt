-- ===== src/Scheduling.antt =====
-- The ticks of the features' schedulers (internal/features/forecast/scheduler/scheduler.go; orders,
-- channels and kpi have the same calls): a job of which only one may run in all processes, under a
-- session-level advisory lock of PostgreSQL. Ticks run at the same time, each on a connection of its
-- pool; a schedule says which of them makes its next call, and whether that call fails.
pub mod Exclusion
pub mod Progress
use forecast_e_zoo.Common.{
  ℕ, zero, suc, ◌+◌, ◌==◌, Bool, true, false, Option, none, some, List, [], ◌∷◌, if◌then◌else◌,
}

-- Where a tick stands on a connection: in the pool; acquired; holding the lock, before its run;
-- with the deferred unlock to do; with the deferred release to do.
pub data Phase : Type 0 where
  pooled acquired locked finished unlocked : Phase

-- A session that holds the lock, and how often: the server counts the calls of one session.
pub record Holder : Type 0 where
  pub conn : ℕ
  pub again : ℕ  -- the calls after the first

-- The counters of TickMetric and LockBusyMetric.
pub record Metrics : Type 0 where
  pub skipped : ℕ
  pub failed : ℕ
  pub succeeded : ℕ
  pub lock_busy : ℕ

pub record World : Type 0 where
  pub phase : ℕ → Phase
  pub lock : Option Holder
  pub metrics : Metrics
  pub runs : ℕ  -- the jobs that were started

abbrev pub set_phase : ℕ → Phase → (ℕ → Phase) → ℕ → Phase
set_phase c p phase d = if c == d then p else phase d

abbrev pub move : ℕ → Phase → World → World
move c p w = record w { phase = set_phase c p w.phase }

-- SELECT pg_try_advisory_lock(key) on connection c: the new holder, if it gets the lock.
unfoldable pub try_advisory_lock : ℕ → Option Holder → Option Holder
try_advisory_lock c none = some (record { conn = c; again = 0 })
try_advisory_lock c (some h) = if h.conn == c then some (record h { again = suc h.again }) else none

-- SELECT pg_advisory_unlock(key) on connection c.
unfoldable pub advisory_unlock : ℕ → Option Holder → Option Holder
advisory_unlock c none = none
advisory_unlock c (some h) =
    if h.conn == c
    then elim h.again [ zero ↦ none | suc n ↦ some (record h { again = n }) ]
    else some h

abbrev pub count_skipped : World → World
count_skipped w = record w {
  metrics = record (w.metrics) {
    skipped = w.metrics.skipped + 1;
    lock_busy = w.metrics.lock_busy + 1;
  };
}

abbrev pub count_run : Bool → World → World
count_run fails w = record w {
  runs = w.runs + 1;
  metrics =
      if fails
      then record (w.metrics) { failed = w.metrics.failed + 1 }
      else record (w.metrics) { succeeded = w.metrics.succeeded + 1 };
}

-- The next call of the tick on connection c; a call that fails does nothing at the server.
abbrev pub attempt_lock : ℕ → World → Option Holder → World
attempt_lock c w none = count_skipped (move c pooled w)
attempt_lock c w (some h) = record (move c locked w) { lock = some h }

unfoldable pub next_call : ℕ → Bool → Phase → World → World
unfolding try_advisory_lock advisory_unlock
next_call c fails pooled w = if fails then w else move c acquired w
next_call c fails acquired w =
    if fails then move c pooled w else attempt_lock c w (try_advisory_lock c w.lock)
next_call c fails locked w = count_run fails (move c finished w)
next_call c fails finished w =
    if fails
    then move c unlocked w
    else record (move c unlocked w) { lock = advisory_unlock c w.lock }
next_call c fails unlocked w = move c pooled w

unfoldable pub tick_step : ℕ → Bool → World → World
unfolding next_call
tick_step c fails w = next_call c fails (w.phase c) w

-- A schedule: the connection that is served next, and whether its call fails.
unfoldable pub run_schedule : List (ℕ × Bool) → World → World
unfolding tick_step
run_schedule [] w = w
run_schedule ((c, fails) ∷ rest) w = run_schedule rest (tick_step c fails w)

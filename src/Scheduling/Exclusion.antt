-- ===== src/Scheduling/Exclusion.antt =====
-- At most one run at a time, and no lock left behind.
use forecast_e_zoo.Common.{
  ℕ, ◌==◌, ◌≡◌, refl, inl, inr, Bool, true, false, Option, none, some, Option-cases, List, [], ◌∷◌,
  if◌then◌else◌, arith,
}
use forecast_e_zoo.Scheduling.{
  Phase, pooled, acquired, locked, finished, unlocked, Holder, World, try_advisory_lock,
  advisory_unlock, next_call, tick_step, run_schedule,
}

-- A tick is in its run, or past it with the lock not yet given back.
abbrev pub holds_lock : Phase → Bool
holds_lock pooled = false
holds_lock acquired = false
holds_lock locked = true
holds_lock finished = true
holds_lock unlocked = false

abbrev pub owns : ℕ → Option Holder → Bool
owns c none = false
owns c (some h) = h.conn == c

-- Whoever holds the lock by its phase is the holder that the server knows.
abbrev pub IsExclusive : World → Type 0
IsExclusive w = (c : ℕ) → holds_lock (w.phase c) ≡ true → owns c w.lock ≡ true

-- The server knows of no holder but a tick that holds the lock, once.
abbrev pub IsReleased : World → Type 0
IsReleased w = (h : Holder) → w.lock ≡ some h → (holds_lock (w.phase h.conn) ≡ true) × (h.again ≡ 0)

module _ (c : ℕ) (fails : Bool) (w : World) where
  pub next_call-IsExclusive :
      (p : Phase) → w.phase c ≡ p → IsExclusive w → IsExclusive (next_call c fails p w)
  unfolding next_call try_advisory_lock advisory_unlock
  next_call-IsExclusive pooled e v d h = ground (arith, v d)
  next_call-IsExclusive acquired e v d h = elim (Option-cases w.lock) [
    | inl q ↦ ground (arith, v d)
    | inr (k, q) ↦ ground (arith, v d)
  ]
  next_call-IsExclusive locked e v d h = ground (arith, v d, v c)
  next_call-IsExclusive finished e v d h = elim (Option-cases w.lock) [
    | inl q ↦ ground (arith, v d, v c)
    | inr (k, q) ↦ ground (arith, v d, v c)
  ]
  next_call-IsExclusive unlocked e v d h = ground (arith, v d)

  next_call-IsReleased :
      (p : Phase)
      → w.phase c ≡ p
      → (p ≡ finished → fails ≡ false)
      → IsExclusive w
      → IsReleased w
      → IsReleased (next_call c fails p w)
  unfolding next_call try_advisory_lock advisory_unlock
  next_call-IsReleased pooled e n x v h q = ground (arith, v h)
  next_call-IsReleased acquired e n x v h q = elim (Option-cases w.lock) [
    | inl r ↦ ground (arith, v h)
    | inr (k, r) ↦ ground (arith, v h, v k)
  ]
  next_call-IsReleased locked e n x v h q = ground (arith, v h)
  next_call-IsReleased finished e n x v h q = elim (Option-cases w.lock) [
    | inl r ↦ ground (arith, v h, n refl)
    | inr (k, r) ↦ ground (arith, v h, v k, n refl, x c)
  ]
  next_call-IsReleased unlocked e n x v h q = ground (arith, v h, x c)

abbrev pub refused_unlock : Phase → Bool → Bool
refused_unlock pooled fails = false
refused_unlock acquired fails = false
refused_unlock locked fails = false
refused_unlock finished fails = fails
refused_unlock unlocked fails = false

-- No unlock of the schedule is refused.
unfoldable pub unlocks_served : List (ℕ × Bool) → World → Bool
unfolding tick_step
unlocks_served [] w = true
unlocks_served ((c, fails) ∷ rest) w =
    let later = unlocks_served rest (tick_step c fails w) in
    if refused_unlock (w.phase c) fails then false else later

run_schedule-IsExclusive :
    (calls : List (ℕ × Bool)) (w : World) → IsExclusive w → IsExclusive (run_schedule calls w)
unfolding run_schedule
run_schedule-IsExclusive [] w v = v
run_schedule-IsExclusive ((c, fails) ∷ rest) w v =
    run_schedule-IsExclusive rest (tick_step c fails w)
      (next_call-IsExclusive c fails w (w.phase c) refl v)

pub run_schedule-IsReleased :
    (calls : List (ℕ × Bool)) (w : World)
    → IsExclusive w
    → IsReleased w
    → unlocks_served calls w ≡ true
    → IsReleased (run_schedule calls w)
unfolding run_schedule unlocks_served
run_schedule-IsReleased [] w v r n = r
run_schedule-IsReleased ((c, fails) ∷ rest) w v r n =
    run_schedule-IsReleased rest (tick_step c fails w)
      (next_call-IsExclusive c fails w (w.phase c) refl v)
      (next_call-IsReleased c fails w (w.phase c) refl (λ e. ground arith) v r) (ground arith)

-- All connections in their pools, and no lock.
abbrev pub start : World
start = record {
  phase = λ c. pooled;
  lock = none;
  metrics = record { skipped = 0; failed = 0; succeeded = 0; lock_busy = 0 };
  runs = 0;
}

pub start-IsExclusive : IsExclusive start
start-IsExclusive c h = cc

pub start-IsReleased : IsReleased start
start-IsReleased h q = cc

owner_unique : (c d : ℕ) (l : Option Holder) → owns c l ≡ true → owns d l ≡ true → c ≡ d
owner_unique c d none h k = cc
owner_unique c d (some o) h k = ground arith

-- Whatever the schedule, and whichever calls fail, no two ticks hold the lock at the same time: two
-- that do are on one connection.
pub run_schedule_exclusion :
    (calls : List (ℕ × Bool)) (c d : ℕ)
    → holds_lock ((run_schedule calls start).phase c) ≡ true
    → holds_lock ((run_schedule calls start).phase d) ≡ true
    → c ≡ d
run_schedule_exclusion calls c d h k =
    let v = run_schedule-IsExclusive calls start start-IsExclusive in
    owner_unique c d (run_schedule calls start).lock (v c h) (v d k)

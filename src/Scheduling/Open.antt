-- ===== src/Scheduling/Open.antt =====
-- `_run_open`: arrivals on a timetable, whatever the target is doing. `gap` is the time to the next
-- arrival, drawn from a seeded stream or the mean; a task that ends is an event of its own.
use Prim.Native.Nat.{max}
use regulator.Prelude.{
  ℕ, suc, ◌+◌, ◌-◌, ◌*◌, ◌/◌, Bool, true, false, List, [], ◌∷◌, ◌==◌, ltb, leb, if◌then◌else◌,
}
use regulator.Results.Run.{RunStats, record_loop_lag}

abbrev pub max_catchup : ℕ
max_catchup = 30_000

pub record Open : Type 0 where
  pub next_arrival : ℕ
  pub idle : Bool
  pub in_flight : ℕ
  pub issued : ℕ
  pub shed : ℕ
  pub skipped : ℕ
  pub iteration : ℕ
  pub peak : ℕ
  pub stats : RunStats

unfoldable pub open_run : ℕ → RunStats → Open
open_run t0 stats = record {
  next_arrival = t0;
  idle = true;
  in_flight = 0;
  issued = 0;
  shed = 0;
  skipped = 0;
  iteration = 0;
  peak = 0;
  stats = stats;
}

-- An arrival with room for it: how late it is counts as the loop's lag, in microseconds.
unfoldable pub issue : ℕ → Open → Open
unfolding record_loop_lag
issue now s = record s {
  stats = record_loop_lag ((now - s.next_arrival) * 1000) s.stats;
  in_flight = suc s.in_flight;
  issued = suc s.issued;
  peak = max s.peak (suc s.in_flight);
}

-- The next arrival; one that is far overdue is skipped with those that were due by now.
unfoldable pub advance : ℕ → ℕ → ℕ → Open → Open
advance now rate gap s =
    let next = s.next_arrival + gap in
    if ltb (next + max_catchup) now
    then record s {
      next_arrival = now;
      skipped = s.skipped + (now - next) * rate / 60_000;
      iteration = suc s.iteration;
    }
    else record s { next_arrival = next; iteration = suc s.iteration }

unfoldable pub arrive : ℕ → ℕ → ℕ → ℕ → Open → Open
unfolding issue advance
arrive limit now rate gap s =
    advance now rate gap
      (if leb limit s.in_flight then record s { shed = suc s.shed } else issue now s)

-- if idle: next_arrival = now
unfoldable pub wake : ℕ → Open → Open
wake now s = if s.idle then record s { next_arrival = now; idle = false } else s

-- One pass of the loop that is neither paused nor over, at `rate` arrivals a minute.
unfoldable pub pass : ℕ → ℕ → ℕ → ℕ → Open → Open
unfolding wake arrive
pass limit now rate gap s =
    if rate == 0
    then record s { idle = true }
    else let woken = wake now s in
      if ltb now woken.next_arrival then woken else arrive limit now rate gap woken

pub data Turn : Type 0 where
  passed : (now rate gap : ℕ) → Turn
  held task_done : Turn

-- A pass, a pause that was waited out, or the end of a task.
unfoldable pub turn : ℕ → Turn → Open → Open
unfolding pass
turn limit (passed now rate gap) s = pass limit now rate gap s
turn limit held s = record s { idle = true }
turn limit task_done s = record s { in_flight = s.in_flight - 1 }

unfoldable pub turns : ℕ → List Turn → Open → Open
unfolding turn
turns limit [] s = s
turns limit (t ∷ rest) s = turns limit rest (turn limit t s)

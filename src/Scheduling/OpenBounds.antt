-- ===== src/Scheduling/OpenBounds.antt =====
-- The books of the open model: the ceiling, and where each arrival of the timetable went.
use regulator.Prelude.{
  ℕ, ◌+◌, ◌≤◌, ◌<◌, ◌≡◌, refl, arith, false, List, [], ◌∷◌, ◌==◌, ltb, Bool-cases, inl, inr,
}
use regulator.Results.Run.{RunStats}
use regulator.Scheduling.Open.{
  Open, open_run, issue, advance, arrive, wake, pass, Turn, passed, held, task_done, turn, turns,
  max_catchup,
}

-- Each arrival is issued or shed, and no more run than the ceiling allows.
abbrev pub AreBooks : ℕ → Open → Type 0
AreBooks limit s =
    (s.in_flight ≤ limit)
    × (s.in_flight ≤ s.peak)
    × (s.peak ≤ limit)
    × (s.peak ≤ s.issued)
    × (s.issued + s.shed ≡ s.iteration)

arrive-AreBooks :
    (limit now rate gap : ℕ) (s : Open)
    → AreBooks limit s
    → AreBooks limit (arrive limit now rate gap s)
unfolding arrive issue advance
arrive-AreBooks limit now rate gap s (a, b, c, d, e) = ground arith

wake-AreBooks : (limit now : ℕ) (s : Open) → AreBooks limit s → AreBooks limit (wake now s)
unfolding wake
wake-AreBooks limit now s h = elim (Bool-cases s.idle) [ inl i ↦ rw i h | inr i ↦ rw i h ]

pass-AreBooks :
    (limit now rate gap : ℕ) (s : Open)
    → AreBooks limit s
    → AreBooks limit (pass limit now rate gap s)
unfolding pass
pass-AreBooks limit now rate gap s h = elim (Bool-cases (rate == 0)) [
  | inl z ↦ rw z h
  | inr z ↦ elim (Bool-cases (ltb now (wake now s).next_arrival)) [
    | inl early ↦ rw (z, early) (wake-AreBooks limit now s h)
    | inr due ↦
        rw (z, due) (arrive-AreBooks limit now rate gap (wake now s) (wake-AreBooks limit now s h))
  ]
]

turn-AreBooks :
    (limit : ℕ) (t : Turn) (s : Open) → AreBooks limit s → AreBooks limit (turn limit t s)
unfolding turn
turn-AreBooks limit (passed now rate gap) s h = pass-AreBooks limit now rate gap s h
turn-AreBooks limit held s h = h
turn-AreBooks limit task_done s (a, b, c, d, e) = (omega (arith, a), omega (arith, b), c, d, e)

turns-AreBooks-from :
    (limit : ℕ) (ts : List Turn) (s : Open) → AreBooks limit s → AreBooks limit (turns limit ts s)
unfolding turns
turns-AreBooks-from limit [] s h = h
turns-AreBooks-from limit (t ∷ ts) s h =
    turns-AreBooks-from limit ts (turn limit t s) (turn-AreBooks limit t s h)

-- A pass at a positive rate leaves the timetable no further behind than the limit for catching up, and
-- one that skips arrivals goes on from now.
abbrev pub KeepsUp : ℕ → ℕ → ℕ → Open → Type 0
KeepsUp limit now rate s =
    (gap : ℕ)
    → (rate == 0) ≡ false
    → (now ≤ (pass limit now rate gap s).next_arrival + max_catchup)
      × (s.skipped < (pass limit now rate gap s).skipped
          → (pass limit now rate gap s).next_arrival ≡ now)

pass-KeepsUp : (limit now rate : ℕ) (s : Open) → KeepsUp limit now rate s
unfolding pass wake arrive advance issue
pass-KeepsUp limit now rate s gap h = (ground (arith, h), λ less. ground (arith, h, less))

-- Through any passes, pauses and ends of tasks the open model has no more arrivals in flight than its
-- ceiling, its peak is no more than the ceiling and than the arrivals it issued, and each arrival that
-- it took up was issued or counted as shed. What it does not take up it skips: a pass at a positive rate
-- that skips arrivals goes on from now, and none leaves the timetable further behind than the limit.
pub turns-AreBooks :
    (limit t0 : ℕ) (stats : RunStats) (ts : List Turn)
    → AreBooks limit (turns limit ts (open_run t0 stats))
      × ((now rate : ℕ) → KeepsUp limit now rate (turns limit ts (open_run t0 stats)))
unfolding open_run
turns-AreBooks limit t0 stats ts = (
  turns-AreBooks-from limit ts (open_run t0 stats)
      (omega arith, omega arith, omega arith, omega arith, refl),
  λ now rate. pass-KeepsUp limit now rate (turns limit ts (open_run t0 stats)),
)

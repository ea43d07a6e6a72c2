-- ===== src/Control/Books.antt =====
-- The scheduler's books of its pauses: whatever calls come, the paused time that it reports is that
-- of the pauses it has listed, where one that was on as the run began counts from then.
use regulator.Prelude.{
  ℕ, ◌+◌, ◌-◌, ◌≡◌, refl, ap, ◌∙◌, sym, Bool, true, false, Option, none, some, List, [], ◌∷◌, ◌++◌,
  arith, some-eq, any,
}
use regulator.Fleet.Plan.{LoadModel}
use regulator.Fleet.Leases.Handlers.{is_some}
use regulator.Control.{
  Scheduler, pause_from, apply_pause, close_last, stats_more, resume_since, apply_resume,
  apply_load,
}
use regulator.Control.Calls.{
  Call, fresh, anchor_from, begin_run, perform, performed, length_of, closed_sum, open_at,
  is_stopping, anchor_last, counted, without_starts, pausing, resuming, loading, starting, stopping,
}

pub record IsBooked (calls : List Call) (s : Scheduler) : Type 0 where
  pub total : s.stats_paused ≡ closed_sum (counted calls)
  pub current : s.stats_paused_since ≡ open_at (counted calls)
  pub listed : s.pauses ≡ counted (without_starts calls)
  pub together : is_some s.paused_since ≡ is_some s.stats_paused_since
  pub same_open : is_some (open_at s.pauses) ≡ is_some s.stats_paused_since
  pub stops : s.stopping ≡ any is_stopping calls

close_sum :
    (wall since : ℕ) (ps : List (ℕ × Option ℕ))
    → open_at ps ≡ some since
    → closed_sum (close_last wall ps) ≡ closed_sum ps + (wall - since)
unfolding open_at closed_sum close_last
close_sum wall since [] e = cc
close_sum wall since ((a, none) ∷ []) e = let q : a ≡ since = some-eq e in omega (arith, q)
close_sum wall since ((a, some r) ∷ []) e = cc
close_sum wall since (p ∷ q ∷ rest) e = omega (arith, close_sum wall since (q ∷ rest) e)

close_open : (wall : ℕ) (ps : List (ℕ × Option ℕ)) → open_at (close_last wall ps) ≡ none
unfolding open_at close_last
close_open wall [] = refl
close_open wall (p ∷ []) = refl
close_open wall (p ∷ q ∷ []) = refl
close_open wall (p ∷ q ∷ r ∷ rest) = close_open wall (q ∷ r ∷ rest)

append_sum :
    (wall : ℕ) (ps : List (ℕ × Option ℕ)) → closed_sum (ps ++ (wall, none) ∷ []) ≡ closed_sum ps
unfolding closed_sum
append_sum wall [] = refl
append_sum wall (p ∷ rest) = ap (λ n. length_of p + n) (append_sum wall rest)

append_open : (wall : ℕ) (ps : List (ℕ × Option ℕ)) → open_at (ps ++ (wall, none) ∷ []) ≡ some wall
unfolding open_at
append_open wall [] = refl
append_open wall (p ∷ []) = refl
append_open wall (p ∷ q ∷ rest) = append_open wall (q ∷ rest)

anchor_sum :
    (wall : ℕ) (ps : List (ℕ × Option ℕ)) → closed_sum (anchor_last wall ps) ≡ closed_sum ps
unfolding anchor_last closed_sum
anchor_sum wall [] = refl
anchor_sum wall ((a, none) ∷ []) = refl
anchor_sum wall ((a, some r) ∷ []) = refl
anchor_sum wall (p ∷ q ∷ rest) = ap (λ n. length_of p + n) (anchor_sum wall (q ∷ rest))

-- The pause that is on, moved to the start.
abbrev moved : ℕ → Option ℕ → Option ℕ
moved wall none = none
moved wall (some since) = some wall

anchor_open :
    (wall : ℕ) (ps : List (ℕ × Option ℕ)) → open_at (anchor_last wall ps) ≡ moved wall (open_at ps)
unfolding anchor_last open_at
anchor_open wall [] = refl
anchor_open wall ((a, none) ∷ []) = refl
anchor_open wall ((a, some r) ∷ []) = refl
anchor_open wall (p ∷ (a, none) ∷ []) = refl
anchor_open wall (p ∷ (a, some r) ∷ []) = refl
anchor_open wall (p ∷ q ∷ r ∷ rest) = anchor_open wall (q ∷ r ∷ rest)

stats_sum :
    (wall : ℕ) (o : Option ℕ) (paused : ℕ) (ps : List (ℕ × Option ℕ))
    → is_some o ≡ true
    → open_at ps ≡ o
    → paused ≡ closed_sum ps
    → stats_more wall o paused ≡ closed_sum (close_last wall ps)
unfolding stats_more
stats_sum wall none paused ps h e q = cc
stats_sum wall (some since) paused ps h e q = omega (arith, close_sum wall since ps e, q)

none_of : (o : Option ℕ) → is_some o ≡ false → o ≡ none
none_of none h = refl
none_of (some n) h = cc

moved-some : (wall : ℕ) (o : Option ℕ) → is_some o ≡ true → moved wall o ≡ some wall
moved-some wall none h = cc
moved-some wall (some n) h = refl

stopping_without :
    (calls : List Call) → any is_stopping (without_starts calls) ≡ any is_stopping calls
stopping_without [] = refl
stopping_without (pausing tick wall ∷ before) = stopping_without before
stopping_without (resuming tick wall ∷ before) = stopping_without before
stopping_without (loading wall value ∷ before) = stopping_without before
stopping_without (starting tick wall ∷ before) = stopping_without before
stopping_without (stopping ∷ before) = refl

module _ (calls : List Call) (s : Scheduler) (h : IsBooked calls s) where
  -- Whether a pause is on, in what counts and in what is listed.
  open_counted : (o : Option ℕ) → s.paused_since ≡ o → is_some (open_at (counted calls)) ≡ is_some o
  open_counted o e = sym (ap is_some h.current) ∙ sym h.together ∙ ap is_some e

  open_listed :
      (o : Option ℕ)
      → s.paused_since ≡ o
      → is_some (open_at (counted (without_starts calls))) ≡ is_some o
  open_listed o e =
      ap (λ ps. is_some (open_at ps)) (sym h.listed) ∙ h.same_open ∙ sym h.together ∙ ap is_some e

  pause_from-IsBooked :
      (tick wall : ℕ) (p : Option ℕ) (b : Bool)
      → s.paused_since ≡ p
      → s.stopping ≡ b
      → IsBooked (pausing tick wall ∷ calls) (pause_from tick wall s p b)
  unfolding pause_from counted
  pause_from-IsBooked tick wall (some since) b ep eb = record {
    total = rw (open_counted (some since) ep) h.total;
    current = rw (open_counted (some since) ep) h.current;
    listed = rw (open_listed (some since) ep) h.listed;
    together = h.together;
    same_open = h.same_open;
    stops = h.stops;
  }
  pause_from-IsBooked tick wall none true ep eb =
      let stops = sym h.stops ∙ eb in
      let stops' = stopping_without calls ∙ stops in
      record {
        total = rw (open_counted none ep, stops) h.total;
        current = rw (open_counted none ep, stops) h.current;
        listed = rw (open_listed none ep, stops') h.listed;
        together = h.together;
        same_open = h.same_open;
        stops = h.stops;
      }
  pause_from-IsBooked tick wall none false ep eb =
      let stops = sym h.stops ∙ eb in
      let stops' = stopping_without calls ∙ stops in
      record {
        total = rw (open_counted none ep, stops) (h.total ∙ sym (append_sum wall (counted calls)));
        current = rw (open_counted none ep, stops) (sym (append_open wall (counted calls)));
        listed = rw (open_listed none ep, stops') (ap (λ ps. ps ++ (wall, none) ∷ []) h.listed);
        together = refl;
        same_open = ap is_some (append_open wall s.pauses);
        stops = h.stops;
      }

  resume_since-IsBooked :
      (tick wall : ℕ) (p : Option ℕ)
      → s.paused_since ≡ p
      → IsBooked (resuming tick wall ∷ calls) (resume_since tick wall s p)
  unfolding resume_since counted
  resume_since-IsBooked tick wall none e = record {
    total = rw (open_counted none e) h.total;
    current = rw (open_counted none e) h.current;
    listed = rw (open_listed none e) h.listed;
    together = h.together;
    same_open = h.same_open;
    stops = h.stops;
  }
  resume_since-IsBooked tick wall (some since) e = record {
    total = rw (open_counted (some since) e) (
        stats_sum wall s.stats_paused_since s.stats_paused (counted calls)
          (sym h.together ∙ ap is_some e) (sym h.current) h.total);
    current = rw (open_counted (some since) e) (sym (close_open wall (counted calls)));
    listed = rw (open_listed (some since) e) (ap (close_last wall) h.listed);
    together = refl;
    same_open = ap is_some (close_open wall s.pauses);
    stops = h.stops;
  }

  anchor_from-IsBooked :
      (tick wall : ℕ) (p : Option ℕ)
      → s.paused_since ≡ p
      → IsBooked (starting tick wall ∷ calls) (anchor_from tick wall s p)
  unfolding anchor_from counted
  anchor_from-IsBooked tick wall none e =
      let off = none_of (open_at (counted calls)) (open_counted none e) in
      record {
        total = h.total ∙ sym (anchor_sum wall (counted calls));
        current = h.current ∙ off ∙ sym (anchor_open wall (counted calls) ∙ ap (moved wall) off);
        listed = h.listed;
        together = h.together;
        same_open = h.same_open;
        stops = h.stops;
      }
  anchor_from-IsBooked tick wall (some since) e = record {
    total = h.total ∙ sym (anchor_sum wall (counted calls));
    current = sym (
        anchor_open wall (counted calls)
        ∙ moved-some wall (open_at (counted calls)) (open_counted (some since) e));
    listed = h.listed;
    together = refl;
    same_open = h.same_open ∙ sym h.together ∙ ap is_some e;
    stops = h.stops;
  }

-- Whatever calls a scheduler gets, to pause, resume, load, start its run or stop, in whatever order: its
-- list has the pauses that the calls make, and the paused time of its statistics is the sum of those that
-- have ended, where one that was on as the run began counts from the start; the pause that is going on,
-- if there is one, is the last of the list.
pub performed-IsBooked :
    (model : LoadModel) (calls : List Call) → IsBooked calls (performed model calls)
unfolding performed perform fresh open_at closed_sum counted apply_pause apply_resume apply_load
    begin_run
performed-IsBooked model [] = record {
  total = refl;
  current = refl;
  listed = refl;
  together = refl;
  same_open = refl;
  stops = refl;
}
performed-IsBooked model (pausing tick wall ∷ before) =
    let s = performed model before in
    pause_from-IsBooked before s (performed-IsBooked model before) tick wall s.paused_since
      s.stopping refl refl
performed-IsBooked model (resuming tick wall ∷ before) =
    let s = performed model before in
    resume_since-IsBooked before s (performed-IsBooked model before) tick wall s.paused_since refl
performed-IsBooked model (starting tick wall ∷ before) =
    let s = performed model before in
    anchor_from-IsBooked before s (performed-IsBooked model before) tick wall s.paused_since refl
performed-IsBooked model (loading wall value ∷ before) =
    let h = performed-IsBooked model before in
    record {
      total = h.total;
      current = h.current;
      listed = h.listed;
      together = h.together;
      same_open = h.same_open;
      stops = h.stops;
    }
performed-IsBooked model (stopping ∷ before) =
    let h = performed-IsBooked model before in
    record {
      total = h.total;
      current = h.current;
      listed = h.listed;
      together = h.together;
      same_open = h.same_open;
      stops = refl;
    }

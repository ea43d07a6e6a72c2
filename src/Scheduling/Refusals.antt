-- ===== src/Scheduling/Refusals.antt =====
-- When refusals of the credential end a run (`_note_auth`).
use regulator.Prelude.{
  ℕ, suc, ◌-◌, ◌≡◌, refl, sym, ap, ◌∙◌, arith, Bool, false, ◌&&◌, ◌||◌, Option, none, some, List,
  [], ◌∷◌, length, leb, if◌then◌else◌, Bool-cases, inl, inr,
}
use regulator.Results.{ErrorClass}
use regulator.Scheduling.Guards.{
  Course, new_course, auth_refused_abort, auth_refused_abort_count, or_else, ask_stop, is_auth,
  count_refusal, note_auth,
}

-- A record's time, whether it is ok, and its error's class.
abbrev pub Noted : Type 0
Noted = ℕ × Bool × Option ErrorClass

-- The records of a run, the latest first.
unfoldable pub note_all : List Noted → Course
unfolding note_auth new_course
note_all [] = new_course
note_all ((now, ok, error_class) ∷ earlier) = note_auth now ok error_class (note_all earlier)

-- The times of the refusals since the last success, the latest first.
unfoldable pub streak : List Noted → List ℕ
streak [] = []
streak ((now, ok, error_class) ∷ earlier) =
    let before = streak earlier in
    if ok then [] else if is_auth error_class then now ∷ before else before

unfoldable oldest : List ℕ → Option ℕ
oldest [] = none
oldest (t ∷ times) = some (or_else (oldest times) t)

unfoldable is_long : List ℕ → Bool
unfolding oldest
is_long [] = false
is_long (now ∷ times) =
    leb auth_refused_abort (now - or_else (oldest times) now)
    && leb auth_refused_abort_count (suc (length times))

-- At some record, the refusals since the last success were 10 or more over 60 seconds or more.
unfoldable pub is_dead : List Noted → Bool
unfolding is_long streak
is_dead [] = false
is_dead (r ∷ earlier) = is_dead earlier || is_long (streak (r ∷ earlier))

is_long-is_dead : (rs : List Noted) → (is_dead rs || is_long (streak rs)) ≡ is_dead rs
unfolding is_dead
is_long-is_dead [] = refl
is_long-is_dead (r ∷ earlier) = or_same (is_dead earlier) (is_long (streak (r ∷ earlier)))
  where
    or_same : (a b : Bool) → ((a || b) || b) ≡ (a || b)
    or_same a b = ground arith

abbrev stops_at : ℕ → Bool → Option ℕ → ℕ → Bool
stops_at now stopping since count =
    stopping
    || (leb auth_refused_abort (now - or_else since now)
        && leb auth_refused_abort_count (suc count))

-- Its own counts are those of the record that it is given; a longer streak than the limits stops.
count_refusal-fields :
    (now since : ℕ) (c : Course)
    → ((count_refusal now since c).refused_since ≡ some since)
      × ((count_refusal now since c).refused_count ≡ suc c.refused_count)
      × ((count_refusal now since c).stopping ≡ (
          c.stopping
          || (leb auth_refused_abort (now - since)
              && leb auth_refused_abort_count (suc c.refused_count))))
unfolding count_refusal ask_stop
count_refusal-fields now since c = ground arith

-- What is kept of the refusals, read off the records.
abbrev IsFollowed : List Noted → Course → Type 0
IsFollowed rs c =
    (c.refused_since ≡ oldest (streak rs))
    × (c.refused_count ≡ length (streak rs))
    × (c.stopping ≡ is_dead rs)

note_all-IsFollowed : (rs : List Noted) → IsFollowed rs (note_all rs)
unfolding note_all is_dead
note_all-IsFollowed [] = (refl, refl, refl)
note_all-IsFollowed ((now, ok, error_class) ∷ earlier) =
    let (since, count, dead) = note_all-IsFollowed earlier in
    let fields =
      count_refusal-fields now (or_else (note_all earlier).refused_since now) (note_all earlier) in
    elim (Bool-cases ok) [
      | inl o ↦ rw o (refl, refl, ground (arith, dead))
      | inr o ↦ rw o elim (Bool-cases (is_auth error_class)) [
        | inl r ↦ rw r (
          fields.0 ∙ ap (λ since. some (or_else since now)) since,
          fields.1 ∙ ap suc count,
          fields.2
              ∙ (ap
                    (λ b.
                      stops_at now b (note_all earlier).refused_since
                        (note_all earlier).refused_count)
                    dead
                  ∙ (ap (λ o. stops_at now (is_dead earlier) o (note_all earlier).refused_count)
                        since
                      ∙ ap (λ n. stops_at now (is_dead earlier) (oldest (streak earlier)) n)
                          count)),
        )
        | inr r ↦ rw r (since, count, dead ∙ sym (is_long-is_dead earlier))
      ]
    ]

-- The refusals of the credential end a run exactly when at some record those since the last success
-- were 10 or more, the first of them 60 seconds or more before; a record that failed for another
-- reason neither extends nor breaks them.
pub note_all-is_dead : (rs : List Noted) → (note_all rs).stopping ≡ is_dead rs
note_all-is_dead rs = (note_all-IsFollowed rs).2

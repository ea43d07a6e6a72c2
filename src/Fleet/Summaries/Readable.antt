-- ===== src/Fleet/Summaries/Readable.antt =====
-- Which documents a merge can read: the success of every part of `merge_summaries` as a test.
use regulator.Prelude.{
  ◌≡◌, refl, arith, Bool, true, false, ◌&&◌, Option, none, some, List, [], ◌∷◌, ◌++◌, map, present,
  all, ap, ◌∙◌, sym,
}
use regulator.Histogram.{LatencyHistogram, empty, merge}
use regulator.Histogram.Document.{
  Document, Parsed, parsed, wrong_version, wrong_layout, wrong_value, and_then, from_dict,
  merge_dicts, merge_dicts_from,
}
use regulator.Results.{StepHistograms}
use regulator.Results.Snapshot.{Histograms}
use regulator.Fleet.Summaries.Merge.{merged_hists, other_hists}
use regulator.Fleet.Summaries.Steps.{Entry, hist, step_out, each}

abbrev pub is_parsed : {A : Type 0} → Parsed A → Bool
is_parsed (parsed a) = true
is_parsed wrong_version = false
is_parsed wrong_layout = false
is_parsed wrong_value = false

abbrev pub is_readable : Document → Bool
is_readable d = is_parsed (from_dict d)

abbrev pub is_readable_option : Option Document → Bool
is_readable_option none = true
is_readable_option (some d) = is_readable d

pub is_parsed-and_then :
    {A B : Type 0} (p : Parsed A) (f : A → Parsed B) (b : Bool)
    → ((a : A) → is_parsed (f a) ≡ b)
    → is_parsed (and_then p f) ≡ (is_parsed p && b)
is_parsed-and_then (parsed a) f b h = h a
is_parsed-and_then wrong_version f b h = refl
is_parsed-and_then wrong_layout f b h = refl
is_parsed-and_then wrong_value f b h = refl

is_parsed-merge_dicts_from :
    (w : LatencyHistogram) (ds : List Document)
    → is_parsed (merge_dicts_from w ds) ≡ all is_readable ds
unfolding merge_dicts_from
is_parsed-merge_dicts_from w [] = refl
is_parsed-merge_dicts_from w (d ∷ ds) =
    is_parsed-and_then (from_dict d) _ _ (λ h. is_parsed-merge_dicts_from (merge w h) ds)

pub is_parsed-merge_dicts : (ds : List Document) → is_parsed (merge_dicts ds) ≡ all is_readable ds
unfolding merge_dicts
is_parsed-merge_dicts ds = is_parsed-merge_dicts_from empty ds

all-present :
    (os : List (Option Document)) → all is_readable (present os) ≡ all is_readable_option os
all-present [] = refl
all-present (none ∷ os) = all-present os
all-present (some d ∷ os) = ap (λ b. is_readable d && b) (all-present os)

module _ {A : Type 0} where
  pub all-map :
      {B : Type 0} (p : B → Bool) (f : A → B) (xs : List A)
      → all p (map f xs) ≡ all (λ x. p (f x)) xs
  all-map p f [] = refl
  all-map p f (x ∷ xs) = ap (λ b. p (f x) && b) (all-map p f xs)

  all-and : (p q : A → Bool) (xs : List A) → all (λ x. p x && q x) xs ≡ (all p xs && all q xs)
  all-and p q [] = refl
  all-and p q (x ∷ xs) = ground (arith, all-and p q xs)

  pub all-append : (p : A → Bool) (xs ys : List A) → all p (xs ++ ys) ≡ (all p xs && all p ys)
  all-append p [] ys = refl
  all-append p (x ∷ xs) ys = ground (arith, all-append p xs ys)

  pub is_parsed-hist :
      (f : A → Option Document) (xs : List A)
      → is_parsed (hist (map f xs)) ≡ all (λ x. is_readable_option (f x)) xs
  unfolding hist
  is_parsed-hist f xs =
      is_parsed-merge_dicts (present (map f xs))
      ∙ all-present (map f xs)
      ∙ all-map is_readable_option f xs

  pub is_parsed-each :
      {B : Type 0} (f : A → Parsed B) (xs : List A)
      → is_parsed (each f xs) ≡ all (λ x. is_parsed (f x)) xs
  unfolding each
  is_parsed-each f [] = refl
  is_parsed-each f (x ∷ xs) =
      is_parsed-and_then (f x) _ _ λ y.
        is_parsed-and_then (each f xs) _ true (λ ys. refl) ∙ ground (arith, is_parsed-each f xs)

-- The seven histograms of a step.
abbrev pub is_readable_part : StepHistograms → Bool
is_readable_part p =
    is_readable_option p.latency
    && (is_readable_option p.latency_cold
        && (is_readable_option p.latency_warm
            && (is_readable_option p.failure_latency
                && (is_readable_option p.service_time
                    && (is_readable_option p.dispatch && (is_readable_option p.ttfr))))))

abbrev pub is_readable_entry : Entry → Bool
is_readable_entry e = all is_readable_part e.parts

is_parsed-hist_then :
    {A B : Type 0} (f : A → Option Document) (xs : List A) (g : LatencyHistogram → Parsed B)
    (b : Bool)
    → ((h : LatencyHistogram) → is_parsed (g h) ≡ b)
    → is_parsed (and_then (hist (map f xs)) g) ≡ (all (λ x. is_readable_option (f x)) xs && b)
is_parsed-hist_then f xs g b h =
    is_parsed-and_then (hist (map f xs)) g b h ∙ ap (λ c. c && b) (is_parsed-hist f xs)

-- One more histogram of each, before those that are tested already.
all-hist_then :
    {A B : Type 0} (f : A → Option Document) (q : A → Bool) (xs : List A)
    (g : LatencyHistogram → Parsed B)
    → ((h : LatencyHistogram) → is_parsed (g h) ≡ all q xs)
    → is_parsed (and_then (hist (map f xs)) g) ≡ all (λ x. is_readable_option (f x) && q x) xs
all-hist_then f q xs g h =
    is_parsed-hist_then f xs g (all q xs) h ∙ sym (all-and (λ x. is_readable_option (f x)) q xs)

-- The last one.
all-hist_last :
    {A B : Type 0} (f : A → Option Document) (xs : List A) (g : LatencyHistogram → Parsed B)
    → ((h : LatencyHistogram) → is_parsed (g h) ≡ true)
    → is_parsed (and_then (hist (map f xs)) g) ≡ all (λ x. is_readable_option (f x)) xs
all-hist_last f xs g h = is_parsed-hist_then f xs g true h ∙ ground arith

pub is_parsed-step_out : (e : Entry) → is_parsed (step_out e) ≡ is_readable_entry e
unfolding step_out
is_parsed-step_out e =
    all-hist_then _
      (λ (p : StepHistograms).
        is_readable_option p.latency_cold
        && (is_readable_option p.latency_warm
            && (is_readable_option p.failure_latency
                && (is_readable_option p.service_time
                    && (is_readable_option p.dispatch && (is_readable_option p.ttfr))))))
      e.parts _
      λ h0.
        all-hist_then _
          (λ (p : StepHistograms).
            is_readable_option p.latency_warm
            && (is_readable_option p.failure_latency
                && (is_readable_option p.service_time
                    && (is_readable_option p.dispatch && (is_readable_option p.ttfr)))))
          e.parts _
          λ h1.
            all-hist_then _
              (λ (p : StepHistograms).
                is_readable_option p.failure_latency
                && (is_readable_option p.service_time
                    && (is_readable_option p.dispatch && (is_readable_option p.ttfr))))
              e.parts _
              λ h2.
                all-hist_then _
                  (λ (p : StepHistograms).
                    is_readable_option p.service_time
                    && (is_readable_option p.dispatch && (is_readable_option p.ttfr)))
                  e.parts _
                  λ h3.
                    all-hist_then _
                      (λ (p : StepHistograms).
                        is_readable_option p.dispatch && (is_readable_option p.ttfr))
                      e.parts _
                      λ h4.
                        all-hist_then _ (λ (p : StepHistograms). is_readable_option p.ttfr) e.parts
                          _ λ h5. all-hist_last _ e.parts _ (λ h. refl)

abbrev pub is_readable_hists : Histograms → Bool
is_readable_hists h =
    is_readable_option h.latency
    && (is_readable_option h.failure_latency
        && (is_readable_option h.queued
            && (is_readable_option h.loop_lag
                && (is_readable_option h.drift && (is_readable_option h.after_end_run_duration)))))

pub is_parsed-merged_hists :
    (hists : List Histograms) → is_parsed (merged_hists hists) ≡ all is_readable_hists hists
unfolding merged_hists other_hists
is_parsed-merged_hists hists =
    all-hist_then _
      (λ (p : Histograms).
        is_readable_option p.failure_latency
        && (is_readable_option p.queued
            && (is_readable_option p.loop_lag
                && (is_readable_option p.drift && (is_readable_option p.after_end_run_duration)))))
      hists _
      λ h0.
        all-hist_then _
          (λ (p : Histograms).
            is_readable_option p.queued
            && (is_readable_option p.loop_lag
                && (is_readable_option p.drift && (is_readable_option p.after_end_run_duration))))
          hists _
          λ h1.
            all-hist_then _
              (λ (p : Histograms).
                is_readable_option p.loop_lag
                && (is_readable_option p.drift && (is_readable_option p.after_end_run_duration)))
              hists _
              λ h2.
                all-hist_then _
                  (λ (p : Histograms).
                    is_readable_option p.drift && (is_readable_option p.after_end_run_duration))
                  hists _
                  λ h3.
                    all-hist_then _
                      (λ (p : Histograms). is_readable_option p.after_end_run_duration) hists _
                      λ h4. all-hist_last _ hists _ (λ h. refl)

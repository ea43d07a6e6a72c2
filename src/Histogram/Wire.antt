-- ===== src/Histogram/Wire.antt =====
-- The wire form: `to_dict`, `from_dict`, and the merge of many histograms.
use mathlib.Core.Path.{subst}
use mathlib.Core.List.Perm
use mathlib.Core.List.{Perm, append-nil, append_assoc, perm_append_comm}
use regulator.Histogram.Order.{IsSketch-Perm}
use regulator.Prelude.{
  ℕ, concat, Option, some, none, inl, inr, ap, ne→==, ◌≡◌, ◌≢◌, ◌⊎◌, refl, false, arith, List, [],
  ◌∷◌, ◌++◌, map,
}
use regulator.Histogram.{LatencyHistogram, empty, merge, merge_from, merge_all}
use regulator.Histogram.Reading.{sorted}
use regulator.Histogram.Document.{
  Document, Parsed, parsed, wrong_version, wrong_layout, wrong_value, to_dict, from_dict,
  is_version, is_layout, merge_dicts_from, merge_dicts, and_then,
}
use regulator.Histogram.Rank.{rank-sorted, total-sorted}
use regulator.Histogram.Record.{IsSketch, IsSketch-merge, IsSketch-empty}

-- What a worker ships is read back as a sketch of the same samples.
pub from_dict-to_dict :
    (xs : List ℕ) (h : LatencyHistogram)
    → IsSketch xs h
    → (g : LatencyHistogram) × (from_dict (to_dict h) ≡ parsed g) × IsSketch xs g
unfolding from_dict to_dict
from_dict-to_dict xs h s = (
  record {
    buckets = sorted h.buckets;
    count = h.count;
    total_us = h.total_us;
    minimum = h.minimum;
    maximum = h.maximum;
  },
  refl,
  record {
    ranks = λ k. omega (arith, rank-sorted k h.buckets, s.ranks k);
    whole = omega (arith, total-sorted h.buckets, s.whole);
    counted = s.counted;
    summed = s.summed;
    low = s.low;
    high = s.high;
  },
)

-- Each histogram of the list is a sketch of its batch of samples.
abbrev pub AreSketches : List (List ℕ) → List LatencyHistogram → Type 0
AreSketches [] [] = Unit
AreSketches (xs ∷ xss) (h ∷ hs) = IsSketch xs h × AreSketches xss hs
AreSketches _ _ = ⊥

-- The batches together, the last one first.
unfoldable pub gather : List ℕ → List (List ℕ) → List ℕ
gather all [] = all
gather all (xs ∷ xss) = gather (xs ++ all) xss

merge_from-IsSketch :
    (all : List ℕ) (w : LatencyHistogram) (xss : List (List ℕ)) (hs : List LatencyHistogram)
    → IsSketch all w
    → AreSketches xss hs
    → IsSketch (gather all xss) (merge_from w hs)
unfolding merge_from gather
merge_from-IsSketch all w [] [] s ss = s
merge_from-IsSketch all w [] (h ∷ hs) s ss = elim ss [ ]
merge_from-IsSketch all w (xs ∷ xss) [] s ss = elim ss [ ]
merge_from-IsSketch all w (xs ∷ xss) (h ∷ hs) s ss =
    merge_from-IsSketch (xs ++ all) (merge w h) xss hs (IsSketch-merge all xs w h s ss.0) ss.1

-- `merge_all` makes a sketch of the samples of all batches together.
pub merge_all-IsSketch :
    (xss : List (List ℕ)) (hs : List LatencyHistogram)
    → AreSketches xss hs
    → IsSketch (gather [] xss) (merge_all hs)
unfolding merge_all
merge_all-IsSketch xss hs ss = merge_from-IsSketch [] empty xss hs IsSketch-empty ss

merge_dicts_from-to_dict :
    (all : List ℕ) (w : LatencyHistogram) (xss : List (List ℕ)) (hs : List LatencyHistogram)
    → IsSketch all w
    → AreSketches xss hs
    → (g : LatencyHistogram) × (merge_dicts_from w (map to_dict hs) ≡ parsed g)
      × IsSketch (gather all xss) g
unfolding merge_dicts_from gather
merge_dicts_from-to_dict all w [] [] s ss = (w, refl, s)
merge_dicts_from-to_dict all w [] (h ∷ hs) s ss = elim ss [ ]
merge_dicts_from-to_dict all w (xs ∷ xss) [] s ss = elim ss [ ]
merge_dicts_from-to_dict all w (xs ∷ xss) (h ∷ hs) s ss =
    let (g, e, sg) = from_dict-to_dict xs h ss.0 in
    let (g', e', sg') =
      merge_dicts_from-to_dict (xs ++ all) (merge w g) xss hs (IsSketch-merge all xs w g s sg)
        ss.1 in
    (g', rw (e, merge_dicts_from) e', sg')

-- The control plane's merge of the workers' documents succeeds, and is a sketch of all the samples
-- that the workers took.
pub merge_dicts-to_dict :
    (xss : List (List ℕ)) (hs : List LatencyHistogram)
    → AreSketches xss hs
    → (g : LatencyHistogram) × (merge_dicts (map to_dict hs) ≡ parsed g)
      × IsSketch (gather [] xss) g
unfolding merge_dicts
merge_dicts-to_dict xss hs ss = merge_dicts_from-to_dict [] empty xss hs IsSketch-empty ss

gather-Perm : (all : List ℕ) (xss : List (List ℕ)) → Perm (gather all xss) (all ++ concat xss)
unfolding gather
gather-Perm all [] = rw (append-nil all) Perm.rfl
gather-Perm all (xs ∷ xss) = Perm.trans (gather-Perm (xs ++ all) xss) (
    subst (λ ys. Perm ((xs ++ all) ++ concat xss) ys) (append_assoc all xs (concat xss))
      (Perm.append_right (concat xss) (perm_append_comm xs all)))

-- The same, with the samples in the order of the documents.
pub merge_dicts-concat :
    (xss : List (List ℕ)) (hs : List LatencyHistogram)
    → AreSketches xss hs
    → (g : LatencyHistogram) × (merge_dicts (map to_dict hs) ≡ parsed g) × IsSketch (concat xss) g
merge_dicts-concat xss hs ss =
    let (g, e, s) = merge_dicts-to_dict xss hs ss in (g, e, IsSketch-Perm (gather-Perm [] xss) s)

module _ {A B : Type 0} {b : B} where
  and_then-refused :
      (p : Parsed A) (f : A → Parsed B) → ((a : A) → p ≢ parsed a) → and_then p f ≢ parsed b
  and_then-refused (parsed a) f bad e = bad a refl
  and_then-refused wrong_version f bad e = cc
  and_then-refused wrong_layout f bad e = cc
  and_then-refused wrong_value f bad e = cc

  and_then-never :
      (p : Parsed A) (f : A → Parsed B) → ((a : A) → f a ≢ parsed b) → and_then p f ≢ parsed b
  and_then-never (parsed a) f never e = never a e
  and_then-never wrong_version f never e = cc
  and_then-never wrong_layout f never e = cc
  and_then-never wrong_value f never e = cc

merge_dicts_from-refused :
    (w g : LatencyHistogram) (ds es : List Document) (d : Document)
    → ((h : LatencyHistogram) → from_dict d ≢ parsed h)
    → merge_dicts_from w (ds ++ d ∷ es) ≢ parsed g
unfolding merge_dicts_from
merge_dicts_from-refused w g [] es d bad = and_then-refused (from_dict d) _ bad
merge_dicts_from-refused w g (c ∷ ds) es d bad =
    and_then-never (from_dict c) _ (λ h. merge_dicts_from-refused (merge w h) g ds es d bad)

from_dict-refused :
    (d : Document) (h : LatencyHistogram)
    → (is_version d.v ≡ false) ⊎ (is_layout d.bits ≡ false)
    → from_dict d ≢ parsed h
unfolding from_dict
from_dict-refused d h bad = ground arith

-- A document of another version than 1, or of a number of bits that is given and is not 6.
abbrev pub IsForeign : Document → Type 0
IsForeign d = (d.v ≢ some 1) ⊎ ((bits : ℕ) × (d.bits ≡ some bits) × (bits ≢ 6))

other_version : (v : Option ℕ) → v ≢ some 1 → is_version v ≡ false
unfolding is_version
other_version none n = refl
other_version (some v) n = ne→== v 1 (λ e. n (ap some e))

other_layout : (o : Option ℕ) (bits : ℕ) → o ≡ some bits → bits ≢ 6 → is_layout o ≡ false
unfolding is_layout
other_layout o bits e n = rw (e, is_layout) (ne→== bits 6 n)

IsForeign-refused :
    (d : Document) → IsForeign d → (is_version d.v ≡ false) ⊎ (is_layout d.bits ≡ false)
IsForeign-refused d (inl n) = inl (other_version d.v n)
IsForeign-refused d (inr (bits, e, n)) = inr (other_layout d.bits bits e n)

-- Histograms of another schema version or another bucket layout are never merged: one such document
-- anywhere among the documents makes the whole merge fail.
pub merge_dicts-refused :
    (g : LatencyHistogram) (ds es : List Document) (d : Document)
    → IsForeign d
    → merge_dicts (ds ++ d ∷ es) ≢ parsed g
unfolding merge_dicts
merge_dicts-refused g ds es d bad =
    merge_dicts_from-refused empty g ds es d (λ h. from_dict-refused d h (IsForeign-refused d bad))

-- ===== src/Results/Classes.antt =====
-- The errors of all classes, through a merge of the counts by class.
use regulator.Prelude.{◌+◌, ◌≡◌, arith, List, [], ◌∷◌, map, sum}
use regulator.Results.{ByClass, count_class}
use regulator.Results.Interval.{add_classes, merge_classes}
use regulator.Results.Counting.{class_total, class_total-count_class}

class_total-add_classes :
    (into from : ByClass)
    → class_total (add_classes into from) ≡ class_total into + class_total from
unfolding add_classes
class_total-add_classes into [] = omega arith
class_total-add_classes into ((error, n) ∷ rest) = omega (
  arith,
  class_total-add_classes (count_class error n into) rest,
  class_total-count_class error n into,
)

class_total-merged :
    (into : ByClass) (all_classes : List ByClass)
    → class_total (merge_classes into all_classes)
      ≡ class_total into + sum (map class_total all_classes)
unfolding merge_classes
class_total-merged into [] = omega arith
class_total-merged into (by_class ∷ rest) = omega (
  arith,
  class_total-merged (add_classes into by_class) rest,
  class_total-add_classes into by_class,
)

pub class_total-merge_classes :
    (all_classes : List ByClass)
    → class_total (merge_classes [] all_classes) ≡ sum (map class_total all_classes)
class_total-merge_classes all_classes = omega (arith, class_total-merged [] all_classes)

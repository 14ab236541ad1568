-- ===== src/Histogram/Sizes.antt =====
-- The report of `print_histogram` as a function of the sizes read, their order forgotten.
use mathlib.Core.Quot
use mathlib.Core.Quot.{Quot}
use native.Mathlib.Nat.{ℕ_set}
use migration_transport_hack.Base.{
  sym, ap, ◌∙◌, List, ◌==◌, if◌then◌else◌, ℕ, ◌+◌, ◌≡◌, [], ◌∷◌, arith,
}
use migration_transport_hack.Histogram.{Histogram, count_read, Report, print_histogram}
use migration_transport_hack.Histogram.Laws.{IsValid, lookup, count_read-IsValid, lookup-count_read}
use migration_transport_hack.Histogram.Canonical.{print_histogram-same}

-- The histogram after reads of these sizes, the first one first.
abbrev pub tallied : List ℕ → Histogram → Histogram
tallied [] h = h
tallied (n ∷ ns) h = tallied ns (count_read n h)

abbrev pub occurrences : ℕ → List ℕ → ℕ
occurrences k [] = 0
occurrences k (n ∷ ns) = (if n == k then 1 else 0) + occurrences k ns

-- Two lists hold the same sizes, each as often.
abbrev pub SameSizes : List ℕ → List ℕ → Type 0
SameSizes ms ns = (k : ℕ) → occurrences k ms ≡ occurrences k ns

-- The sizes that were read, in no order.
abbrev pub Sizes : Type 0
Sizes = Quot SameSizes

tallied-IsValid : (ns : List ℕ) (h : Histogram) → IsValid h → IsValid (tallied ns h)
tallied-IsValid [] h v = v
tallied-IsValid (n ∷ ns) h v = tallied-IsValid ns (count_read n h) (count_read-IsValid n h v)

lookup-tallied :
    (k : ℕ) (ns : List ℕ) (h : Histogram) → lookup k (tallied ns h) ≡ lookup k h + occurrences k ns
lookup-tallied k [] h = omega arith
lookup-tallied k (n ∷ ns) h =
    ground (arith, lookup-tallied k ns (count_read n h), lookup-count_read n k h)

pub same_report :
    (ms ns : List ℕ)
    → SameSizes ms ns
    → print_histogram (tallied ms []) ≡ print_histogram (tallied ns [])
same_report ms ns e =
    print_histogram-same (tallied ms []) (tallied ns []) (tallied-IsValid ms [] tt)
      (tallied-IsValid ns [] tt)
      (λ k. lookup-tallied k ms [] ∙ ap (λ n. 0 + n) (e k) ∙ sym (lookup-tallied k ns []))

pub Report_set : IsSet Report
Report_set = hlevel ℕ_set

-- The report on a bag of sizes.
unfoldable pub report_of : Sizes → Report
report_of = Quot.lift Report_set (λ ns. print_histogram (tallied ns [])) same_report

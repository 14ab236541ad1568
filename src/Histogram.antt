-- ===== src/Histogram.antt =====
-- `read_histogram` of the two TCP proxies: a `defaultdict(int)` from a read's size to how often it
-- was seen, in insertion order, and `print_histogram`.
pub mod Laws
pub mod Canonical
pub mod Sizes
use migration_transport_hack.Base.{ℕ, ◌+◌, ◌*◌, List, [], ◌∷◌, ◌==◌, leb, if◌then◌else◌}

abbrev pub Histogram : Type 0
Histogram = List (ℕ × ℕ)

-- `self.read_histogram[bytes_read] += 1`
unfoldable pub count_read : ℕ → Histogram → Histogram
count_read bytes_read [] = (bytes_read, 1) ∷ []
count_read bytes_read ((size, frequency) ∷ rest) =
    if size == bytes_read
    then (size, frequency + 1) ∷ rest
    else (size, frequency) ∷ count_read bytes_read rest

-- `sum(self.read_histogram.values())`
pub total_reads : Histogram → ℕ
total_reads [] = 0
total_reads ((_, frequency) ∷ rest) = frequency + total_reads rest

pub insert_sorted : ℕ × ℕ → Histogram → Histogram
insert_sorted e [] = e ∷ []
insert_sorted e (x ∷ rest) = if leb e.0 x.0 then e ∷ x ∷ rest else x ∷ insert_sorted e rest

-- `sorted(self.read_histogram.items())`: the sizes differ, so the order is that of the sizes.
pub sorted_items : Histogram → Histogram
unfolding insert_sorted
sorted_items [] = []
sorted_items (e ∷ rest) = insert_sorted e (sorted_items rest)

-- One printed line. The percentage is a float in the source: here it is the exact quotient
-- `part / whole`, with `part` a hundred times the frequency.
pub record Line : Type 0 where
  pub byte_count : ℕ
  pub frequency : ℕ
  pub part : ℕ
  pub whole : ℕ

lines : ℕ → Histogram → List Line
lines whole [] = []
lines whole ((size, frequency) ∷ rest) =
    record { byte_count = size; frequency = frequency; part = frequency * 100; whole = whole }
    ∷ lines whole rest

pub data Report : Type 0 where
  no_data : Report
  report : List Line → ℕ → Report

pub print_histogram : Histogram → Report
unfolding lines sorted_items total_reads
print_histogram [] = no_data
print_histogram (e ∷ rest) =
    let whole = total_reads (e ∷ rest) in report (lines whole (sorted_items (e ∷ rest))) whole

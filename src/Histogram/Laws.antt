-- ===== src/Histogram/Laws.antt =====
-- The totals of the histogram, and what `print_histogram` prints.
use migration_transport_hack.Base.{
  refl, map, ap, ◌∙◌, List, ◌==◌, inr, inl, leb, sym, ◌≤◌, Bool-cases, ◌<◌, ◌≢◌, if◌then◌else◌, ℕ,
  ◌+◌, ◌*◌, ◌≡◌, [], ◌∷◌, arith,
}
use migration_transport_hack.Histogram.{
  report, Line, print_histogram, lines, sorted_items, insert_sorted, Histogram, count_read,
  total_reads,
}

-- The bytes that all the reads in the histogram brought.
abbrev pub total_bytes_read : Histogram → ℕ
total_bytes_read [] = 0
total_bytes_read ((size, frequency) ∷ rest) = size * frequency + total_bytes_read rest

-- One more read, whether or not its size is new.
pub total_reads-count_read :
    (n : ℕ) (h : Histogram) → total_reads (count_read n h) ≡ total_reads h + 1
unfolding total_reads count_read
total_reads-count_read n [] = omega arith
total_reads-count_read n ((size, f) ∷ h) = ground (arith, total_reads-count_read n h)

pub total_bytes_read-count_read :
    (n : ℕ) (h : Histogram) → total_bytes_read (count_read n h) ≡ total_bytes_read h + n
unfolding count_read
total_bytes_read-count_read n [] = omega arith
total_bytes_read-count_read n ((size, f) ∷ h) = ground (arith, total_bytes_read-count_read n h)

-- Each size stands once in the histogram, and no count is zero.
abbrev pub lookup : ℕ → Histogram → ℕ
lookup n [] = 0
lookup n ((size, f) ∷ h) = if size == n then f else lookup n h

abbrev pub IsNew : ℕ → Histogram → Type 0
IsNew n [] = Unit
IsNew n ((size, f) ∷ h) = (size ≢ n) × IsNew n h

abbrev pub IsValid : Histogram → Type 0
IsValid [] = Unit
IsValid ((size, f) ∷ h) = (0 < f) × IsNew size h × IsValid h

IsNew-count_read : (k n : ℕ) (h : Histogram) → k ≢ n → IsNew k h → IsNew k (count_read n h)
unfolding count_read
IsNew-count_read k n [] ne h = (λ e. ne (sym e), tt)
IsNew-count_read k n ((size, f) ∷ rest) ne h = ground (arith, IsNew-count_read k n rest ne h.1)

-- `count_read` keeps the histogram's keys distinct and its counts positive.
pub count_read-IsValid : (n : ℕ) (h : Histogram) → IsValid h → IsValid (count_read n h)
unfolding count_read
count_read-IsValid n [] v = (omega arith, tt, tt)
count_read-IsValid n ((size, f) ∷ h) v = elim (Bool-cases (size == n)) [
  | inl hit ↦ rw hit (omega arith, v.1, v.2)
  | inr miss ↦
      rw miss (v.0, IsNew-count_read size n h (ground arith) v.1, count_read-IsValid n h v.2)
]

-- Sizes rise along a sorted list of items: each is above `lo`.
abbrev pub Rises : ℕ → Histogram → Type 0
Rises lo [] = Unit
Rises lo ((size, f) ∷ h) = (lo ≤ size) × Rises (size + 1) h

insert_sorted-Rises :
    (lo : ℕ) (e : ℕ × ℕ) (h : Histogram)
    → lo ≤ e.0
    → IsNew e.0 h
    → Rises lo h
    → Rises lo (insert_sorted e h)
unfolding insert_sorted
insert_sorted-Rises lo e [] le new up = (le, tt)
insert_sorted-Rises lo e ((size, f) ∷ h) le new up = elim (Bool-cases (leb e.0 size)) [
  | inl before ↦ rw before (le, (ground arith, up.1))
  | inr after ↦ rw after (up.0, insert_sorted-Rises (size + 1) e h (ground arith) new.1 up.1)
]

IsNew-insert_sorted :
    (k : ℕ) (e : ℕ × ℕ) (h : Histogram) → e.0 ≢ k → IsNew k h → IsNew k (insert_sorted e h)
unfolding insert_sorted
IsNew-insert_sorted k e [] ne new = (ne, tt)
IsNew-insert_sorted k e (x ∷ h) ne new = elim (Bool-cases (leb e.0 x.0)) [
  | inl before ↦ rw before (ne, new)
  | inr after ↦ rw after (new.0, IsNew-insert_sorted k e h ne new.1)
]

IsNew-sorted_items : (k : ℕ) (h : Histogram) → IsNew k h → IsNew k (sorted_items h)
unfolding sorted_items
IsNew-sorted_items k [] new = tt
IsNew-sorted_items k (e ∷ h) new =
    IsNew-insert_sorted k e (sorted_items h) new.0 (IsNew-sorted_items k h new.1)

pub sorted_items-Rises : (h : Histogram) → IsValid h → Rises 0 (sorted_items h)
unfolding sorted_items
sorted_items-Rises [] v = tt
sorted_items-Rises (e ∷ h) v =
    insert_sorted-Rises 0 e (sorted_items h) (omega arith) (IsNew-sorted_items e.0 h v.1)
      (sorted_items-Rises h v.2)

lookup-insert_sorted :
    (n : ℕ) (e : ℕ × ℕ) (h : Histogram)
    → IsNew e.0 h
    → lookup n (insert_sorted e h) ≡ lookup n (e ∷ h)
unfolding insert_sorted
lookup-insert_sorted n e [] new = refl
lookup-insert_sorted n e (x ∷ h) new = ground (arith, lookup-insert_sorted n e h new.1)

pub lookup-sorted_items :
    (n : ℕ) (h : Histogram) → IsValid h → lookup n (sorted_items h) ≡ lookup n h
unfolding sorted_items
lookup-sorted_items n [] v = refl
lookup-sorted_items n (e ∷ h) v =
    lookup-insert_sorted n e (sorted_items h) (IsNew-sorted_items e.0 h v.1)
    ∙ ap (λ (k : ℕ). if e.0 == n then e.1 else k) (lookup-sorted_items n h v.2)

total_reads-insert_sorted :
    (e : ℕ × ℕ) (h : Histogram) → total_reads (insert_sorted e h) ≡ e.1 + total_reads h
unfolding insert_sorted total_reads
total_reads-insert_sorted e [] = refl
total_reads-insert_sorted e (x ∷ h) = ground (arith, total_reads-insert_sorted e h)

pub total_reads-sorted_items : (h : Histogram) → total_reads (sorted_items h) ≡ total_reads h
unfolding sorted_items total_reads
total_reads-sorted_items [] = refl
total_reads-sorted_items (e ∷ h) =
    omega (arith, total_reads-insert_sorted e (sorted_items h), total_reads-sorted_items h)

-- What the printed lines say: the sizes rise, and the percentages are parts of `whole`.
abbrev pub items : List Line → Histogram
items = map (λ l. (l.byte_count, l.frequency))

abbrev pub parts : List Line → ℕ
parts [] = 0
parts (l ∷ ls) = l.part + parts ls

items-lines : (whole : ℕ) (h : Histogram) → items (lines whole h) ≡ h
unfolding lines
items-lines whole [] = refl
items-lines whole (e ∷ h) = ap (λ t. e ∷ t) (items-lines whole h)

parts-lines : (whole : ℕ) (h : Histogram) → parts (lines whole h) ≡ 100 * total_reads h
unfolding lines total_reads
parts-lines whole [] = refl
parts-lines whole (e ∷ h) = omega (arith, parts-lines whole h)

-- Each line's percentage is a hundred times its count by this whole.
abbrev pub IsPercent : ℕ → List Line → Type 0
IsPercent whole [] = Unit
IsPercent whole (l ∷ ls) = ((l.part ≡ 100 * l.frequency) × (l.whole ≡ whole)) × IsPercent whole ls

lines-IsPercent : (whole : ℕ) (h : Histogram) → IsPercent whole (lines whole h)
unfolding lines
lines-IsPercent whole [] = tt
lines-IsPercent whole (e ∷ h) = ((omega arith, refl), lines-IsPercent whole h)

-- A non-empty histogram with distinct sizes and positive counts is printed with no division by
-- zero: one line for each size, by rising size, with that size's count and a hundred times it by the
-- total that is printed last, which is not zero; and these percentages add up to a hundred.
pub print_histogram_lem :
    (e : ℕ × ℕ) (rest : Histogram)
    → IsValid (e ∷ rest)
    → let h : Histogram = e ∷ rest in
      (ls : List Line) × (print_histogram h ≡ report ls (total_reads h))
      × (0 < total_reads h)
      × Rises 0 (items ls)
      × ((n : ℕ) → lookup n (items ls) ≡ lookup n h)
      × IsPercent (total_reads h) ls
      × (parts ls ≡ 100 * total_reads h)
unfolding print_histogram
print_histogram_lem e rest v =
    let h : Histogram = e ∷ rest in
    let whole : ℕ = total_reads h in
    (
      lines whole (sorted_items h),
      refl,
      omega (arith, v.0),
      rw (items-lines whole (sorted_items h)) (sorted_items-Rises h v),
      (λ n. rw (items-lines whole (sorted_items h)) (lookup-sorted_items n h v)),
      lines-IsPercent whole (sorted_items h),
      parts-lines whole (sorted_items h) ∙ ap (λ k. 100 * k) (total_reads-sorted_items h),
    )

-- A read counts for its own size and for no other.
pub lookup-count_read :
    (n k : ℕ) (h : Histogram)
    → lookup k (count_read n h) ≡ (if n == k then lookup k h + 1 else lookup k h)
unfolding count_read
lookup-count_read n k [] = ground arith
lookup-count_read n k ((size, f) ∷ h) = ground (arith, lookup-count_read n k h)

-- A read keeps the histogram's sizes distinct and its counts positive, counts once for its own size
-- and for no other.
count_read_lem :
    (n k : ℕ) (h : Histogram)
    → IsValid h
    → IsValid (count_read n h)
      × (lookup k (count_read n h) ≡ (if n == k then lookup k h + 1 else lookup k h))
count_read_lem n k h v = (count_read-IsValid n h v, lookup-count_read n k h)

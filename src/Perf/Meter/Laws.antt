-- ===== src/Perf/Meter/Laws.antt =====
-- What the progress lines say of the whole test.
use migration_transport_hack.Base.{
  ℕ, ◌+◌, ◌≤◌, ◌≡◌, refl, List, [], ◌∷◌, ◌++◌, arith, Bool-cases, inl, inr, leb,
}
use migration_transport_hack.Perf.Meter.{
  Report, Meter, second, started, count, progress_line, report_progress,
}

-- The bytes of all the intervals reported.
abbrev pub intervals : List Report → ℕ
intervals [] = 0
intervals (r ∷ rs) = r.interval_bytes + intervals rs

intervals-append : (xs ys : List Report) → intervals (xs ++ ys) ≡ intervals xs + intervals ys
intervals-append [] ys = omega arith
intervals-append (x ∷ xs) ys = omega (arith, intervals-append xs ys)

-- Every line divides by a whole second or more.
abbrev pub AllTimed : List Report → Type 0
AllTimed [] = Unit
AllTimed (r ∷ rs) = (second ≤ r.elapsed) × AllTimed rs

AllTimed-append :
    (xs : List Report) (r : Report) → second ≤ r.elapsed → AllTimed xs → AllTimed (xs ++ r ∷ [])
AllTimed-append [] r h t = (h, tt)
AllTimed-append (x ∷ xs) r h t = (t.0, AllTimed-append xs r h t.1)

-- Each line is a second or more after the one before it, and the first after the start.
abbrev pub Spaced : ℕ → List Report → Type 0
Spaced t [] = Unit
Spaced t (r ∷ rs) = (t + second ≤ r.elapsed) × Spaced r.elapsed rs

-- When the last line was printed, or the start.
abbrev pub last_elapsed : ℕ → List Report → ℕ
last_elapsed t [] = t
last_elapsed t (r ∷ rs) = last_elapsed r.elapsed rs

Spaced-append :
    (t : ℕ) (xs : List Report) (r : Report)
    → last_elapsed t xs + second ≤ r.elapsed
    → Spaced t xs
    → Spaced t (xs ++ r ∷ [])
Spaced-append t [] r h s = (h, tt)
Spaced-append t (x ∷ xs) r h s = (s.0, Spaced-append x.elapsed xs r h s.1)

last_elapsed-append :
    (t : ℕ) (xs : List Report) (r : Report) → last_elapsed t (xs ++ r ∷ []) ≡ r.elapsed
last_elapsed-append t [] r = refl
last_elapsed-append t (x ∷ xs) r = last_elapsed-append x.elapsed xs r

-- The intervals add up to what has been reported, no more than what was counted; each line is a
-- second or more after the one before it; and no rate is a division by zero.
pub record IsValid (m : Meter) : Type 0 where
  pub reported : intervals m.reports ≡ m.last_report_bytes
  pub within : m.last_report_bytes ≤ m.bytes
  pub last : m.last_report_time ≡ m.start_time + last_elapsed 0 m.reports
  pub spaced : Spaced 0 m.reports
  pub timed : AllTimed m.reports

pub started-IsValid : (now : ℕ) → IsValid (started now)
started-IsValid now = record {
  reported = refl;
  within = omega arith;
  last = omega arith;
  spaced = tt;
  timed = tt;
}

pub count-IsValid : (n : ℕ) (m : Meter) → IsValid m → IsValid (count n m)
unfolding count
count-IsValid n m v = record {
  reported = v.reported;
  within = omega (arith, v.within);
  last = v.last;
  spaced = v.spaced;
  timed = v.timed;
}

-- A progress report keeps the meter valid: the lines' intervals add up to what was reported, they
-- are a second or more apart, and no average is a division by zero.
pub report_progress-IsValid : (now : ℕ) (m : Meter) → IsValid m → IsValid (report_progress now m)
unfolding report_progress
report_progress-IsValid now m v = elim (Bool-cases (leb (m.last_report_time + second) now)) [
  | inl due ↦
      let late : m.last_report_time + second ≤ now = ground arith in
      rw due (record {
        reported =
            omega
              (arith, v.reported, v.within, intervals-append m.reports (progress_line now m ∷ []));
        within = omega arith;
        last = omega (arith, late, v.last, last_elapsed-append 0 m.reports (progress_line now m));
        spaced =
            Spaced-append 0 m.reports (progress_line now m) (omega (arith, late, v.last)) v.spaced;
        timed =
            AllTimed-append m.reports (progress_line now m) (omega (arith, late, v.last)) v.timed;
      })
  | inr early ↦ rw early v
]

-- A report changes none of the counters.
pub report_progress_keeps :
    (now : ℕ) (m : Meter)
    → ((report_progress now m).bytes ≡ m.bytes)
      × ((report_progress now m).chunks ≡ m.chunks)
      × ((report_progress now m).start_time ≡ m.start_time)
unfolding report_progress
report_progress_keeps now m = ground arith

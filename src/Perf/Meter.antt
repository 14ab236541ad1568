-- ===== src/Perf/Meter.antt =====
-- The counters and the progress report that every loop of proxy-perf repeats. Clock readings are
-- whole microseconds; no reading is before the start of the test.
pub mod Laws
use migration_transport_hack.Base.{ℕ, ◌+◌, ◌-◌, List, [], ◌∷◌, snoc, leb, if◌then◌else◌}

abbrev pub second : ℕ
second = 1_000_000

-- One progress line. The rates are quotients of these numbers, `total_mbps` by `elapsed`.
pub record Report : Type 0 where
  pub elapsed : ℕ
  pub bytes : ℕ
  pub chunks : ℕ
  pub interval_bytes : ℕ

pub record Meter : Type 0 where
  pub start_time : ℕ
  pub bytes : ℕ
  pub chunks : ℕ
  pub last_report_time : ℕ
  pub last_report_bytes : ℕ
  pub reports : List Report

abbrev pub started : ℕ → Meter
started now = record {
  start_time = now;
  bytes = 0;
  chunks = 0;
  last_report_time = now;
  last_report_bytes = 0;
  reports = [];
}

-- `bytes += n; chunks += 1`
unfoldable pub count : ℕ → Meter → Meter
count n m = record m { bytes = m.bytes + n; chunks = m.chunks + 1 }

abbrev pub progress_line : ℕ → Meter → Report
progress_line now m = record {
  elapsed = now - m.start_time;
  bytes = m.bytes;
  chunks = m.chunks;
  interval_bytes = m.bytes - m.last_report_bytes;
}

-- `if current_time - last_report_time >= 1.0: ...`
unfoldable pub report_progress : ℕ → Meter → Meter
report_progress now m =
    if leb (m.last_report_time + second) now
    then record m {
      reports = snoc m.reports (progress_line now m);
      last_report_time = now;
      last_report_bytes = m.bytes;
    }
    else m

-- ===== src/Qmp/Monitor/Laws.antt =====
-- When the monitoring loop ends, how often it sleeps, and that it never divides by zero.
use mathlib.Core.Bool.{true≢false}
use text.Mathlib.TextEquality.{eq_iff}
use text.Mathlib.Text.{◌==◌ as str_eq}
use mathlib.Core.Option.{get_or}
use migration_transport_hack.Base.{
  sym, ◌∙◌, false, String, ltb, ltb→lt, Bool-cases, ℕ, ◌+◌, ◌≡◌, ◌<◌, refl, ap, ◌⊎◌, inl, inr,
  Option, none, some, List, [], ◌∷◌, ◌++◌, arith, length, Option-cases,
}
use migration_transport_hack.Qmp.Monitor.{
  Ram, MigrationInfo, Reply, info, raises, Ending, completed, failed, cancelled, Outcome, over,
  broken, watching, Watch, ending_of, status_of, go_on, monitor, ram_progress,
}

-- The statuses that end a migration. A reply may have none.
abbrev pub Final : Option String → Ending → Type 0
Final status completed = status ≡ some "completed"
Final status failed = status ≡ some "failed"
Final status cancelled = status ≡ some "cancelled"

abbrev pub IsOpen : Option String → Type 0
IsOpen status = (e : Ending) → ¬ Final status e

-- A reply after which the loop sleeps and asks again.
abbrev pub IsGoing : Reply → Type 0
IsGoing (raises e) = ⊥
IsGoing (info i) = IsOpen i.status

abbrev pub AllGoing : List Reply → Type 0
AllGoing [] = Unit
AllGoing (r ∷ rs) = IsGoing r × AllGoing rs

-- What a reply that is not going makes of the loop.
abbrev pub Ends : Reply → Outcome → Type 0
Ends (raises e) o = o ≡ broken e
Ends (info i) o = (e : Ending) × Final i.status e × (o ≡ over e)

-- Either all replies are going, and the loop is still watching after as many sleeps; or they
-- begin with going ones up to a first reply that ends it, with a sleep for each of those before.
abbrev pub Watches : List Reply → Watch → Outcome × Watch → Type 0
Watches rs w (o, w') =
    (AllGoing rs × (o ≡ watching) × (w'.sleeps ≡ w.sleeps + length rs))
    ⊎ ((before : List Reply) × (last : Reply) × (after : List Reply) × (rs ≡ before ++ last ∷ after)
        × AllGoing before
        × Ends last o
        × (w'.sleeps ≡ w.sleeps + length before))

is_not : (s t : String) → str_eq s t ≡ false → ¬ (some s ≡ some t)
is_not s t e same = true≢false (sym ((eq_iff s t).1 (ap (λ o. get_or o s) same)) ∙ e)

IsOpen-none : IsOpen none
IsOpen-none completed = λ h. cc
IsOpen-none failed = λ h. cc
IsOpen-none cancelled = λ h. cc

IsOpen-some :
    (status : String)
    → str_eq status "completed" ≡ false
    → str_eq status "failed" ≡ false
    → str_eq status "cancelled" ≡ false
    → IsOpen (some status)
IsOpen-some status a b c completed = is_not status "completed" a
IsOpen-some status a b c failed = is_not status "failed" b
IsOpen-some status a b c cancelled = is_not status "cancelled" c

-- The code's tests find just the statuses that end a migration.
ending_of-decides :
    (status : Option String)
    → ((ending_of (get_or status "unknown") ≡ none) × IsOpen status)
      ⊎ ((e : Ending) × (ending_of (get_or status "unknown") ≡ some e) × Final status e)
unfolding ending_of
ending_of-decides none = inl (refl, IsOpen-none)
ending_of-decides (some status) = elim (Bool-cases (str_eq status "completed")) [
  | inl a ↦ inr (completed, rw a refl, ap (λ t. some t) ((eq_iff status "completed").0 a))
  | inr a ↦ elim (Bool-cases (str_eq status "failed")) [
    | inl b ↦ inr (failed, rw (a, b) refl, ap (λ t. some t) ((eq_iff status "failed").0 b))
    | inr b ↦ elim (Bool-cases (str_eq status "cancelled")) [
      | inl c ↦
          inr (cancelled, rw (a, b, c) refl, ap (λ t. some t) ((eq_iff status "cancelled").0 c))
      | inr c ↦ inl (rw (a, b, c) refl, λ e. IsOpen-some status a b c e)
    ]
  ]
]

monitor_going :
    (i : MigrationInfo) (rs : List Reply) (w : Watch)
    → ending_of (status_of i) ≡ none
    → monitor (info i ∷ rs) w ≡ monitor rs (go_on i w)
unfolding monitor
monitor_going i rs w going = rw (going, monitor)

monitor_over :
    (i : MigrationInfo) (rs : List Reply) (w : Watch) (e : Ending)
    → ending_of (status_of i) ≡ some e
    → monitor (info i ∷ rs) w ≡ (over e, w)
unfolding monitor
monitor_over i rs w e ends = rw (ends, monitor)

later-Watches :
    (i : MigrationInfo) (rs : List Reply) (w : Watch) (r : Outcome × Watch)
    → IsOpen i.status
    → Watches rs (go_on i w) r
    → Watches (info i ∷ rs) w r
unfolding go_on
later-Watches i rs w r going (inl (all, o, n)) = inl ((going, all), o, omega arith)
later-Watches i rs w r going (inr (before, last, after, e, all, ends, n)) =
    inr (info i ∷ before, last, after, ap (λ t. info i ∷ t) e, (going, all), ends, omega arith)

-- Over any replies, either none of them ends the loop, and it still watches after one sleep for
-- each; or there is a first one that does, by one of the statuses `completed`, `failed` and
-- `cancelled` or by an exception, which decides the outcome, and the loop has slept once for each
-- reply before it.
pub monitor-Watches : (rs : List Reply) (w : Watch) → Watches rs w (monitor rs w)
monitor-Watches [] w = unfold monitor in inl (tt, refl, omega arith)
monitor-Watches (raises e ∷ rs) w =
    unfold monitor in inr ([], raises e, rs, refl, tt, refl, omega arith)
monitor-Watches (info i ∷ rs) w = elim (ending_of-decides i.status) [
  | inr (e, ends, final) ↦
      rw (monitor_over i rs w e ends)
        (inr ([], info i, rs, refl, tt, (e, final, refl), omega arith))
  | inl (going, is_open) ↦
      rw (monitor_going i rs w going)
        (later-Watches i rs w (monitor rs (go_on i w)) is_open (monitor-Watches rs (go_on i w)))
]

-- Progress lines are quotients by a positive total.
abbrev AllPositive : List (ℕ × ℕ) → Type 0
AllPositive [] = Unit
AllPositive ((transferred, total) ∷ rest) = (0 < total) × AllPositive rest

AllPositive-snoc :
    (xs : List (ℕ × ℕ)) (transferred total : ℕ)
    → 0 < total
    → AllPositive xs
    → AllPositive (xs ++ (transferred, total) ∷ [])
AllPositive-snoc [] transferred total h a = (h, tt)
AllPositive-snoc (x ∷ xs) transferred total h a = (a.0, AllPositive-snoc xs transferred total h a.1)

ram_progress-AllPositive :
    (r : Option Ram) (xs : List (ℕ × ℕ)) → AllPositive xs → AllPositive (ram_progress r xs)
ram_progress-AllPositive none xs h = h
ram_progress-AllPositive (some ram) xs h = elim (Bool-cases (ltb 0 (get_or ram.total 0))) [
  | inl positive ↦ rw positive (AllPositive-snoc xs _ _ (ltb→lt _ _ positive) h)
  | inr zero_total ↦ rw zero_total h
]

go_on-AllPositive :
    (i : MigrationInfo) (w : Watch) → AllPositive w.progress → AllPositive (go_on i w).progress
unfolding go_on
go_on-AllPositive i w h = elim (Bool-cases (str_eq (status_of i) "active")) [
  | inl active ↦ rw active (ram_progress-AllPositive i.ram w.progress h)
  | inr idle ↦ rw idle h
]

-- Whatever QEMU answers, the percentage is never a division by zero.
monitor-AllPositive :
    (rs : List Reply) (w : Watch) → AllPositive w.progress → AllPositive (monitor rs w).1.progress
monitor-AllPositive [] w h = unfold monitor in h
monitor-AllPositive (raises e ∷ rs) w h = unfold monitor in h
monitor-AllPositive (info i ∷ rs) w h = elim (Option-cases (ending_of (status_of i))) [
  | inr (e, ends) ↦ rw (monitor_over i rs w e ends) h
  | inl going ↦
      rw (monitor_going i rs w going) (monitor-AllPositive rs (go_on i w) (go_on-AllPositive i w h))
]

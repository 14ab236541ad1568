-- ===== src/Proxy/Session/Laws.antt =====
-- What a handler does to its two forwarders, and when they write no more.
use migration_transport_hack.Base.{
  ◌≡◌, refl, ◌⊎◌, inl, inr, true, false, ◌&&◌, ◌||◌, List, [], ◌∷◌, Bool-cases,
}
use migration_transport_hack.Async.{Result, Raised, cancelled_error, ok, err, None}
use migration_transport_hack.Forward.{Forward, Turn, finished}
use migration_transport_hack.Forward.Quiet.{is_quiet, step-quiet, finished-quiet, cancel_both-quiet}
use migration_transport_hack.Proxy.{live, closed}
use migration_transport_hack.Proxy.System.{Side, tcp_to_unix, unix_to_tcp}
use migration_transport_hack.Proxy.Session.{
  Phase, waiting, cancelling, closing_unix, closing_tcp, over, Session, Event, turns, wakes, joins,
  unix_closes, tcp_closes, cancelled, at_side, cancel, cancel_pending, close_tcp, on_wake, on_join,
  end, when_waiting, when_cancelling, when_closing_unix, when_closing_tcp, on_cancel, step, run,
}

-- Both forwarders read and write no more.
abbrev pub AreQuiet : Session → Type 0
AreQuiet s = (is_quiet s.forth ≡ true) × (is_quiet s.back ≡ true)

-- The client's writer is closed, or the handler has ended by an exception before that.
abbrev pub IsSettled : Session → Type 0
IsSettled s = (s.tcp_writer ≡ closed) ⊎ ((x : Raised) × (s.tcp_writer ≡ live) × (s.result ≡ err x))

-- What holds of a session, by the phase of its handler: the writers are open while it waits; they
-- are closed one after the other; and once it has left the wait both forwarders are quiet, unless a
-- cancellation has ended the wait.
abbrev pub AtPhase : Phase → Session → Type 0
AtPhase waiting s = (s.unix_writer ≡ live) × (s.tcp_writer ≡ live) × (s.cut ≡ false)
AtPhase cancelling s = (s.unix_writer ≡ live) × (s.tcp_writer ≡ live) × (s.cut ≡ false) × AreQuiet s
AtPhase closing_unix s =
    (s.unix_writer ≡ closed) × (s.tcp_writer ≡ live) × ((s.cut ≡ true) ⊎ AreQuiet s)
AtPhase closing_tcp s =
    (s.unix_writer ≡ closed) × (s.tcp_writer ≡ closed) × ((s.cut ≡ true) ⊎ AreQuiet s)
AtPhase over s = (s.unix_writer ≡ closed) × IsSettled s × ((s.cut ≡ true) ⊎ AreQuiet s)

abbrev pub IsOrderly : Session → Type 0
IsOrderly s = AtPhase s.phase s

at_side-AreQuiet : (side : Side) (t : Turn) (s : Session) → AreQuiet s → AreQuiet (at_side side t s)
at_side-AreQuiet tcp_to_unix t s (q, r) = ((step-quiet t s.forth q).0, r)
at_side-AreQuiet unix_to_tcp t s (q, r) = (q, (step-quiet t s.back r).0)

at_side-calm :
    (side : Side) (t : Turn) (s : Session)
    → (s.cut ≡ true) ⊎ AreQuiet s
    → ((at_side side t s).cut ≡ true) ⊎ AreQuiet (at_side side t s)
at_side-calm tcp_to_unix t s (inl c) = inl c
at_side-calm unix_to_tcp t s (inl c) = inl c
at_side-calm side t s (inr q) = inr (at_side-AreQuiet side t s q)

at_side-AtPhase :
    (p : Phase) (side : Side) (t : Turn) (s : Session) → AtPhase p s → AtPhase p (at_side side t s)
at_side-AtPhase waiting tcp_to_unix t s h = h
at_side-AtPhase waiting unix_to_tcp t s h = h
at_side-AtPhase cancelling tcp_to_unix t s (u, v, c, q) =
    (u, v, c, at_side-AreQuiet tcp_to_unix t s q)
at_side-AtPhase cancelling unix_to_tcp t s (u, v, c, q) =
    (u, v, c, at_side-AreQuiet unix_to_tcp t s q)
at_side-AtPhase closing_unix tcp_to_unix t s (u, v, q) = (u, v, at_side-calm tcp_to_unix t s q)
at_side-AtPhase closing_unix unix_to_tcp t s (u, v, q) = (u, v, at_side-calm unix_to_tcp t s q)
at_side-AtPhase closing_tcp tcp_to_unix t s (u, v, q) = (u, v, at_side-calm tcp_to_unix t s q)
at_side-AtPhase closing_tcp unix_to_tcp t s (u, v, q) = (u, v, at_side-calm unix_to_tcp t s q)
at_side-AtPhase over tcp_to_unix t s (u, v, q) = (u, v, at_side-calm tcp_to_unix t s q)
at_side-AtPhase over unix_to_tcp t s (u, v, q) = (u, v, at_side-calm unix_to_tcp t s q)

at_side-phase : (side : Side) (t : Turn) (s : Session) → (at_side side t s).phase ≡ s.phase
at_side-phase tcp_to_unix t s = refl
at_side-phase unix_to_tcp t s = refl

pub cancel-quiet : (f : Forward) → (is_quiet (cancel f) ≡ true) × ((cancel f).written ≡ f.written)
cancel-quiet f = elim (Bool-cases (finished f)) [
  | inl e ↦ rw e (finished-quiet f e, refl)
  | inr e ↦ rw e (cancel_both-quiet f)
]

pub cancel_pending-AreQuiet : (s : Session) → AreQuiet (cancel_pending s)
cancel_pending-AreQuiet s = ((cancel-quiet s.forth).0, (cancel-quiet s.back).0)

module _ (s : Session) where
  wakes-IsOrderly : (p : Phase) → s.phase ≡ p → AtPhase p s → IsOrderly (when_waiting p on_wake s)
  wakes-IsOrderly waiting e h = elim (Bool-cases (finished s.forth || finished s.back)) [
    | inl d ↦ rw d (h.0, h.1, h.2, cancel_pending-AreQuiet s)
    | inr d ↦ rw (d, e) h
  ]
  wakes-IsOrderly cancelling e h = rw e h
  wakes-IsOrderly closing_unix e h = rw e h
  wakes-IsOrderly closing_tcp e h = rw e h
  wakes-IsOrderly over e h = rw e h

  joins-IsOrderly :
      (p : Phase) → s.phase ≡ p → AtPhase p s → IsOrderly (when_cancelling p on_join s)
  joins-IsOrderly cancelling e (u, v, c, q) =
      elim (Bool-cases (finished s.forth && finished s.back)) [
        | inl d ↦ rw d (refl, v, inr q)
        | inr d ↦ rw (d, e) (u, v, c, q)
      ]
  joins-IsOrderly waiting e h = rw e h
  joins-IsOrderly closing_unix e h = rw e h
  joins-IsOrderly closing_tcp e h = rw e h
  joins-IsOrderly over e h = rw e h

  unix_closes-IsOrderly :
      (p : Phase) (r : Result None)
      → s.phase ≡ p
      → AtPhase p s
      → IsOrderly (when_closing_unix p (close_tcp r) s)
  unix_closes-IsOrderly closing_unix (ok _) e (u, v, q) = (u, refl, q)
  unix_closes-IsOrderly closing_unix (err x) e (u, v, q) = (u, inr (x, v, refl), q)
  unix_closes-IsOrderly waiting r e h = rw e h
  unix_closes-IsOrderly cancelling r e h = rw e h
  unix_closes-IsOrderly closing_tcp r e h = rw e h
  unix_closes-IsOrderly over r e h = rw e h

  tcp_closes-IsOrderly :
      (p : Phase) (r : Result None)
      → s.phase ≡ p
      → AtPhase p s
      → IsOrderly (when_closing_tcp p (end r) s)
  tcp_closes-IsOrderly closing_tcp r e (u, v, q) = (u, inl v, q)
  tcp_closes-IsOrderly waiting r e h = rw e h
  tcp_closes-IsOrderly cancelling r e h = rw e h
  tcp_closes-IsOrderly closing_unix r e h = rw e h
  tcp_closes-IsOrderly over r e h = rw e h

  cancelled-IsOrderly : (p : Phase) → s.phase ≡ p → AtPhase p s → IsOrderly (on_cancel p s)
  cancelled-IsOrderly waiting e (u, v, c) = (refl, v, inl refl)
  cancelled-IsOrderly cancelling e (u, v, c, q) = (u, v, c, cancel_pending-AreQuiet s)
  cancelled-IsOrderly closing_unix e (u, v, q) = (u, inr (cancelled_error, v, refl), q)
  cancelled-IsOrderly closing_tcp e (u, v, q) = (u, inl v, q)
  cancelled-IsOrderly over e h = rw e h

step-IsOrderly : (e : Event) (s : Session) → IsOrderly s → IsOrderly (step e s)
unfolding step
step-IsOrderly (turns side t) s h = rw (at_side-phase side t s) (at_side-AtPhase s.phase side t s h)
step-IsOrderly wakes s h = wakes-IsOrderly s s.phase refl h
step-IsOrderly joins s h = joins-IsOrderly s s.phase refl h
step-IsOrderly (unix_closes r) s h = unix_closes-IsOrderly s s.phase r refl h
step-IsOrderly (tcp_closes r) s h = tcp_closes-IsOrderly s s.phase r refl h
step-IsOrderly cancelled s h = cancelled-IsOrderly s s.phase refl h

pub run-IsOrderly : (es : List Event) (s : Session) → IsOrderly s → IsOrderly (run es s)
unfolding run
run-IsOrderly [] s h = h
run-IsOrderly (e ∷ es) s h = run-IsOrderly es (step e s) (step-IsOrderly e s h)

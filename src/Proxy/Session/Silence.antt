-- ===== src/Proxy/Session/Silence.antt =====
-- What a handler's forwarders write, before and after the handler leaves its wait.
use migration_transport_hack.Base.{
  ◌≡◌, refl, ◌∙◌, ◌⊎◌, inl, inr, true, false, ◌||◌, ◌&&◌, List, [], ◌∷◌, Bool-cases,
}
use migration_transport_hack.Async.{Result, ok, err, None}
use migration_transport_hack.Histogram.{Histogram}
use migration_transport_hack.Forward.{Turn, finished}
use migration_transport_hack.Forward.Quiet.{step-quiet}
use migration_transport_hack.Proxy.{closed}
use migration_transport_hack.Proxy.System.{Side, tcp_to_unix, unix_to_tcp}
use migration_transport_hack.Proxy.Session.{
  Phase, waiting, cancelling, closing_unix, closing_tcp, over, Session, linked, Event, turns, wakes,
  joins, unix_closes, tcp_closes, cancelled, at_side, cancel_pending, close_tcp, on_wake, on_join,
  end, when_waiting, when_cancelling, when_closing_unix, when_closing_tcp, on_cancel, step, run,
}
use migration_transport_hack.Proxy.Session.Laws.{AtPhase, AreQuiet, cancel-quiet, run-IsOrderly}

-- Both forwarders read and write no more, and have written what they had.
abbrev pub IsSilent : Session → Session → Type 0
IsSilent s t = AreQuiet t × (t.forth.written ≡ s.forth.written) × (t.back.written ≡ s.back.written)

module _ (s : Session) (q : AreQuiet s) where
  at_side-IsSilent : (side : Side) (t : Turn) → IsSilent s (at_side side t s)
  at_side-IsSilent tcp_to_unix t =
      let (r, same) = step-quiet t s.forth q.0 in ((r, q.1), same, refl)
  at_side-IsSilent unix_to_tcp t = let (r, same) = step-quiet t s.back q.1 in ((q.0, r), refl, same)

  cancel_pending-IsSilent : IsSilent s (cancel_pending s)
  cancel_pending-IsSilent =
      let (f, same) = cancel-quiet s.forth in
      let (b, same') = cancel-quiet s.back in ((f, b), same, same')

  wakes-IsSilent : (p : Phase) → IsSilent s (when_waiting p on_wake s)
  wakes-IsSilent waiting = elim (Bool-cases (finished s.forth || finished s.back)) [
    | inl d ↦ rw d cancel_pending-IsSilent
    | inr d ↦ rw d (q, refl, refl)
  ]
  wakes-IsSilent cancelling = (q, refl, refl)
  wakes-IsSilent closing_unix = (q, refl, refl)
  wakes-IsSilent closing_tcp = (q, refl, refl)
  wakes-IsSilent over = (q, refl, refl)

  joins-IsSilent : (p : Phase) → IsSilent s (when_cancelling p on_join s)
  joins-IsSilent cancelling = elim (Bool-cases (finished s.forth && finished s.back)) [
    | inl d ↦ rw d (q, refl, refl)
    | inr d ↦ rw d (q, refl, refl)
  ]
  joins-IsSilent waiting = (q, refl, refl)
  joins-IsSilent closing_unix = (q, refl, refl)
  joins-IsSilent closing_tcp = (q, refl, refl)
  joins-IsSilent over = (q, refl, refl)

  unix_closes-IsSilent :
      (p : Phase) (r : Result None) → IsSilent s (when_closing_unix p (close_tcp r) s)
  unix_closes-IsSilent closing_unix (ok _) = (q, refl, refl)
  unix_closes-IsSilent closing_unix (err x) = (q, refl, refl)
  unix_closes-IsSilent waiting r = (q, refl, refl)
  unix_closes-IsSilent cancelling r = (q, refl, refl)
  unix_closes-IsSilent closing_tcp r = (q, refl, refl)
  unix_closes-IsSilent over r = (q, refl, refl)

  tcp_closes-IsSilent : (p : Phase) (r : Result None) → IsSilent s (when_closing_tcp p (end r) s)
  tcp_closes-IsSilent closing_tcp r = (q, refl, refl)
  tcp_closes-IsSilent waiting r = (q, refl, refl)
  tcp_closes-IsSilent cancelling r = (q, refl, refl)
  tcp_closes-IsSilent closing_unix r = (q, refl, refl)
  tcp_closes-IsSilent over r = (q, refl, refl)

  cancelled-IsSilent : (p : Phase) → IsSilent s (on_cancel p s)
  cancelled-IsSilent waiting = (q, refl, refl)
  cancelled-IsSilent cancelling = cancel_pending-IsSilent
  cancelled-IsSilent closing_unix = (q, refl, refl)
  cancelled-IsSilent closing_tcp = (q, refl, refl)
  cancelled-IsSilent over = (q, refl, refl)

step-IsSilent : (e : Event) (s : Session) → AreQuiet s → IsSilent s (step e s)
unfolding step
step-IsSilent (turns side t) s q = at_side-IsSilent s q side t
step-IsSilent wakes s q = wakes-IsSilent s q s.phase
step-IsSilent joins s q = joins-IsSilent s q s.phase
step-IsSilent (unix_closes r) s q = unix_closes-IsSilent s q s.phase r
step-IsSilent (tcp_closes r) s q = tcp_closes-IsSilent s q s.phase r
step-IsSilent cancelled s q = cancelled-IsSilent s q s.phase

pub run-IsSilent : (es : List Event) (s : Session) → AreQuiet s → IsSilent s (run es s)
unfolding run
run-IsSilent [] s q = (q, refl, refl)
run-IsSilent (e ∷ es) s q =
    let (q', f, b) = step-IsSilent e s q in
    let (q'', f', b') = run-IsSilent es (step e s) q' in (q'', f' ∙ f, b' ∙ b)

calm_AreQuiet : (s : Session) → (s.cut ≡ true) ⊎ AreQuiet s → s.cut ≡ false → AreQuiet s
calm_AreQuiet s (inl e) c = cc
calm_AreQuiet s (inr q) c = q

closed-AreQuiet :
    (p : Phase) (s : Session) → AtPhase p s → s.unix_writer ≡ closed → s.cut ≡ false → AreQuiet s
closed-AreQuiet waiting s h u c = cc
closed-AreQuiet cancelling s h u c = h.3
closed-AreQuiet closing_unix s h u c = calm_AreQuiet s h.2 c
closed-AreQuiet closing_tcp s h u c = calm_AreQuiet s h.2 c
closed-AreQuiet over s h u c = calm_AreQuiet s h.2 c

-- Whatever has happened to a connection: if its handler has closed the writer to QEMU, and no
-- cancellation has ended its wait, then neither forwarder writes anything from then on.
pub closed_silent :
    (h : Histogram) (es later : List Event)
    → (run es (linked h)).unix_writer ≡ closed
    → (run es (linked h)).cut ≡ false
    → let s = run es (linked h) in
      ((run later s).forth.written ≡ s.forth.written)
      × ((run later s).back.written ≡ s.back.written)
closed_silent h es later u c =
    let s : Session = run es (linked h) in
    let q : AreQuiet s =
      closed-AreQuiet s.phase s (run-IsOrderly es (linked h) (refl, refl, refl)) u c in
    let (_, f, b) = run-IsSilent later s q in (f, b)

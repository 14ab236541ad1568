-- ===== src/Proxy/Session/Ending.antt =====
-- The end of a connection whose first direction has finished.
use migration_transport_hack.Base.{◌≡◌, refl, sym, ap, ◌∙◌, true, ◌||◌, ◌&&◌, List, [], ◌∷◌, arith}
use migration_transport_hack.Async.{ok}
use migration_transport_hack.Histogram.{Histogram}
use migration_transport_hack.Forward.{Forward, Turn, read_runs, stopped, completed, finished, start}
use migration_transport_hack.Forward as One
use migration_transport_hack.Forward.Order.{reads}
use migration_transport_hack.Forward.Quiet.{quiet-finishes, step-quiet}
use migration_transport_hack.Proxy.{closed}
use migration_transport_hack.Proxy.System.{Side, tcp_to_unix, unix_to_tcp}
use migration_transport_hack.Proxy.Session.{
  waiting, over, Session, linked, Event, turns, wakes, joins, unix_closes, tcp_closes, at_side,
  cancel_pending, close_unix, close_tcp, end, step, run,
}
use migration_transport_hack.Proxy.Session.Laws.{cancel_pending-AreQuiet, cancel-quiet}
use migration_transport_hack.Proxy.Session.Silence.{run-IsSilent}
use migration_transport_hack.Proxy.Session.Closing.{forwarder, turns_at, run-waits}
use migration_transport_hack.Forward.Drain.{written-eq-reads}
use migration_transport_hack.Forward.Delivery.{IsRoomy}

-- The rounds in which a connection ends after its first direction has.
abbrev pub ending : List Event
ending =
    wakes
    ∷ turns tcp_to_unix read_runs
    ∷ turns unix_to_tcp read_runs
    ∷ joins
    ∷ unix_closes (ok tt)
    ∷ tcp_closes (ok tt)
    ∷ []

-- The session as `await task` finds it.
abbrev joined : Session → Session
joined s = at_side unix_to_tcp read_runs (at_side tcp_to_unix read_runs (cancel_pending s))

finished-joined : (s : Session) → finished (joined s).forth && finished (joined s).back ≡ true
finished-joined s =
    let (f, b) = cancel_pending-AreQuiet s in
    rw (quiet-finishes (cancel_pending s).forth f, quiet-finishes (cancel_pending s).back b) refl

wakes-cancels :
    (s : Session)
    → s.phase ≡ waiting
    → finished s.forth || finished s.back ≡ true
    → step wakes s ≡ cancel_pending s
unfolding step
wakes-cancels s e d = rw (e, d) refl

joins-closes : (s : Session) → step joins (joined s) ≡ close_unix (joined s)
unfolding step
joins-closes s = rw (finished-joined s) refl

ending_is :
    (s : Session)
    → s.phase ≡ waiting
    → finished s.forth || finished s.back ≡ true
    → run ending s ≡ end (ok tt) (close_tcp (ok tt) (close_unix (joined s)))
unfolding run step
ending_is s e d =
    ap
      (λ r.
        run
          (turns tcp_to_unix read_runs
            ∷ turns unix_to_tcp read_runs
            ∷ joins
            ∷ unix_closes (ok tt)
            ∷ tcp_closes (ok tt)
            ∷ [])
          r)
      (wakes-cancels s e d)
    ∙ ap (λ r. run (unix_closes (ok tt) ∷ tcp_closes (ok tt) ∷ []) r) (joins-closes s)

-- A forwarder has written what it had when the handler left its wait.
joined-written :
    (s : Session) (side : Side) → (forwarder side (joined s)).written ≡ (forwarder side s).written
joined-written s tcp_to_unix =
    let (f, b) = cancel_pending-AreQuiet s in
    (step-quiet read_runs (cancel_pending s).forth f).1 ∙ (cancel-quiet s.forth).1
joined-written s unix_to_tcp =
    let (f, b) = cancel_pending-AreQuiet s in
    (step-quiet read_runs (cancel_pending s).back b).1 ∙ (cancel-quiet s.back).1

pub either_finished :
    (side : Side) (s : Session)
    → finished (forwarder side s) ≡ true
    → finished s.forth || finished s.back ≡ true
either_finished tcp_to_unix s d = rw d refl
either_finished unix_to_tcp s d = ground arith

-- What the end of a connection comes to: the handler is over, both writers are closed, and each
-- forwarder has written what it had.
abbrev pub Ends : Session → Session → Type 0
Ends s r =
    (r.phase ≡ over)
    × (r.unix_writer ≡ closed)
    × (r.tcp_writer ≡ closed)
    × (r.forth.written ≡ s.forth.written)
    × (r.back.written ≡ s.back.written)

pub ending-Ends :
    (s : Session)
    → s.phase ≡ waiting
    → finished s.forth || finished s.back ≡ true
    → Ends s (run ending s)
ending-Ends s e d =
    rw (ending_is s e d)
      (refl, refl, refl, joined-written s tcp_to_unix, joined-written s unix_to_tcp)

start_of : (side : Side) (h : Histogram) → forwarder side (linked h) ≡ start h
start_of tcp_to_unix h = refl
start_of unix_to_tcp h = refl

-- The forwarder of a side after its own turns, from the start.
pub own :
    (h : Histogram) (es : List Event) (side : Side)
    → (run es (linked h)).phase ≡ waiting
    → forwarder side (run es (linked h)) ≡ One.run (turns_at side es) (start h)
own h es side e =
    (run-waits es (linked h) e).1 side ∙ ap (One.run (turns_at side es)) (start_of side h)

-- From the step that ends the wait on, neither forwarder writes anything, whatever happens.
waked-IsSilent :
    (s : Session) (later : List Event)
    → s.phase ≡ waiting
    → finished s.forth || finished s.back ≡ true
    → ((run later (step wakes s)).forth.written ≡ s.forth.written)
      × ((run later (step wakes s)).back.written ≡ s.back.written)
waked-IsSilent s later e d =
    let (_, f, b) = run-IsSilent later (cancel_pending s) (cancel_pending-AreQuiet s) in
    rw (wakes-cancels s e d) (f ∙ (cancel-quiet s.forth).1, b ∙ (cancel-quiet s.back).1)

-- Let the forwarder of one side finish while the handler waits, and let it have had its own turns
-- with room in its queue, no cancelled read and no failed write, and its write task have completed.
-- Then it has written all that it has read; from the step that ends the wait on, whatever turns and
-- other events follow, neither forwarder writes anything more, whatever the other one still has
-- queued; and after the rounds that end the connection, if both `wait_closed` return, the handler
-- is over and both writers are closed.
pub first_direction :
    (h : Histogram) (es later : List Event) (side : Side)
    → (run es (linked h)).phase ≡ waiting
    → finished (forwarder side (run es (linked h))) ≡ true
    → (forwarder side (run es (linked h))).write_task ≡ stopped completed
    → IsRoomy (turns_at side es) (start h)
    → let s = run es (linked h) in
      let r = run later (step wakes s) in
      ((forwarder side s).written ≡ reads (turns_at side es) (start h))
      × ((r.forth.written ≡ s.forth.written) × (r.back.written ≡ s.back.written))
      × Ends s (run ending s)
first_direction h es later side e d done roomy =
    let s : Session = run es (linked h) in
    let mine = own h es side e in
    (
      ap (λ f. f.written) mine
          ∙ written-eq-reads (turns_at side es) h roomy (sym (ap (λ f. f.write_task) mine) ∙ done),
      waked-IsSilent s later e (either_finished side s d),
      ending-Ends s e (either_finished side s d),
    )

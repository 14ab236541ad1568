-- ===== src/Proxy/Session/Liveness.antt =====
-- That a connection ends.
use mathlib.Core.Path.{subst}
use migration_transport_hack.Base.{
  ◌≡◌, refl, sym, ap, ◌∙◌, ◌<◌, true, false, List, [], ◌∷◌, ◌++◌, length,
}
use migration_transport_hack.Histogram.{Histogram}
use migration_transport_hack.Forward.{Forward, Turn, start, finished}
use migration_transport_hack.Forward as One
use migration_transport_hack.Forward.Finish.{is_stopped}
use migration_transport_hack.Forward.Wakeup.{is_ended}
use migration_transport_hack.Forward.Fair.{IsSteady, writer_turns, fair_finishes}
use migration_transport_hack.Proxy.System.{Side, tcp_to_unix, unix_to_tcp}
use migration_transport_hack.Proxy.Session.{
  waiting, Session, linked, Event, turns, wakes, joins, unix_closes, tcp_closes, cancelled, step,
  run,
}
use migration_transport_hack.Proxy.Session.Closing.{forwarder, turns_at, run-waits}
use migration_transport_hack.Proxy.Session.Ending.{ending, Ends, ending-Ends, either_finished, own}

-- Nothing happens but turns of the two forwarders, in any order.
abbrev pub AreTurns : List Event → Type 0
AreTurns [] = Unit
AreTurns (turns side t ∷ es) = AreTurns es
AreTurns (_ ∷ es) = ⊥

turns-phase : (side : Side) (t : Turn) (s : Session) → (step (turns side t) s).phase ≡ s.phase
unfolding step
turns-phase tcp_to_unix t s = refl
turns-phase unix_to_tcp t s = refl

run-phase : (es : List Event) (s : Session) → AreTurns es → (run es s).phase ≡ s.phase
unfolding run
run-phase [] s a = refl
run-phase (turns side t ∷ es) s a = run-phase es (step (turns side t) s) a ∙ turns-phase side t s
run-phase (wakes ∷ es) s a = absurd a
run-phase (joins ∷ es) s a = absurd a
run-phase (unix_closes r ∷ es) s a = absurd a
run-phase (tcp_closes r ∷ es) s a = absurd a
run-phase (cancelled ∷ es) s a = absurd a

-- `fair_finishes`, for a forwarder that is what some turns have made of a new one.
fair_from :
    (before after : List Turn) (h : Histogram) (f : Forward)
    → f ≡ One.run before (start h)
    → is_ended f.read_task ≡ true
    → is_stopped f.write_task ≡ false
    → IsSteady after
    → length f.queue.queue < writer_turns after
    → (finished (One.run after f) ≡ true) × ((One.run after f).written ≡ f.written ++ f.queue.queue)
fair_from before after h f same =
    subst
      (λ g.
        is_ended g.read_task ≡ true
        → is_stopped g.write_task ≡ false
        → IsSteady after
        → length g.queue.queue < writer_turns after
        → (finished (One.run after g) ≡ true)
          × ((One.run after g).written ≡ g.written ++ g.queue.queue))
      (sym same) (fair_finishes before after h)

-- Let the read task of one side have ended while the handler waits, and its write task go on. In
-- any schedule of turns of both forwarders that gives this write task a turn more than there are
-- chunks in its queue, without a cancellation of it or a failed write, the forwarder writes all
-- that it has queued; and after the rounds that then end the connection, if both `wait_closed`
-- return, the handler is over and both writers are closed.
pub connection-Ends :
    (h : Histogram) (es later : List Event) (side : Side)
    → (run es (linked h)).phase ≡ waiting
    → is_ended (forwarder side (run es (linked h))).read_task ≡ true
    → is_stopped (forwarder side (run es (linked h))).write_task ≡ false
    → AreTurns later
    → IsSteady (turns_at side later)
    → length (forwarder side (run es (linked h))).queue.queue < writer_turns (turns_at side later)
    → let s = run es (linked h) in
      let t = run later s in
      ((forwarder side t).written ≡ (forwarder side s).written ++ (forwarder side s).queue.queue)
      × Ends t (run ending t)
connection-Ends h es later side e ended_now going only steady more =
    let s : Session = run es (linked h) in
    let t : Session = run later s in
    let still : t.phase ≡ waiting = run-phase later s only ∙ e in
    let turned = (run-waits later s still).1 side in
    let (ends, all) =
      fair_from (turns_at side es) (turns_at side later) h (forwarder side s) (own h es side e)
        ended_now going steady more in
    (
      ap (λ f. f.written) turned ∙ all,
      ending-Ends t still (either_finished side t (ap finished turned ∙ ends)),
    )

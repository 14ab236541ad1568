-- ===== src/Proxy/Session/Closing.antt =====
-- How the wait of a handler ends, and with it the connection.
use mathlib.Core.Path.{subst}
use migration_transport_hack.Base.{
  ◌≡◌, refl, sym, ap, ◌∙◌, inl, inr, ◌||◌, ◌&&◌, List, [], ◌∷◌, ◌++◌, Bool-cases, if◌then◌else◌,
}
use migration_transport_hack.Async.{Result, ok, err, None}
use migration_transport_hack.Forward.{Forward, Turn, read_runs, stopped, completed, finished, start}
use migration_transport_hack.Forward as One
use migration_transport_hack.Proxy.System.{Side, tcp_to_unix, unix_to_tcp, same_side}
use migration_transport_hack.Proxy.Session.{
  Phase, waiting, cancelling, closing_unix, closing_tcp, over, Session, Event, turns, wakes, joins,
  unix_closes, tcp_closes, cancelled, at_side, cancel_pending, close_unix, close_tcp, on_wake,
  on_join, end, when_waiting, when_cancelling, when_closing_unix, when_closing_tcp, on_cancel, step,
  run,
}

abbrev pub forwarder : Side → Session → Forward
forwarder tcp_to_unix s = s.forth
forwarder unix_to_tcp s = s.back

-- What an event turns in the forwarder of a side, and in turn what a list of events does.
abbrev pub turn_at : Side → Event → List Turn
turn_at side (turns other t) = if same_side other side then t ∷ [] else []
turn_at side _ = []

abbrev pub turns_at : Side → List Event → List Turn
turns_at side [] = []
turns_at side (e ∷ es) = turn_at side e ++ turns_at side es

-- A step that ends in the wait has begun there, and has done to each forwarder what its turns do.
abbrev Waits : Event → Session → Type 0
Waits e s =
    (s.phase ≡ waiting)
    × ((side : Side) → forwarder side (step e s) ≡ One.run (turn_at side e) (forwarder side s))

at_side-forwarder :
    (other side : Side) (t : Turn) (s : Session)
    → forwarder side (at_side other t s)
      ≡ One.run (if same_side other side then t ∷ [] else []) (forwarder side s)
unfolding One.run
at_side-forwarder tcp_to_unix tcp_to_unix t s = refl
at_side-forwarder tcp_to_unix unix_to_tcp t s = refl
at_side-forwarder unix_to_tcp tcp_to_unix t s = refl
at_side-forwarder unix_to_tcp unix_to_tcp t s = refl

same : (s : Session) (side : Side) → forwarder side s ≡ One.run [] (forwarder side s)
unfolding One.run
same s side = refl

at_side-phase : (side : Side) (t : Turn) (s : Session) → (at_side side t s).phase ≡ s.phase
at_side-phase tcp_to_unix t s = refl
at_side-phase unix_to_tcp t s = refl

turns-Waits :
    (other : Side) (t : Turn) (s : Session)
    → (step (turns other t) s).phase ≡ waiting
    → Waits (turns other t) s
unfolding step
turns-Waits other t s h =
    (sym (at_side-phase other t s) ∙ h, λ side. at_side-forwarder other side t s)

-- The other events change the phase, or nothing.
module _ (s : Session) where
  wakes-same :
      (p : Phase)
      → s.phase ≡ p
      → (when_waiting p on_wake s).phase ≡ waiting
      → when_waiting p on_wake s ≡ s
  wakes-same waiting e h = elim (Bool-cases (finished s.forth || finished s.back)) [
    | inl d ↦
        let away : cancelling ≡ waiting =
          subst (λ b. (if b then cancel_pending s else s).phase ≡ waiting) d h in
        cc
    | inr d ↦ rw d refl
  ]
  wakes-same cancelling e h = refl
  wakes-same closing_unix e h = refl
  wakes-same closing_tcp e h = refl
  wakes-same over e h = refl

  joins-same :
      (p : Phase)
      → s.phase ≡ p
      → (when_cancelling p on_join s).phase ≡ waiting
      → when_cancelling p on_join s ≡ s
  joins-same cancelling e h = elim (Bool-cases (finished s.forth && finished s.back)) [
    | inl d ↦
        let away : closing_unix ≡ waiting =
          subst (λ b. (if b then close_unix s else s).phase ≡ waiting) d h in
        cc
    | inr d ↦ rw d refl
  ]
  joins-same waiting e h = refl
  joins-same closing_unix e h = refl
  joins-same closing_tcp e h = refl
  joins-same over e h = refl

  unix_closes-same :
      (p : Phase) (r : Result None)
      → s.phase ≡ p
      → (when_closing_unix p (close_tcp r) s).phase ≡ waiting
      → when_closing_unix p (close_tcp r) s ≡ s
  unix_closes-same closing_unix (ok _) e h = cc
  unix_closes-same closing_unix (err x) e h = cc
  unix_closes-same waiting r e h = refl
  unix_closes-same cancelling r e h = refl
  unix_closes-same closing_tcp r e h = refl
  unix_closes-same over r e h = refl

  tcp_closes-same :
      (p : Phase) (r : Result None)
      → s.phase ≡ p
      → (when_closing_tcp p (end r) s).phase ≡ waiting
      → when_closing_tcp p (end r) s ≡ s
  tcp_closes-same closing_tcp r e h = cc
  tcp_closes-same waiting r e h = refl
  tcp_closes-same cancelling r e h = refl
  tcp_closes-same closing_unix r e h = refl
  tcp_closes-same over r e h = refl

  cancelled-same : (p : Phase) → s.phase ≡ p → (on_cancel p s).phase ≡ waiting → on_cancel p s ≡ s
  cancelled-same waiting e h = cc
  cancelled-same cancelling e h = cc
  cancelled-same closing_unix e h = cc
  cancelled-same closing_tcp e h = cc
  cancelled-same over e h = refl

  same-Waits :
      (e : Event)
      → ((side : Side) → turn_at side e ≡ [])
      → step e s ≡ s
      → (step e s).phase ≡ waiting
      → Waits e s
  same-Waits e none_at i h =
      (sym (ap (λ r. r.phase) i) ∙ h, λ side. rw (none_at side, i) (same s side))

step-Waits : (e : Event) (s : Session) → (step e s).phase ≡ waiting → Waits e s
unfolding step
step-Waits (turns side t) s h = turns-Waits side t s h
step-Waits wakes s h = same-Waits s wakes (λ side. refl) (wakes-same s s.phase refl h) h
step-Waits joins s h = same-Waits s joins (λ side. refl) (joins-same s s.phase refl h) h
step-Waits (unix_closes r) s h =
    same-Waits s (unix_closes r) (λ side. refl) (unix_closes-same s s.phase r refl h) h
step-Waits (tcp_closes r) s h =
    same-Waits s (tcp_closes r) (λ side. refl) (tcp_closes-same s s.phase r refl h) h
step-Waits cancelled s h = same-Waits s cancelled (λ side. refl) (cancelled-same s s.phase refl h) h

One-run-++ : (ts us : List Turn) (f : Forward) → One.run (ts ++ us) f ≡ One.run us (One.run ts f)
unfolding One.run
One-run-++ [] us f = refl
One-run-++ (t ∷ ts) us f = One-run-++ ts us (One.step t f)

-- While the handler waits, each forwarder has done its own turns and nothing else.
pub run-waits :
    (es : List Event) (s : Session)
    → (run es s).phase ≡ waiting
    → (s.phase ≡ waiting)
      × ((side : Side) → forwarder side (run es s) ≡ One.run (turns_at side es) (forwarder side s))
unfolding run
run-waits [] s h = (h, λ side. same s side)
run-waits (e ∷ es) s h =
    let (here, later) = run-waits es (step e s) h in
    let (first, own) = step-Waits e s here in
    (
      first,
      λ side.
          later side
          ∙ ap (One.run (turns_at side es)) (own side)
          ∙ sym (One-run-++ (turn_at side e) (turns_at side es) (forwarder side s)),
    )

-- ===== src/Proxy/System/Private.antt =====
-- Connections do not disturb one another.
use mathlib.Core.Path.{subst}
use migration_transport_hack.Base.{
  ℕ, ◌≡◌, refl, ap, ◌∙◌, Option, none, some, true, false, List, [], ◌∷◌, ◌==◌, ◌&&◌, if◌then◌else◌,
  Bool-cases, inl, inr, arith,
}
use migration_transport_hack.Histogram.{Histogram}
use migration_transport_hack.Forward.{Forward, Turn}
use migration_transport_hack.Forward as One
use migration_transport_hack.Forward.Order.{read_by}
use migration_transport_hack.Forward.Shared.{share, counted, step-share}
use migration_transport_hack.Proxy.System.{
  is_none, turn, links_now, Side, tcp_to_unix, unix_to_tcp, same_side, System, Event, connects,
  links, turns, step, run,
}

-- The turns of one forwarder in a schedule of the whole server.
abbrev pub turns_of : ℕ → Side → List Event → List Turn
turns_of i side [] = []
turns_of i side (connects ∷ es) = turns_of i side es
turns_of i side (links j ∷ es) = turns_of i side es
turns_of i side (turns j other t ∷ es) =
    let rest = turns_of i side es in if j == i && same_side other side then t ∷ rest else rest

-- A forwarder of the server is that one, but for the histogram.
abbrev Is : Option Forward → Forward → Type 0
Is o f = (h : Histogram) × (o ≡ some (share h f))

-- A number that links now has no forwarder on either side.
links_now-none :
    (i : ℕ) (s : System) (side : Side) → links_now i s ≡ true → is_none (s.forwards i side) ≡ true
links_now-none i s tcp_to_unix l = ground arith
links_now-none i s unix_to_tcp l = ground arith

links-Is :
    (j i : ℕ) (side : Side) (s : System) (f : Forward)
    → Is (s.forwards i side) f
    → Is ((step (links j) s).forwards i side) f
unfolding step
links-Is j i side s f (h, e) = elim (Bool-cases (links_now j s)) [
  | inr no_link ↦ rw no_link (h, e)
  | inl now ↦ rw now (elim (Bool-cases (j == i)) [
    | inr apart ↦ rw apart (h, e)
    | inl same ↦
        let at_j : is_none (s.forwards j side) ≡ true = links_now-none j s side now in
        let eq : j ≡ i = ground arith in
        cc (ap is_none e, subst (λ (k : ℕ). is_none (s.forwards k side) ≡ true) eq at_j)
  ])
]

same_side-eq : (a b : Side) → same_side a b ≡ true → a ≡ b
same_side-eq tcp_to_unix tcp_to_unix e = refl
same_side-eq unix_to_tcp unix_to_tcp e = refl
same_side-eq tcp_to_unix unix_to_tcp e = cc
same_side-eq unix_to_tcp tcp_to_unix e = cc

turn-Is :
    (j i : ℕ) (other side : Side) (o : Option Forward) (s : System) (f : Forward)
    → j == i && same_side other side ≡ false
    → Is (s.forwards i side) f
    → Is ((turn j other o s).forwards i side) f
turn-Is j i other side none s f apart is = is
turn-Is j i other side (some g) s f apart is = rw apart is

turns-Is :
    (j i : ℕ) (other side : Side) (t : Turn) (s : System) (f : Forward)
    → Is (s.forwards i side) f
    → Is
        ((step (turns j other t) s).forwards i side)
        (if j == i && same_side other side then One.step t f else f)
unfolding step
turns-Is j i other side t s f (h, e) = elim (Bool-cases (j == i && same_side other side)) [
  | inr apart ↦ simp apart (turn-Is j i other side _ s f apart (h, e))
  | inl same ↦
      let number : j ≡ i = ground (arith, same) in
      let way : other ≡ side = same_side-eq other side (ground (arith, same)) in
      let at_j : s.forwards j other ≡ some (share h f) =
        ap (λ (k : ℕ). s.forwards k other) number ∙ ap (λ d. s.forwards i d) way ∙ e in
      (
        counted (read_by t f.read_task) s.read_histogram,
        rw (at_j, same) (ap some (step-share t s.read_histogram f)),
      )
]

-- Whatever the other connections do, and however all of them are interleaved, a forwarder of the
-- server does exactly what it does alone on its own turns; only the histogram is shared.
pub run-alone :
    (es : List Event) (s : System) (i : ℕ) (side : Side) (f : Forward) (h : Histogram)
    → s.forwards i side ≡ some (share h f)
    → (k : Histogram) × ((run es s).forwards i side
        ≡ some (share k (One.run (turns_of i side es) f)))
unfolding run One.run
run-alone [] s i side f h e = (h, e)
run-alone (connects ∷ es) s i side f h e =
    run-alone es (step connects s) i side f h (unfold step in e)
run-alone (links j ∷ es) s i side f h e =
    let (h', e') = links-Is j i side s f (h, e) in run-alone es (step (links j) s) i side f h' e'
run-alone (turns j other t ∷ es) s i side f h e =
    let (h', e') = turns-Is j i other side t s f (h, e) in
    elim (Bool-cases (j == i && same_side other side)) [
      | inl same ↦
          rw same (run-alone es (step (turns j other t) s) i side (One.step t f) h' (rw same at e'))
      | inr apart ↦ rw apart (run-alone es (step (turns j other t) s) i side f h' (rw apart at e'))
    ]

-- ===== src/Proxy/Session/Refines.antt =====
-- The handler as a machine against `handle_client` as one action.
use mathlib.Core.Path.{subst}
use migration_transport_hack.Base.{ℕ, ◌≡◌, refl, sym, ◌⊎◌, inl, inr, Bool, true, false, List, arith}
use migration_transport_hack.Async.{Result, ok, err, Raised, None}
use migration_transport_hack.Histogram.{Histogram}
use migration_transport_hack.Forward.{Forward}
use migration_transport_hack.Forward.Quiet.{is_quiet}
use migration_transport_hack.Connect.{Probe, connect_to_unix_socket, opened}
use migration_transport_hack.Proxy.{
  Socket, live, closed, Task, running, Waited, both_done, wait_cancelled, Answers, Handler,
}
use migration_transport_hack.Proxy as Sockets
use migration_transport_hack.Proxy.Server.{Server, handle_client}
use migration_transport_hack.Proxy.Session.{over, Session, linked, Event, run}
use migration_transport_hack.Proxy.Session.Laws.{
  AreQuiet, AtPhase, IsSettled, IsOrderly, run-IsOrderly,
}

-- What a task of the action stands for: one that runs on, after a cancelled wait, or one that has
-- stopped reading and writing.
abbrev Stands : Bool → Task → Forward → Type 0
Stands cut t f = ((cut ≡ true) × (t ≡ running)) ⊎ ((t ≡ Sockets.over) × (is_quiet f ≡ true))

-- The action ends as the machine has: with its result, its sockets and its tasks.
abbrev pub Matches : Session → Result None → Handler → Type 0
Matches s r h =
    (r ≡ s.result)
    × (h.inner ≡ s.unix_writer)
    × (h.outer ≡ s.tcp_writer)
    × Stands s.cut h.forth s.forth
    × Stands s.cut h.back s.back

-- What the calls around the handler must have answered.
abbrev waited_as : Bool → Waited
waited_as true = wait_cancelled
waited_as false = both_done

abbrev task_of : Bool → Task
task_of true = running
task_of false = Sockets.over

abbrev answers : Bool → Result None → Result None → Answers
answers cut inner outer = record {
  waited = waited_as cut;
  inner_closes = inner;
  outer_closes = outer;
}

stands :
    (cut : Bool) (f : Forward) → (cut ≡ true) ⊎ (is_quiet f ≡ true) → Stands cut (task_of cut) f
stands true f q = inl (refl, refl)
stands false f (inr q) = inr (refl, q)
stands false f (inl e) = cc

calm :
    (s : Session)
    → (s.cut ≡ true) ⊎ AreQuiet s
    → Stands s.cut (task_of s.cut) s.forth × Stands s.cut (task_of s.cut) s.back
calm s (inl e) = (stands s.cut s.forth (inl e), stands s.cut s.back (inl e))
calm s (inr q) = (stands s.cut s.forth (inr q.0), stands s.cut s.back (inr q.1))

at_end :
    (s : Session)
    → s.phase ≡ over
    → IsOrderly s
    → (s.unix_writer ≡ closed) × IsSettled s × ((s.cut ≡ true) ⊎ AreQuiet s)
at_end s e h = subst (λ p. AtPhase p s) e h

module _ (p : ℕ → Probe) (server : Server) (k : ℕ)
    (c : (connect_to_unix_socket p 30 1).0 ≡ opened k) where
  closes_both :
      (cut : Bool) (r : Result None)
      → (handle_client p (answers cut (ok tt) r) server).1
        ≡ (r, record { inner = closed; outer = closed; forth = task_of cut; back = task_of cut })
  unfolding handle_client
  closes_both true r = ground arith
  closes_both false r = ground arith

  closes_one :
      (cut : Bool) (x : Raised)
      → (handle_client p (answers cut (err x) (ok tt)) server).1
        ≡ (err x, record { inner = closed; outer = live; forth = task_of cut; back = task_of cut })
  unfolding handle_client
  closes_one true x = ground arith
  closes_one false x = ground arith

  settled-Matches :
      (s : Session)
      → s.unix_writer ≡ closed
      → IsSettled s
      → (s.cut ≡ true) ⊎ AreQuiet s
      → (a : Answers) × (let (r, h) = (handle_client p a server).1 in Matches s r h)
  settled-Matches s u (inl v) q =
      let (f, b) = calm s q in
      (answers s.cut (ok tt) s.result, rw (closes_both s.cut s.result) (refl, sym u, sym v, f, b))
  settled-Matches s u (inr (x, v, e)) q =
      let (f, b) = calm s q in
      (answers s.cut (err x) (ok tt), rw (closes_one s.cut x) (sym e, sym u, sym v, f, b))

-- Where the handler has connected to QEMU, however its connection then goes, once the machine is
-- over it has ended as the action `handle_client` does for some answers of the calls around it:
-- with its result, its sockets, and tasks that have stopped or, after a cancelled wait, run on.
pub session_refines :
    (p : ℕ → Probe) (server : Server) (k : ℕ) (h : Histogram) (es : List Event)
    → (connect_to_unix_socket p 30 1).0 ≡ opened k
    → (run es (linked h)).phase ≡ over
    → (a : Answers) × (let (r, t) = (handle_client p a server).1 in Matches (run es (linked h)) r t)
session_refines p server k h es c e =
    let (u, v, q) = at_end (run es (linked h)) e (run-IsOrderly es (linked h) (refl, refl, refl)) in
    settled-Matches p server k c (run es (linked h)) u v q

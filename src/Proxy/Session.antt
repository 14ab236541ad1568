-- ===== src/Proxy/Session.antt =====
-- One connection of the TCP server from the start of its tasks on: `handle_client` of
-- migrate-proxy/tcp-migration-server.py with both of its `forward_data`, suspended at each `await`.
pub mod Laws
pub mod Silence
pub mod Closing
pub mod Ending
pub mod Refines
pub mod Liveness
use migration_transport_hack.Base.{Bool, true, false, not, ◌&&◌, ◌||◌, List, [], ◌∷◌, if◌then◌else◌}
use migration_transport_hack.Async.{Result, ok, err, None, cancelled_error}
use migration_transport_hack.Histogram.{Histogram}
use migration_transport_hack.Forward.{
  Forward, Turn, read_cancelled, write_cancelled, start, finished, cancel_both,
}
use migration_transport_hack.Forward as One
use migration_transport_hack.Proxy.{Socket, live, closed}
use migration_transport_hack.Proxy.System.{Side, tcp_to_unix, unix_to_tcp}

-- Where the handler stands.
pub data Phase : Type 0 where
  waiting : Phase  -- in `asyncio.wait`
  cancelling : Phase  -- in `await task`, the pending tasks cancelled
  closing_unix : Phase  -- in `await unix_writer.wait_closed()`
  closing_tcp : Phase
  over : Phase

pub record Session : Type 0 where
  pub phase : Phase
  pub forth : Forward  -- from TCP to QEMU
  pub back : Forward
  pub unix_writer : Socket
  pub tcp_writer : Socket
  pub cut : Bool  -- whether a cancellation has ended the wait
  pub result : Result None  -- how the handler has ended, once it is over

-- Both tasks have just been created. The forwarders share the server's histogram, which
-- `Proxy.System` models; here each counts its own reads on top of it.
abbrev pub linked : Histogram → Session
linked h = record {
  phase = waiting;
  forth = start h;
  back = start h;
  unix_writer = live;
  tcp_writer = live;
  cut = false;
  result = ok tt;
}

pub data Event : Type 0 where
  turns : Side → Turn → Event  -- a task of a forwarder goes on
  wakes : Event  -- the wait ends, if a forwarder has
  joins : Event  -- the awaits of the cancelled tasks end, if they have
  unix_closes : Result None → Event  -- an answer of `wait_closed`
  tcp_closes : Result None → Event
  cancelled : Event  -- the handler is cancelled at its `await`

abbrev pub at_side : Side → Turn → Session → Session
at_side tcp_to_unix t s = record s { forth = One.step t s.forth }
at_side unix_to_tcp t s = record s { back = One.step t s.back }

-- `task.cancel()` cancels the two tasks in `gather`, if `forward_data` has not ended.
abbrev pub cancel : Forward → Forward
cancel f = if finished f then f else cancel_both f

-- The loop over `pending`.
abbrev pub cancel_pending : Session → Session
cancel_pending s = record s { phase = cancelling; forth = cancel s.forth; back = cancel s.back }

-- The `finally` block up to its first `await`.
abbrev pub close_unix : Session → Session
close_unix s = record s { phase = closing_unix; unix_writer = closed }

-- `return_when=FIRST_COMPLETED`
abbrev on_wake : Session → Session
on_wake s = if finished s.forth || finished s.back then cancel_pending s else s

abbrev on_join : Session → Session
on_join s = if finished s.forth && finished s.back then close_unix s else s

-- The last line of the handler: the answer of `writer.wait_closed()` is its result.
abbrev pub end : Result None → Session → Session
end r s = record s { phase = over; result = r }

abbrev close_tcp : Result None → Session → Session
close_tcp (ok _) s = record s { phase = closing_tcp; tcp_writer = closed }
close_tcp (err e) s = end (err e) s

abbrev pub when_waiting : Phase → (Session → Session) → Session → Session
when_waiting waiting f s = f s
when_waiting _ f s = s

abbrev when_cancelling : Phase → (Session → Session) → Session → Session
when_cancelling cancelling f s = f s
when_cancelling _ f s = s

abbrev when_closing_unix : Phase → (Session → Session) → Session → Session
when_closing_unix closing_unix f s = f s
when_closing_unix _ f s = s

abbrev when_closing_tcp : Phase → (Session → Session) → Session → Session
when_closing_tcp closing_tcp f s = f s
when_closing_tcp _ f s = s

-- `CancelledError`: the wait ends without a look at the tasks; an `await task` hands it to the task,
-- and passes it over; and it leaves the `finally` block.
abbrev on_cancel : Phase → Session → Session
on_cancel waiting s = close_unix (record s { cut = true })
on_cancel cancelling s = cancel_pending s
on_cancel closing_unix s = end (err cancelled_error) s
on_cancel closing_tcp s = end (err cancelled_error) s
on_cancel over s = s

unfoldable pub step : Event → Session → Session
step (turns side t) s = at_side side t s
step wakes s = when_waiting s.phase on_wake s
step joins s = when_cancelling s.phase on_join s
step (unix_closes r) s = when_closing_unix s.phase (close_tcp r) s
step (tcp_closes r) s = when_closing_tcp s.phase (end r) s
step cancelled s = on_cancel s.phase s

unfoldable pub run : List Event → Session → Session
run [] s = s
run (e ∷ es) s = run es (step e s)

-- ===== src/Proxy.antt =====
-- The connection handlers of the TCP proxies: `handle_client` of
-- migrate-proxy/tcp-migration-server.py, `handle_new_qemu_connection` and `connect_and_forward` of
-- migrate-proxy/tcp-migration-client.py. What the sockets and the event loop answer is an argument.
pub mod Server
pub mod Client
pub mod System
pub mod Session
pub mod Service
pub mod Chain
use migration_transport_hack.Base.{ℕ, Bool, true, false}
use migration_transport_hack.Async.{
  Result, ok, err, Raised, exception, Action, None, pure, modify, outside, ◌>>=◌, ◌>>◌,
}

-- A stream writer, or `None` where the handler has none.
pub data Socket : Type 0 where
  absent live closed : Socket

pub data Task : Type 0 where
  unstarted running over : Task

-- The two sides of a connection: `inner` is the writer that the handler opens itself, `outer` the
-- one that it is called with.
pub record Handler : Type 0 where
  pub inner : Socket
  pub outer : Socket
  pub forth : Task  -- the `forward_data` from the outer side to the inner one
  pub back : Task

abbrev pub connected : Handler
connected = record { inner = absent; outer = live; forth = unstarted; back = unstarted }

-- How `asyncio.wait(..., return_when=FIRST_COMPLETED)` ends.
pub data Waited : Type 0 where
  forth_done : Waited
  back_done : Waited
  both_done : Waited
  wait_cancelled : Waited

-- What the calls outside the handler answer, but for the one that opens the inner side.
pub record Answers : Type 0 where
  pub waited : Waited
  pub inner_closes : Result None  -- `wait_closed` of the inner writer
  pub outer_closes : Result None  -- `wait_closed` of the outer writer

abbrev finish_tasks : Waited → Handler → Result None × Handler
finish_tasks forth_done h = (ok tt, record h { forth = over })
finish_tasks back_done h = (ok tt, record h { back = over })
finish_tasks both_done h = (ok tt, record h { forth = over; back = over })
finish_tasks wait_cancelled h = (err Raised.cancelled_error, h)

-- `done, pending = await asyncio.wait(...)`
abbrev wait_first : Waited → Action Handler None
wait_first w h = finish_tasks w h

-- `task.cancel()`, and `await task` that passes `CancelledError` over
abbrev cancel : Task → Task
cancel running = over
cancel t = t

-- The loop over `pending`.
abbrev cancel_pending : Action Handler None
cancel_pending = modify (λ h. record h { forth = cancel h.forth; back = cancel h.back })

abbrev start_tasks : Action Handler None
start_tasks = modify (λ h. record h { forth = running; back = running })

-- The body of the `try`, the same in both programs but for how the inner side is opened.
abbrev pub try_body : Result None → Answers → Action Handler None
try_body opening a = do
  outside opening
  modify (λ h. record h { inner = live })
  start_tasks
  wait_first a.waited
  cancel_pending

-- `if inner:` and the two lines under it
close_inner : Socket → Answers → Action Handler None
close_inner absent a = pure tt
close_inner _ a = do modify (λ h. record h { inner = closed }); outside a.inner_closes

-- The `finally` block.
pub clean_up : Answers → Action Handler None
unfolding close_inner
clean_up a h =
    (do close_inner h.inner a; modify (λ h. record h { outer = closed }); outside a.outer_closes) h

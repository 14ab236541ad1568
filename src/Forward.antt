-- ===== src/Forward.antt =====
-- `forward_data` of migrate-proxy/tcp-migration-server.py (the client has a copy of it): a read
-- task and a write task joined by a `CircularQueue(maxsize=1000)`. A turn is what happens between
-- two suspensions, and the event loop and the sockets choose the turns.
pub mod Round
pub mod Order
pub mod Wakeup
pub mod Delivery
pub mod Drain
pub mod Finish
pub mod Fair
pub mod Quiet
pub mod Bounded
pub mod Shared
pub mod Counts
pub mod Overflow
use migration_transport_hack.Base.{
  ℕ, ◌+◌, ◌/◌, ◌%◌, ◌*◌, Bool, true, false, List, [], ◌∷◌, length, snoc, ◌==◌, if◌then◌else◌,
}
use migration_transport_hack.Queue.{
  CircularQueue, Got, item, nothing, wait, create, put, get, close, forget_waiter,
}
use migration_transport_hack.Histogram.{Histogram, count_read}

-- the bytes that one `read(8192)` returns
abbrev pub Chunk : Type 0
Chunk = List ℕ

-- How a task left its loop: by `break`, by `CancelledError`, or by another exception.
pub data Ending : Type 0 where
  completed cancelled failed : Ending

pub data ReadTask : Type 0 where
  reading : ReadTask  -- in `await reader.read(8192)`
  holding : Chunk → ReadTask  -- before `await queue.put(data)`
  closing : Ending → ReadTask  -- before `await queue.close()`, in the `finally`
  ended : Ending → ReadTask

pub data WriteTask : Type 0 where
  getting : WriteTask  -- before a round of the loop in `queue.get()`
  waiting : WriteTask  -- in `await self.not_empty.wait()`
  stopped : Ending → WriteTask

pub record Forward : Type 0 where
  pub queue : CircularQueue Chunk
  pub read_histogram : Histogram
  pub read_task : ReadTask
  pub write_task : WriteTask
  pub written : List Chunk  -- the calls of `writer.write`, oldest first
  pub total_bytes : ℕ
  pub logged : List ℕ  -- the numbers in "Forwarded … MB"

abbrev pub megabyte : ℕ
megabyte = 1024 * 1024

abbrev pub queue_size : ℕ
queue_size = 1000

-- `forward_data` has just started both tasks. The histogram belongs to the server.
abbrev pub start : Histogram → Forward
start histogram = record {
  queue = create queue_size;
  read_histogram = histogram;
  read_task = reading;
  write_task = getting;
  written = [];
  total_bytes = 0;
  logged = [];
}

pub data Turn : Type 0 where
  read_returns : Chunk → Turn  -- `reader.read` returns; the empty chunk is the end of the stream
  read_raises : Turn
  read_runs : Turn  -- the read task goes on, with `put` or `close`
  read_cancelled : Turn
  write_runs : Turn
  write_raises : Turn  -- as `write_runs`, but `writer.write` raises
  write_cancelled : Turn

unfoldable pub received : Chunk → Forward → Forward
received [] s = record s { read_task = closing completed }
received (b ∷ bs) s = record s {
  read_task = holding (b ∷ bs);
  read_histogram = count_read (length (b ∷ bs)) s.read_histogram;
}

abbrev pub on_read : ReadTask → Chunk → Forward → Forward
unfolding received
on_read reading d s = received d s
on_read _ d s = s

abbrev pub on_read_error : ReadTask → Ending → Forward → Forward
on_read_error reading why s = record s { read_task = closing why }
on_read_error _ why s = s

-- `CancelledError` at `put` gives up the chunk; the `finally` runs to its end.
abbrev pub on_read_cancel : ReadTask → Forward → Forward
on_read_cancel reading s = record s { read_task = closing cancelled }
on_read_cancel (holding d) s = record s { read_task = closing cancelled }
on_read_cancel _ s = s

abbrev pub on_read_run : ReadTask → Forward → Forward
on_read_run (holding d) s = record s { read_task = reading; queue = put d s.queue }
on_read_run (closing why) s = record s { read_task = ended why; queue = close s.queue }
on_read_run _ s = s

-- `writer.write(data)`, the count, and a line for every total that is a whole number of MB.
unfoldable pub write : Chunk → Forward → Forward
write d s =
    let total : ℕ = s.total_bytes + length d in
    record s {
      write_task = getting;
      written = snoc s.written d;
      total_bytes = total;
      logged = if total % megabyte == 0 then snoc s.logged (total / megabyte) else s.logged;
    }

-- The rest of a round once `get` has answered. The flag says whether `writer.write` succeeds.
unfoldable pub deliver : Bool → Got Chunk → Forward → Forward
unfolding write
deliver true (item d) s = write d s
deliver false (item d) s = record s { write_task = stopped failed }
deliver _ nothing s = record s { write_task = stopped completed }
deliver _ wait s = record s { write_task = waiting }

unfoldable pub write_round : Bool → Forward → Forward
unfolding deliver
write_round fine s = let (got, queue) = get s.queue in deliver fine got (record s { queue = queue })

-- A task in `wait` goes on once it has been notified.
unfoldable pub on_write : WriteTask → Bool → Forward → Forward
unfolding write_round
on_write getting fine s = write_round fine s
on_write waiting fine s = if s.queue.waiters == 0 then write_round fine s else s
on_write (stopped why) fine s = s

unfoldable pub on_write_cancel : WriteTask → Forward → Forward
on_write_cancel getting s = record s { write_task = stopped cancelled }
on_write_cancel waiting s = record s {
  write_task = stopped cancelled;
  queue = forget_waiter s.queue;
}
on_write_cancel (stopped why) s = s

unfoldable pub step : Turn → Forward → Forward
step (read_returns d) s = on_read s.read_task d s
step read_raises s = on_read_error s.read_task failed s
step read_runs s = on_read_run s.read_task s
step read_cancelled s = on_read_cancel s.read_task s
step write_runs s = on_write s.write_task true s
step write_raises s = on_write s.write_task false s
step write_cancelled s = on_write_cancel s.write_task s

-- The cancellation of `gather` cancels both tasks.
unfoldable pub cancel_both : Forward → Forward
unfolding step
cancel_both s = step write_cancelled (step read_cancelled s)

unfoldable pub run : List Turn → Forward → Forward
run [] s = s
run (t ∷ ts) s = run ts (step t s)

-- `gather` returns, and with it `forward_data`, once both tasks have ended.
abbrev pub has_ended : ReadTask → WriteTask → Bool
has_ended (ended _) (stopped _) = true
has_ended _ _ = false

unfoldable pub finished : Forward → Bool
finished s = has_ended s.read_task s.write_task

-- ===== src/Forward/Order.antt =====
-- What the write task has written against what the read task has read: order, loss, delivery.
use mathlib.Core.List.{Sublist, append-nil, append_assoc, sublist-append_left, nil-sublist}
use mathlib.Core.List.Sublist
use migration_transport_hack.Base.{inl, inr, Bool, ◌≡◌, refl, List, [], ◌∷◌, ◌++◌, true, false}
use mathlib.Core.Path.{subst}
use migration_transport_hack.Queue.Laws.{put-sublist}
use migration_transport_hack.Histogram.{Histogram}
use migration_transport_hack.Queue.{close, forget_waiter}
use migration_transport_hack.Forward.Round.{Round, sleeps, drains, writes, loses, on_write-Round}
use migration_transport_hack.Forward.{
  Chunk, ReadTask, reading, holding, closing, ended, WriteTask, getting, waiting, stopped, Forward,
  Turn, read_returns, read_raises, read_runs, read_cancelled, write_runs, write_raises,
  write_cancelled, step, run, on_write, on_read, on_read_run, on_read_cancel, on_read_error, Ending,
  received, write, on_write_cancel, failed, start,
}

-- The chunk that the read task has in hand.
abbrev pub in_hand : ReadTask → List Chunk
in_hand (holding d) = d ∷ []
in_hand _ = []

-- All that has been read and not been lost, oldest first.
abbrev pub kept : Forward → List Chunk
kept s = s.written ++ (s.queue.queue ++ in_hand s.read_task)

-- The chunk that a turn reads from the peer.
abbrev pub read_chunk : ReadTask → Chunk → List Chunk
read_chunk reading (b ∷ bs) = (b ∷ bs) ∷ []
read_chunk _ _ = []

abbrev pub read_by : Turn → ReadTask → List Chunk
read_by (read_returns d) r = read_chunk r d
read_by _ r = []

-- All the chunks that a run reads.
abbrev pub reads : List Turn → Forward → List Chunk
reads [] s = []
reads (t ∷ ts) s = read_by t s.read_task ++ reads ts (step t s)

-- `kept`, with the read task given apart.
abbrev kept_at : ReadTask → Forward → List Chunk
kept_at r s = s.written ++ (s.queue.queue ++ in_hand r)

unchanged : (s : Forward) {r : ReadTask} → s.read_task ≡ r → Sublist (kept s) (kept_at r s)
unchanged s e = subst (λ h. Sublist (kept s) (kept_at h s)) e (Sublist.refl _)

prefix :
    (s : Forward) (ds : List Chunk)
    → Sublist (s.written ++ (s.queue.queue ++ [])) (s.written ++ (s.queue.queue ++ ds))
prefix s ds =
    Sublist.append (Sublist.refl s.written)
      (Sublist.append (Sublist.refl s.queue.queue) (nil-sublist ds))

read_runs-kept :
    (r : ReadTask) (s : Forward) → s.read_task ≡ r → Sublist (kept (on_read_run r s)) (kept_at r s)
read_runs-kept reading s e = unchanged s e
read_runs-kept (holding d) s e =
    Sublist.append (Sublist.refl s.written) (rw append-nil (put-sublist d s.queue))
read_runs-kept (closing why) s e = unfold close in Sublist.refl _
read_runs-kept (ended why) s e = unchanged s e

read_cancel-kept :
    (r : ReadTask) (s : Forward)
    → s.read_task ≡ r
    → Sublist (kept (on_read_cancel r s)) (kept_at r s)
read_cancel-kept reading s e = Sublist.refl _
read_cancel-kept (holding d) s e = prefix s (d ∷ [])
read_cancel-kept (closing why) s e = unchanged s e
read_cancel-kept (ended why) s e = unchanged s e

read_error-kept :
    (r : ReadTask) (why : Ending) (s : Forward)
    → s.read_task ≡ r
    → Sublist (kept (on_read_error r why s)) (kept_at r s)
read_error-kept reading why s e = Sublist.refl _
read_error-kept (holding d) why s e = unchanged s e
read_error-kept (closing _) why s e = unchanged s e
read_error-kept (ended _) why s e = unchanged s e

read_returns-kept :
    (r : ReadTask) (d : Chunk) (s : Forward)
    → s.read_task ≡ r
    → Sublist (kept (on_read r d s)) (kept_at r s ++ read_chunk r d)
unfolding received
read_returns-kept reading [] s e = simp append-nil (Sublist.refl _)
read_returns-kept reading (b ∷ bs) s e = simp (append-nil, append_assoc) (Sublist.refl _)
read_returns-kept (holding _) d s e = rw append-nil (unchanged s e)
read_returns-kept (closing _) d s e = rw append-nil (unchanged s e)
read_returns-kept (ended _) d s e = rw append-nil (unchanged s e)

-- A turn of the write task moves the first item of the queue to the end of what is written, or
-- loses it if `writer.write` raises.
Round-kept : (fine : Bool) (s r : Forward) → Round fine s r → Sublist (kept r) (kept s)
unfolding write
Round-kept fine s r (sleeps _ _ e) = rw e (Sublist.refl _)
Round-kept fine s r (drains _ _ e) = rw e (Sublist.refl _)
Round-kept fine s r (writes d rest _ q e) = rw e (simp (q, append_assoc) (Sublist.refl _))
Round-kept fine s r (loses d rest _ q e) =
    rw e (simp q (Sublist.append (Sublist.refl _) (Sublist.cons d (Sublist.refl _))))

write-kept : (fine : Bool) (s : Forward) → Sublist (kept (on_write s.write_task fine s)) (kept s)
write-kept fine s = elim (on_write-Round s.write_task fine s) [
  | inl same ↦ rw same (Sublist.refl _)
  | inr round ↦ Round-kept fine s _ round
]

write_cancel-kept : (w : WriteTask) (s : Forward) → Sublist (kept (on_write_cancel w s)) (kept s)
unfolding on_write_cancel forget_waiter
write_cancel-kept getting s = Sublist.refl _
write_cancel-kept waiting s = Sublist.refl _
write_cancel-kept (stopped why) s = Sublist.refl _

nothing_read : {xs ys : List Chunk} → Sublist xs ys → Sublist xs (ys ++ [])
nothing_read h = rw append-nil h

step-kept : (t : Turn) (s : Forward) → Sublist (kept (step t s)) (kept s ++ read_by t s.read_task)
unfolding step
step-kept (read_returns d) s = read_returns-kept s.read_task d s refl
step-kept read_raises s = nothing_read (read_error-kept s.read_task failed s refl)
step-kept read_runs s = nothing_read (read_runs-kept s.read_task s refl)
step-kept read_cancelled s = nothing_read (read_cancel-kept s.read_task s refl)
step-kept write_runs s = nothing_read (write-kept true s)
step-kept write_raises s = nothing_read (write-kept false s)
step-kept write_cancelled s = nothing_read (write_cancel-kept s.write_task s)

-- Whatever the schedule, the chunks that are written, then those still queued and in hand, are
-- those that were there before and those that the run reads, in order, with some perhaps lost:
-- none is duplicated, reordered or made up.
pub run-kept : (ts : List Turn) (s : Forward) → Sublist (kept (run ts s)) (kept s ++ reads ts s)
unfolding run
run-kept [] s = rw append-nil (Sublist.refl _)
run-kept (t ∷ ts) s = Sublist.trans (run-kept ts (step t s)) (
    rw (← append_assoc (kept s) (read_by t s.read_task) (reads ts (step t s)))
      (Sublist.append (step-kept t s) (Sublist.refl (reads ts (step t s)))))

written-sublist-reads :
    (ts : List Turn) (h : Histogram) → Sublist (run ts (start h)).written (reads ts (start h))
written-sublist-reads ts h = Sublist.trans (sublist-append_left _ _) (run-kept ts (start h))

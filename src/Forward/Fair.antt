-- ===== src/Forward/Fair.antt =====
-- Liveness of the forwarder: once the read task has ended, every schedule that gives the write task
-- enough turns finishes it, whatever other turns come between.
use mathlib.Core.List.{append-nil, append_assoc}
use migration_transport_hack.Base.{
  ℕ, suc, ◌<◌, ◌≡◌, refl, sym, Bool, true, false, List, [], ◌∷◌, arith, length, ◌++◌, ap, ◌∙◌,
  Bool-cases, inl, inr,
}
use migration_transport_hack.Histogram.{Histogram}
use migration_transport_hack.Forward.{
  Chunk, completed, failed, on_read, on_read_error, on_read_cancel, on_read_run, ReadTask, reading,
  holding, closing, ended, on_write, on_write_cancel, stopped, Forward, Turn, read_returns,
  read_raises, read_runs, read_cancelled, write_runs, write_raises, write_cancelled, step, run,
  start, write, finished,
}
use migration_transport_hack.Forward.Round.{sleeps, drains, writes, loses}
use migration_transport_hack.Forward.Wakeup.{
  IsAwake, is_ended, start-IsAwake, step-IsAwake, run-IsAwake,
}
use migration_transport_hack.Forward.Finish.{is_stopped, drain_round, both_ended}

-- The write task is neither cancelled nor does a `writer.write` raise.
abbrev pub IsSteady : List Turn → Type 0
IsSteady [] = Unit
IsSteady (write_raises ∷ ts) = ⊥
IsSteady (write_cancelled ∷ ts) = ⊥
IsSteady (_ ∷ ts) = IsSteady ts

-- The turns of the write task.
abbrev pub writer_turns : List Turn → ℕ
writer_turns [] = 0
writer_turns (write_runs ∷ ts) = suc (writer_turns ts)
writer_turns (_ ∷ ts) = writer_turns ts

-- A turn of a read task that has ended does nothing.
abbrev is_read : Turn → Bool
is_read write_runs = false
is_read write_raises = false
is_read write_cancelled = false
is_read _ = true

module _ (s : Forward) where
  idle_read : (r : ReadTask) (d : Chunk) → is_ended r ≡ true → on_read r d s ≡ s
  unfolding on_read
  idle_read (ended why) d e = refl
  idle_read reading d e = cc
  idle_read (holding _) d e = cc
  idle_read (closing why) d e = cc

  idle_read_error : (r : ReadTask) → is_ended r ≡ true → on_read_error r failed s ≡ s
  idle_read_error (ended why) e = refl
  idle_read_error reading e = cc
  idle_read_error (holding _) e = cc
  idle_read_error (closing why) e = cc

  idle_read_cancel : (r : ReadTask) → is_ended r ≡ true → on_read_cancel r s ≡ s
  idle_read_cancel (ended why) e = refl
  idle_read_cancel reading e = cc
  idle_read_cancel (holding _) e = cc
  idle_read_cancel (closing why) e = cc

  idle_read_run : (r : ReadTask) → is_ended r ≡ true → on_read_run r s ≡ s
  idle_read_run (ended why) e = refl
  idle_read_run reading e = cc
  idle_read_run (holding _) e = cc
  idle_read_run (closing why) e = cc

read_idle : (t : Turn) (s : Forward) → is_read t ≡ true → is_ended s.read_task ≡ true → step t s ≡ s
unfolding step
read_idle (read_returns d) s r e = idle_read s s.read_task d e
read_idle read_raises s r e = idle_read_error s s.read_task e
read_idle read_runs s r e = idle_read_run s s.read_task e
read_idle read_cancelled s r e = idle_read_cancel s s.read_task e
read_idle write_runs s r e = cc
read_idle write_raises s r e = cc
read_idle write_cancelled s r e = cc

write_idle :
    (t : Turn) (s : Forward) → is_read t ≡ false → s.write_task ≡ stopped completed → step t s ≡ s
unfolding step on_write on_write_cancel
write_idle write_runs s r e = rw e
write_idle write_raises s r e = rw e
write_idle write_cancelled s r e = rw e
write_idle (read_returns d) s r e = cc
write_idle read_raises s r e = cc
write_idle read_runs s r e = cc
write_idle read_cancelled s r e = cc

-- Once both tasks have ended nothing changes.
settled :
    (ts : List Turn) (s : Forward)
    → is_ended s.read_task ≡ true
    → s.write_task ≡ stopped completed
    → run ts s ≡ s
unfolding run
settled [] s e w = refl
settled (t ∷ ts) s e w = elim (Bool-cases (is_read t)) [
  | inl reads ↦ rw (read_idle t s reads e) (settled ts s e w)
  | inr other ↦ rw (write_idle t s other w) (settled ts s e w)
]

-- How a run ends: the write task has completed, and all that was queued is written.
abbrev pub Drains : List Chunk → Forward → Forward → Type 0
Drains xs s r =
    (r.write_task ≡ stopped completed)
    × (is_ended r.read_task ≡ true)
    × (r.written ≡ s.written ++ xs)

-- What a schedule must give from here: a steady one with a turn more than there are chunks.
abbrev Ready : List Chunk → List Turn → Forward → Type 0
Ready xs ts s =
    (s.queue.queue ≡ xs)
    × IsAwake s
    × (is_ended s.read_task ≡ true)
    × (is_stopped s.write_task ≡ false)
    × IsSteady ts
    × (length xs < writer_turns ts)

idle-Drains :
    (t : Turn) (ts : List Turn) (xs : List Chunk) (s : Forward)
    → step t s ≡ s
    → Drains xs s (run ts s)
    → Drains xs s (run (t ∷ ts) s)
unfolding run
idle-Drains t ts xs s same d = rw (run, same) d

turn-Drains :
    (ts : List Turn) (xs : List Chunk) (s : Forward)
    → Ready xs (write_runs ∷ ts) s
    → ((ys : List Chunk) (r : Forward) → Ready ys ts r → Drains ys r (run ts r))
    → Drains xs s (run (write_runs ∷ ts) s)
unfolding run write
turn-Drains ts xs s (q, a, e, w, steady, more) later =
    let r : Forward = step write_runs s in
    elim (drain_round s a (a.closes ∙ e) w) [
      | sleeps empty unshut _ ↦ cc (a.closes, e)
      | drains empty _ f ↦
          let over : run ts r ≡ r =
            settled ts r (ap (λ t. is_ended t.read_task) f ∙ e) (ap (λ t. t.write_task) f) in
          rw over (
            ap (λ t. t.write_task) f,
            ap (λ t. is_ended t.read_task) f ∙ e,
            ap (λ t. t.written) f ∙ sym (append-nil s.written) ∙ ap (λ x. s.written ++ x) (cc),
          )
      | writes d rest _ full f ↦
          let (stops, ends, all) = later rest r (
            ap (λ t. t.queue.queue) f,
            step-IsAwake write_runs s a,
            ap (λ t. is_ended t.read_task) f ∙ e,
            ap (λ t. is_stopped t.write_task) f,
            steady,
            omega (arith, ap length q, ap length full),
          ) in
          (
            stops,
            ends,
            all
                ∙ ap (λ t. t.written ++ rest) f
                ∙ append_assoc s.written (d ∷ []) rest
                ∙ ap (λ x. s.written ++ x) (cc),
          )
      | loses d rest fails _ _ ↦ cc
    ]

fair-Drains :
    (ts : List Turn) (xs : List Chunk) (s : Forward) → Ready xs ts s → Drains xs s (run ts s)
fair-Drains [] xs s (q, a, e, w, steady, more) = absurd (omega arith)
fair-Drains (write_runs ∷ ts) xs s ready = turn-Drains ts xs s ready (λ ys r. fair-Drains ts ys r)
fair-Drains (write_raises ∷ ts) xs s (q, a, e, w, steady, more) = absurd steady
fair-Drains (write_cancelled ∷ ts) xs s (q, a, e, w, steady, more) = absurd steady
fair-Drains (read_returns d ∷ ts) xs s ready =
    idle-Drains (read_returns d) ts xs s (read_idle (read_returns d) s refl ready.2)
      (fair-Drains ts xs s ready)
fair-Drains (read_raises ∷ ts) xs s ready =
    idle-Drains read_raises ts xs s (read_idle read_raises s refl ready.2)
      (fair-Drains ts xs s ready)
fair-Drains (read_runs ∷ ts) xs s ready =
    idle-Drains read_runs ts xs s (read_idle read_runs s refl ready.2) (fair-Drains ts xs s ready)
fair-Drains (read_cancelled ∷ ts) xs s ready =
    idle-Drains read_cancelled ts xs s (read_idle read_cancelled s refl ready.2)
      (fair-Drains ts xs s ready)

-- Once the read task has ended and the write task has not, every further schedule, with turns of
-- both tasks in any order, finishes `forward_data` and writes all that was queued, in order, if it
-- neither cancels the write task nor makes a write raise and gives that task a turn more than there
-- are chunks in the queue.
pub fair_finishes :
    (before after : List Turn) (h : Histogram)
    → is_ended (run before (start h)).read_task ≡ true
    → is_stopped (run before (start h)).write_task ≡ false
    → IsSteady after
    → length (run before (start h)).queue.queue < writer_turns after
    → let s = run before (start h) in
      let r = run after s in (finished r ≡ true) × (r.written ≡ s.written ++ s.queue.queue)
unfolding finished
fair_finishes before after h e w steady more =
    let s : Forward = run before (start h) in
    let (stops, ends, all) =
      fair-Drains after s.queue.queue s
        (refl, run-IsAwake before (start h) (start-IsAwake h), e, w, steady, more) in
    (both_ended _ _ ends stops, all)

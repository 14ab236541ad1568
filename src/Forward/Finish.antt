-- ===== src/Forward/Finish.antt =====
-- How the forwarder ends: once the read task has ended, a bounded number of turns is enough.
use mathlib.Core.List.{append-nil, append_assoc}
use migration_transport_hack.Base.{
  ℕ, suc, ◌≡◌, refl, sym, Bool, true, false, List, [], ◌∷◌, arith, length, replicate, ◌++◌, inl,
  inr, ap, ◌∙◌, Bool-cases, ◌==◌,
}
use migration_transport_hack.Histogram.{Histogram}
use migration_transport_hack.Forward.{
  Chunk, completed, ReadTask, reading, holding, closing, ended, WriteTask, getting, waiting,
  stopped, Forward, Turn, write_runs, step, run, on_write, write, start, write_round, finished,
  has_ended,
}
use migration_transport_hack.Forward.Round.{Round, sleeps, drains, writes, loses, write_round-Round}
use migration_transport_hack.Forward.Wakeup.{
  IsAwake, IsSleep, is_ended, start-IsAwake, step-IsAwake, run-IsAwake,
}

abbrev pub is_stopped : WriteTask → Bool
is_stopped (stopped _) = true
is_stopped _ = false

-- Over a closed queue a write task that has not stopped does a round whenever it runs.
closed_round :
    (w : WriteTask) (s : Forward)
    → IsSleep w s.queue
    → s.queue.closed ≡ true
    → is_stopped w ≡ false
    → on_write w true s ≡ write_round true s
unfolding on_write
closed_round getting s h c e = refl
closed_round waiting s h c e = elim (Bool-cases (s.queue.waiters == 0)) [
  | inl woken ↦ rw woken
  | inr asleep ↦ absurd (ground arith)
]
closed_round (stopped _) s h c e = cc

pub drain_round :
    (s : Forward)
    → IsAwake s
    → s.queue.closed ≡ true
    → is_stopped s.write_task ≡ false
    → Round true s (step write_runs s)
unfolding step
drain_round s a c e = rw (closed_round s.write_task s a.sleep c e) (write_round-Round true s)

-- `n` turns of the write task.
abbrev pub write_turns : ℕ → Forward → Forward
write_turns n s = run (replicate n write_runs) s

drain :
    (xs : List Chunk) (s : Forward)
    → s.queue.queue ≡ xs
    → IsAwake s
    → s.queue.closed ≡ true
    → is_stopped s.write_task ≡ false
    → ((write_turns (suc (length xs)) s).write_task ≡ stopped completed)
      × ((write_turns (suc (length xs)) s).queue.closed ≡ true)
      × ((write_turns (suc (length xs)) s).written ≡ s.written ++ xs)
unfolding run write
drain [] s q a c e = elim (drain_round s a c e) [
  | sleeps _ unshut _ ↦ cc
  | drains _ _ r ↦ (
    ap (λ t. t.write_task) r,
    ap (λ t. t.queue.closed) r ∙ c,
    ap (λ t. t.written) r ∙ sym (append-nil s.written),
  )
  | writes _ _ _ full _ ↦ cc
  | loses _ _ _ full _ ↦ cc
]
drain (d ∷ xs) s q a c e = elim (drain_round s a c e) [
  | sleeps empty _ _ ↦ cc
  | drains empty _ _ ↦ cc
  | writes d' rest _ full r ↦
      let (stops, shut, all) =
        drain xs (step write_runs s) (ap (λ t. t.queue.queue) r ∙ cc) (step-IsAwake write_runs s a)
          (ap (λ t. t.queue.closed) r ∙ c) (ap (λ t. is_stopped t.write_task) r) in
      (
        stops,
        shut,
        all
            ∙ ap (λ t. t.written ++ xs) r
            ∙ append_assoc s.written (d' ∷ []) xs
            ∙ ap (λ x. s.written ++ x ∷ xs) (cc),
      )
  | loses _ _ fails _ _ ↦ cc
]

pub both_ended :
    (r : ReadTask) (w : WriteTask)
    → is_ended r ≡ true
    → w ≡ stopped completed
    → has_ended r w ≡ true
both_ended (ended why) w e f = rw f
both_ended reading w e f = cc
both_ended (holding d) w e f = cc
both_ended (closing why) w e f = cc

-- When the read task has ended, however it did, and the write task has not, then as many turns of
-- the write task as there are chunks in the queue, and one more, write them all in order and
-- finish `forward_data`. So the forwarder is never stuck once its peer has closed.
drain_finishes :
    (ts : List Turn) (h : Histogram)
    → is_ended (run ts (start h)).read_task ≡ true
    → is_stopped (run ts (start h)).write_task ≡ false
    → let s = run ts (start h) in
      let r = write_turns (suc (length s.queue.queue)) s in
      (finished r ≡ true)
      × (r.write_task ≡ stopped completed)
      × (r.written ≡ s.written ++ s.queue.queue)
unfolding finished
drain_finishes ts h over goes =
    let s = run ts (start h) in
    let r = write_turns (suc (length s.queue.queue)) s in
    let a : IsAwake s = run-IsAwake ts (start h) (start-IsAwake h) in
    let (stops, shut, all) = drain s.queue.queue s refl a (a.closes ∙ over) goes in
    let b : IsAwake r = run-IsAwake (replicate (suc (length s.queue.queue)) write_runs) s a in
    (both_ended r.read_task r.write_task (sym b.closes ∙ shut) stops, stops, all)

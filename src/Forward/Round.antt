-- ===== src/Forward/Round.antt =====
-- The turns of the write task of `forward_data`, case by case.
use migration_transport_hack.Base.{
  ◌+◌, ◌≡◌, refl, ◌⊎◌, inl, inr, Bool, true, false, Bool-cases, List, [], ◌∷◌, ◌==◌,
}
use migration_transport_hack.Queue.Laws.{get-Gets}
use migration_transport_hack.Forward.{
  Chunk, completed, failed, WriteTask, getting, waiting, stopped, Forward, write, write_round,
  on_write,
}

-- `r` is what a round of the loop in `get` and of what follows makes of `s`.
pub data Round (fine : Bool) (s r : Forward) : Type 0 where
  sleeps :
      s.queue.queue ≡ []
      → s.queue.closed ≡ false
      → r ≡ record s {
        queue = record (s.queue) { waiters = s.queue.waiters + 1 };
        write_task = waiting;
      }
      → Round fine s r
  drains :
      s.queue.queue ≡ []
      → s.queue.closed ≡ true
      → r ≡ record s { write_task = stopped completed }
      → Round fine s r
  writes :
      (d : Chunk) (rest : List Chunk)
      → fine ≡ true
      → s.queue.queue ≡ d ∷ rest
      → r ≡ write d (record s { queue = record (s.queue) { queue = rest } })
      → Round fine s r
  loses :
      (d : Chunk) (rest : List Chunk)
      → fine ≡ false
      → s.queue.queue ≡ d ∷ rest
      → r ≡ record s { queue = record (s.queue) { queue = rest }; write_task = stopped failed }
      → Round fine s r

pub write_round-Round : (fine : Bool) (s : Forward) → Round fine s (write_round fine s)
unfolding write_round
write_round-Round true s = elim (get-Gets s.queue) [
  | inl (empty, unshut, e) ↦ sleeps empty unshut (rw (e, write_round))
  | inr (inl (empty, shut, e)) ↦ drains empty shut (rw (e, write_round))
  | inr (inr (d, rest, full, e)) ↦ writes d rest refl full (rw (e, write_round))
]
write_round-Round false s = elim (get-Gets s.queue) [
  | inl (empty, unshut, e) ↦ sleeps empty unshut (rw (e, write_round))
  | inr (inl (empty, shut, e)) ↦ drains empty shut (rw (e, write_round))
  | inr (inr (d, rest, full, e)) ↦ loses d rest refl full (rw (e, write_round))
]

-- A turn of a task that has stopped or that sleeps changes nothing.
pub on_write-Round :
    (w : WriteTask) (fine : Bool) (s : Forward)
    → (on_write w fine s ≡ s) ⊎ Round fine s (on_write w fine s)
unfolding on_write
on_write-Round getting fine s = inr (write_round-Round fine s)
on_write-Round waiting fine s = elim (Bool-cases (s.queue.waiters == 0)) [
  | inl woken ↦ rw woken (inr (write_round-Round fine s))
  | inr asleep ↦ rw asleep (inl refl)
]
on_write-Round (stopped why) fine s = inl refl

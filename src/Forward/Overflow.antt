-- ===== src/Forward/Overflow.antt =====
-- What a full queue loses: `append` on a `deque` of bounded length drops the oldest chunk, and
-- `put` does not wait for room.
use migration_transport_hack.Base.{
  sym, false, ℕ, zero, suc, ◌-◌, ◌≤◌, ◌≡◌, refl, ap, ◌∙◌, List, [], ◌∷◌, ◌++◌, arith, length,
  length-append, ltb, Bool-cases, inl, inr,
}
use mathlib.Core.List.{append-nil, append_assoc}
use migration_transport_hack.Queue.Laws.{put_open}
use migration_transport_hack.Histogram.{count_read, Histogram}
use migration_transport_hack.Queue.{append_bounded, drop_first, put}
use migration_transport_hack.Forward.{
  on_read, Chunk, Forward, Turn, read_returns, read_runs, step, run, start, reading, queue_size,
  received,
}

abbrev pub drop {ℓ} : {A : Type ℓ} → ℕ → List A → List A
drop zero xs = xs
drop (suc n) [] = []
drop (suc n) (x ∷ xs) = drop n xs

module _ {ℓ} {A : Type ℓ} where
  length-drop : (n : ℕ) (xs : List A) → length (drop n xs) ≡ length xs - n
  length-drop zero xs = omega arith
  length-drop (suc n) [] = omega arith
  length-drop (suc n) (x ∷ xs) = omega (arith, length-drop n xs)

  drop_first-drop :
      (n : ℕ) (xs : List A) (x : A)
      → n ≤ length xs
      → drop_first (drop n xs ++ x ∷ []) ≡ drop (suc n) (xs ++ x ∷ [])
  drop_first-drop zero [] x h = refl
  drop_first-drop zero (y ∷ ys) x h = refl
  drop_first-drop (suc n) [] x h = absurd (omega arith)
  drop_first-drop (suc n) (y ∷ ys) x h = drop_first-drop n ys x (omega arith)

  -- The last `n` items of a list.
  abbrev pub last_of : ℕ → List A → List A
  last_of n xs = drop (length xs - n) xs

  append_bounded-last_of :
      (n : ℕ) (xs : List A) (x : A) → append_bounded n (last_of n xs) x ≡ last_of n (xs ++ x ∷ [])
  append_bounded-last_of n xs x = elim (Bool-cases (ltb (length xs) n)) [
    | inl room ↦
        let none_lost : length xs - n ≡ 0 = ground arith in
        let none_lost' : length (xs ++ x ∷ []) - n ≡ 0 =
          ground (arith, length-append xs (x ∷ [])) in
        rw (none_lost, none_lost', room)
    | inr full ↦
        let long : n ≤ length xs = ground arith in
        let kept : ltb (length (drop (length xs - n) xs)) n ≡ false =
          ground (arith, length-drop (length xs - n) xs) in
        let one_more : length (xs ++ x ∷ []) - n ≡ suc (length xs - n) =
          omega (arith, length-append xs (x ∷ [])) in
        rw (kept, one_more) (drop_first-drop (length xs - n) xs x (omega arith))
  ]

-- A chunk that is not empty, by its first byte and the others.
abbrev pub chunk : ℕ × List ℕ → Chunk
chunk (b, bs) = b ∷ bs

-- The peer sends, and the write task gets no turn.
abbrev pub flood : List (ℕ × List ℕ) → List Turn
flood [] = []
flood (d ∷ ds) = read_returns (chunk d) ∷ read_runs ∷ flood ds

abbrev pub chunks : List (ℕ × List ℕ) → List Chunk
chunks [] = []
chunks (d ∷ ds) = chunk d ∷ chunks ds

two_turns :
    (d : ℕ × List ℕ) (s : Forward)
    → s.read_task ≡ reading
    → step read_runs (step (read_returns (chunk d)) s) ≡ record s {
      read_task = reading;
      queue = put (chunk d) s.queue;
      read_histogram = count_read (length (chunk d)) s.read_histogram;
    }
unfolding step received
two_turns d s e = rw (e, on_read)

flood_from :
    (ds : List (ℕ × List ℕ)) (xs : List Chunk) (s : Forward)
    → s.read_task ≡ reading
    → s.queue.closed ≡ false
    → s.queue.queue ≡ last_of s.queue.maxsize xs
    → ((run (flood ds) s).queue.queue ≡ last_of s.queue.maxsize (xs ++ chunks ds))
      × ((run (flood ds) s).written ≡ s.written)
unfolding run
flood_from [] xs s r c e = (e ∙ ap (last_of s.queue.maxsize) (sym (append-nil xs)), refl)
flood_from (d ∷ ds) xs s r c e =
    let after = put_open (chunk d) s.queue c in
    let s' : Forward = record s {
      read_task = reading;
      queue = put (chunk d) s.queue;
      read_histogram = count_read (length (chunk d)) s.read_histogram;
    } in
    let grown : (put (chunk d) s.queue).queue ≡ last_of s.queue.maxsize (xs ++ chunk d ∷ []) =
      after.0
      ∙ ap (λ q. append_bounded s.queue.maxsize q (chunk d)) e
      ∙ append_bounded-last_of s.queue.maxsize xs (chunk d) in
    let rest =
      flood_from ds (xs ++ chunk d ∷ []) s' refl after.1
        (grown ∙ ap (λ n. last_of n (xs ++ chunk d ∷ [])) (sym after.2)) in
    rw (run, two_turns d s r)
      (
        rest.0
            ∙ ap (λ n. last_of n ((xs ++ chunk d ∷ []) ++ chunks ds)) after.2
            ∙ ap (last_of s.queue.maxsize) (append_assoc xs (chunk d ∷ []) (chunks ds)),
        rest.1,
      )

-- When a burst of chunks comes in, each read and put before the next is read, while the write task
-- gets no turn, the queue then holds the last `queue_size` of them and no others, and nothing is
-- written: of a longer burst the first ones are lost.
pub flood-last_of :
    (ds : List (ℕ × List ℕ)) (h : Histogram)
    → let s = run (flood ds) (start h) in
      (s.queue.queue ≡ last_of queue_size (chunks ds)) × (s.written ≡ [])
flood-last_of ds h = flood_from ds [] (start h) refl refl refl

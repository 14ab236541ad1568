-- ===== src/Queue/Laws.antt =====
-- What each operation of `CircularQueue` does to the list of its items.
use mathlib.Core.List.{Sublist, sublist-append_left}
use mathlib.Core.List.Sublist
use migration_transport_hack.Base.{
  arith, ℕ, ◌+◌, ◌<◌, ◌≡◌, refl, ◌⊎◌, inl, inr, Bool, true, false, List, [], ◌∷◌, ◌++◌, length, ltb,
  lt→ltb, Bool-cases,
}
use migration_transport_hack.Queue.{
  CircularQueue, Got, item, nothing, wait, drop_first, append_bounded, put, get_from, get,
}

module _ {ℓ} {A : Type ℓ} where
  drop_first-sublist : (xs : List A) → Sublist (drop_first xs) xs
  drop_first-sublist [] = Sublist.refl []
  drop_first-sublist (x ∷ xs) = Sublist.cons x (Sublist.refl xs)

  append_bounded-sublist :
      (n : ℕ) (xs : List A) (x : A) → Sublist (append_bounded n xs x) (xs ++ x ∷ [])
  append_bounded-sublist n xs x = elim (Bool-cases (ltb (length xs) n)) [
    | inl room ↦ rw room (Sublist.refl _)
    | inr full ↦ rw full (drop_first-sublist (xs ++ x ∷ []))
  ]

  -- Whatever `put` does, it neither reorders nor makes up items.
  pub put-sublist : (x : A) (q : CircularQueue A) → Sublist (put x q).queue (q.queue ++ x ∷ [])
  unfolding put
  put-sublist x q = elim (Bool-cases q.closed) [
    | inl shut ↦ simp shut (sublist-append_left q.queue (x ∷ []))
    | inr unshut ↦ simp unshut (append_bounded-sublist q.maxsize q.queue x)
  ]

  -- An open queue with room takes the item at its end.
  pub put_room :
      (x : A) (q : CircularQueue A)
      → q.closed ≡ false
      → length q.queue < q.maxsize
      → (put x q).queue ≡ q.queue ++ x ∷ []
  unfolding put
  put_room x q unshut room = simp (unshut, lt→ltb _ _ room)

  -- The three answers of a round of `get`, and what each leaves behind.
  abbrev pub Gets : CircularQueue A → Got A × CircularQueue A → Type ℓ
  Gets q r =
      ((q.queue ≡ []) × (q.closed ≡ false) × (r ≡ (wait, record q { waiters = q.waiters + 1 })))
      ⊎ (((q.queue ≡ []) × (q.closed ≡ true) × (r ≡ (nothing, q)))
          ⊎ ((x : A) × (xs : List A) × (q.queue ≡ x ∷ xs)
              × (r ≡ (item x, record q { queue = xs }))))

  get_from-Gets :
      (xs : List A) (shut : Bool) (q : CircularQueue A)
      → q.queue ≡ xs
      → q.closed ≡ shut
      → Gets q (get_from xs shut q)
  unfolding get_from
  get_from-Gets [] false q e c = inl (e, c, refl)
  get_from-Gets [] true q e c = inr (inl (e, c, refl))
  get_from-Gets (x ∷ xs) shut q e c = inr (inr (x, xs, e, refl))

  pub get-Gets : (q : CircularQueue A) → Gets q (get q)
  unfolding get
  get-Gets q = get_from-Gets q.queue q.closed q refl refl

  -- What `put` makes of an open queue.
  pub put_open :
      (x : A) (q : CircularQueue A)
      → q.closed ≡ false
      → ((put x q).queue ≡ append_bounded q.maxsize q.queue x)
        × ((put x q).closed ≡ false)
        × ((put x q).maxsize ≡ q.maxsize)
  unfolding put
  put_open x q unshut = ground arith

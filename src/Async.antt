-- ===== src/Async.antt =====
-- What a coroutine does to its state, with Python's exceptions: `try`, `except` and `finally`.
use migration_transport_hack.Base.{◌≡◌, refl, ◌⊎◌, inl, inr, Bool, true, false}

-- `except Exception` catches all but `CancelledError`.
pub data Raised : Type 0 where
  cancelled_error : Raised
  exception : Raised

pub data Result (A : Type 0) : Type 0 where
  ok : A → Result A
  err : Raised → Result A

-- The state comes back after an exception too.
abbrev pub Action : Type 0 → Type 0 → Type 0
Action S A = S → Result A × S

abbrev pub None : Type 0
None = Unit {0}

-- How `try` with handlers that only log ends: they catch `Exception` and, if the flag says so,
-- `CancelledError`.
abbrev pub swallow : Bool → Result None → Result None
swallow both (err exception) = ok tt
swallow true (err cancelled_error) = ok tt
swallow false (err cancelled_error) = err cancelled_error
swallow both (ok _) = ok tt

-- An exception of a `finally` block takes the place of the body's.
abbrev pub after_finally : Result None → Result None → Result None
after_finally r (ok _) = r
after_finally r (err e) = err e

module _ {S : Type 0} where
  abbrev pub pure : {A : Type 0} → A → Action S A
  pure a s = (ok a, s)

  abbrev pub raise : {A : Type 0} → Raised → Action S A
  raise e s = (err e, s)

  abbrev pub modify : (S → S) → Action S None
  modify f s = (ok tt, f s)

  infixl 5 ◌>>=◌ ◌>>◌
  abbrev pub ◌>>=◌ : {A B : Type 0} → Action S A → (A → Action S B) → Action S B
  ◌>>=◌ m f s = let (r, s') = m s in elim r [ ok a ↦ f a s' | err e ↦ raise e s' ]

  abbrev pub ◌>>◌ : {A B : Type 0} → Action S A → Action S B → Action S B
  m >> k = m >>= λ _. k

  -- A call outside the program: it returns or raises.
  abbrev pub outside : Result None → Action S None
  outside r s = (r, s)

  abbrev pub try_except : Bool → Action S None → Action S None
  try_except both body s = let (r, s') = body s in (swallow both r, s')

  abbrev pub finally : Action S None → Action S None → Action S None
  finally body cleanup s =
      let (r, s') = body s in let (q, s'') = cleanup s' in (after_finally r q, s'')

pub Result-cases : (r : Result None) → (r ≡ ok tt) ⊎ ((e : Raised) × (r ≡ err e))
Result-cases (ok _) = inl refl
Result-cases (err e) = inr (e, refl)

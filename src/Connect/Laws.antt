-- ===== src/Connect/Laws.antt =====
-- When the retry loops connect, when they give up, and how long they sleep.
use migration_transport_hack.Base.{
  ◌∙◌, ap, ℕ, zero, suc, ◌+◌, ◌*◌, ◌<◌, ◌≡◌, refl, ◌⊎◌, inl, inr, arith,
}
use migration_transport_hack.Connect.{
  Probe, absent, refused, accepted, broken, interrupted, Connection, opened, gave_up, raised,
  was_cancelled, attempts, connect_to_unix_socket, create_unix_connection,
}

-- An attempt after which the loop sleeps and goes on.
abbrev pub IsRetry : Probe → Type 0
IsRetry absent = Unit
IsRetry refused = Unit
IsRetry _ = ⊥

-- The `n` attempts from number `from` on are all retried.
abbrev pub AllRetry : (ℕ → Probe) → ℕ → ℕ → Type 0
AllRetry probe zero from = Unit
AllRetry probe (suc n) from = IsRetry (probe from) × AllRetry probe n (from + 1)

retried :
    (p : ℕ → Probe) (delay left a slept : ℕ)
    → IsRetry (p a)
    → attempts p delay (suc left) a slept ≡ attempts p delay left (a + 1) (slept + delay)
unfolding attempts
retried p delay left a slept h = go (p a) refl h
  where
    go :
        (q : Probe)
        → p a ≡ q
        → IsRetry q
        → attempts p delay (suc left) a slept ≡ attempts p delay left (a + 1) (slept + delay)
    go absent e h = rw (e, attempts) refl
    go refused e h = rw (e, attempts) refl
    go accepted e h = absurd h
    go broken e h = absurd h
    go interrupted e h = absurd h

-- How an attempt that is not retried ends the loop.
abbrev pub answer : Probe → ℕ → Connection
answer accepted k = opened k
answer broken k = raised
answer interrupted k = was_cancelled
answer _ k = gave_up

stopped :
    (p : ℕ → Probe) (delay left a slept : ℕ)
    → ¬ IsRetry (p a)
    → attempts p delay (suc left) a slept ≡ (answer (p a) a, slept)
unfolding attempts
stopped p delay left a slept h = go (p a) refl h
  where
    go :
        (q : Probe)
        → p a ≡ q
        → ¬ IsRetry q
        → attempts p delay (suc left) a slept ≡ (answer (p a) a, slept)
    go absent e h = absurd (h tt)
    go refused e h = absurd (h tt)
    go accepted e h = rw (e, attempts) refl
    go broken e h = rw (e, attempts) refl
    go interrupted e h = rw (e, attempts) refl

IsRetry-dec : (q : Probe) → Dec (IsRetry q)
IsRetry-dec absent = yes tt
IsRetry-dec refused = yes tt
IsRetry-dec accepted = no (λ h. h)
IsRetry-dec broken = no (λ h. h)
IsRetry-dec interrupted = no (λ h. h)

-- The loop tries them all in vain, or stops at the first attempt that is not retried.
abbrev pub Tries : (ℕ → Probe) → ℕ → ℕ → ℕ → ℕ → Connection × ℕ → Type 0
Tries p delay left a slept r =
    (AllRetry p left a × (r ≡ (gave_up, slept + left * delay)))
    ⊎ ((n k : ℕ) × (k ≡ a + n)
        × (n < left)
        × AllRetry p n a
        × (¬ IsRetry (p k))
        × (r ≡ (answer (p k) k, slept + n * delay)))

attempts-Tries :
    (p : ℕ → Probe) (delay left a slept : ℕ)
    → Tries p delay left a slept (attempts p delay left a slept)
attempts-Tries p delay zero a slept =
    inl (tt, unfold attempts in ap (λ t. (gave_up, t)) (omega arith))
attempts-Tries p delay (suc left) a slept = elim (IsRetry-dec (p a)) [
  | yes again ↦
      rw (retried p delay left a slept again)
        (elim (attempts-Tries p delay left (a + 1) (slept + delay)) [
          | inl (all, e) ↦ inl ((again, all), e ∙ ap (λ t. (gave_up, t)) (grind arith))
          | inr (n, k, at, lt, all, stop, e) ↦ inr (
            suc n,
            k,
            omega arith,
            omega arith,
            (again, all),
            stop,
            e ∙ ap (λ t. (answer (p k) k, t)) (grind arith),
          )
        ])
  | no stop ↦ inr (
    0,
    a,
    omega arith,
    omega arith,
    tt,
    stop,
    stopped p delay left a slept stop ∙ ap (λ t. (answer (p a) a, t)) (omega arith),
  )
]

-- The TCP server's loop: either every one of the `max_retries` attempts finds no listener, and it
-- raises after sleeping `max_retries * retry_delay`; or some attempt `n` below `max_retries` is
-- the first that is not retried, it decides the answer, and only the `n` before it have slept.
pub connect_to_unix_socket-Tries :
    (p : ℕ → Probe) (max_retries retry_delay : ℕ)
    → Tries p retry_delay max_retries 0 0 (connect_to_unix_socket p max_retries retry_delay)
unfolding connect_to_unix_socket
connect_to_unix_socket-Tries p max_retries retry_delay =
    attempts-Tries p retry_delay max_retries 0 0

-- The websocket server's loop is the same one, with thirty attempts a second apart.
create_unix_connection-eq :
    (p : ℕ → Probe) → create_unix_connection p ≡ connect_to_unix_socket p 30 1
unfolding create_unix_connection connect_to_unix_socket
create_unix_connection-eq p = refl

-- ===== src/Websocket/Client/Race/Laws.antt =====
-- Which of two calls of `cleanup_connection` raises a `KeyError`, and when.
use migration_transport_hack.Base.{◌≡◌, ◌≢◌, ◌⊎◌, inl, inr, Bool, true, false, arith}
use migration_transport_hack.Websocket.Client.Race.{
  Cleaner, not_called, closing_websocket, closing_unix, returned, key_error, failed, Race, advance,
  break_off, ◌⟶◌, handler_moves, shutdown_moves, handler_breaks, shutdown_breaks, ◌⟶*◌, here, more,
  begun,
}

-- An invariant of the two calls: it does not tell them apart, and each turn of one call keeps it.
record Invariant (P : Bool → Cleaner → Cleaner → Type 0) : Type 0 where
  swaps : (tracked : Bool) (a b : Cleaner) → P tracked a b → P tracked b a
  advances :
      (tracked : Bool) (a b : Cleaner)
      → P tracked a b
      → P (advance a tracked).1 (advance a tracked).0 b
  breaks : (tracked : Bool) (a b : Cleaner) → P tracked a b → P tracked (break_off a) b

module _ {P : Bool → Cleaner → Cleaner → Type 0} (invariant : Invariant P) where
  open invariant use {swaps, advances, breaks}

  step_keeps :
      (r s : Race) → r ⟶ s → P r.tracked r.handler r.shutdown → P s.tracked s.handler s.shutdown
  step_keeps r s (handler_moves e) h = rw e (advances r.tracked r.handler r.shutdown h)
  step_keeps r s (shutdown_moves e) h =
      rw e (swaps _ _ _ (advances r.tracked r.shutdown r.handler (swaps r.tracked r.handler _ h)))
  step_keeps r s (handler_breaks e) h = rw e (breaks r.tracked r.handler r.shutdown h)
  step_keeps r s (shutdown_breaks e) h =
      rw e (
        swaps r.tracked _ _ (breaks r.tracked r.shutdown r.handler (swaps r.tracked r.handler _ h)))

  -- Every interleaving keeps it.
  reach_keeps :
      {r s : Race} → P r.tracked r.handler r.shutdown → r ⟶* s → P s.tracked s.handler s.shutdown
  reach_keeps h here = h
  reach_keeps h (more {s = s} {t = t} path last) = step_keeps s t last (reach_keeps h path)

-- While the connection is tracked no call has got past its `del`; afterwards one call has returned.
abbrev pub Agrees : Bool → Cleaner → Cleaner → Type 0
Agrees true a b = (a ≢ returned) × (a ≢ key_error) × (b ≢ returned) × (b ≢ key_error)
Agrees false a b = (a ≡ returned) ⊎ (b ≡ returned)

advance-Agrees :
    (tracked : Bool) (a b : Cleaner)
    → Agrees tracked a b
    → Agrees (advance a tracked).1 (advance a tracked).0 b
unfolding advance
advance-Agrees true a b h = ground arith
advance-Agrees false a b h = ground arith

swap-Agrees : (tracked : Bool) (a b : Cleaner) → Agrees tracked a b → Agrees tracked b a
swap-Agrees true a b h = (h.2, h.3, h.0, h.1)
swap-Agrees false a b (inl e) = inr e
swap-Agrees false a b (inr e) = inl e

break_off-Agrees :
    (tracked : Bool) (a b : Cleaner) → Agrees tracked a b → Agrees tracked (break_off a) b
unfolding break_off
break_off-Agrees true a b h = ground arith
break_off-Agrees false a b h = ground arith

agreement : Invariant Agrees
agreement = record { swaps = swap-Agrees; advances = advance-Agrees; breaks = break_off-Agrees }

key_error-other :
    (tracked : Bool) (a b : Cleaner)
    → Agrees tracked a b
    → (a ≡ key_error) ⊎ (b ≡ key_error)
    → (tracked ≡ false) × (((a ≡ key_error) × (b ≡ returned)) ⊎ ((a ≡ returned) × (b ≡ key_error)))
key_error-other true a b h e = ground arith
key_error-other false a b h e = ground arith

-- In every interleaving of the two calls, at most one ends in a `KeyError`; the other has returned
-- then, and the connection is no longer tracked.
key_error-returned :
    {r : Race}
    → begun ⟶* r
    → (r.handler ≡ key_error) ⊎ (r.shutdown ≡ key_error)
    → (r.tracked ≡ false)
      × (((r.handler ≡ key_error) × (r.shutdown ≡ returned))
          ⊎ ((r.handler ≡ returned) × (r.shutdown ≡ key_error)))
key_error-returned {r} path e =
    key_error-other r.tracked r.handler r.shutdown
      (reach_keeps agreement {r = begun} {s = r} (ground arith) path) e

-- Both calls have found the connection, and none has removed it or just one.
abbrev pub Doomed : Bool → Cleaner → Cleaner → Type 0
Doomed true a b =
    (a ≢ not_called)
    × (a ≢ returned)
    × (a ≢ key_error)
    × (b ≢ not_called)
    × (b ≢ returned)
    × (b ≢ key_error)
Doomed false a b =
    ((a ≡ returned) × (b ≢ returned) × (b ≢ not_called))
    ⊎ ((b ≡ returned) × (a ≢ returned) × (a ≢ not_called))

advance-Doomed :
    (tracked : Bool) (a b : Cleaner)
    → Doomed tracked a b
    → Doomed (advance a tracked).1 (advance a tracked).0 b
unfolding advance
advance-Doomed true a b h = ground arith
advance-Doomed false a b h = ground arith

swap-Doomed : (tracked : Bool) (a b : Cleaner) → Doomed tracked a b → Doomed tracked b a
swap-Doomed true a b h = ground arith
swap-Doomed false a b h = ground arith

break_off-Doomed :
    (tracked : Bool) (a b : Cleaner) → Doomed tracked a b → Doomed tracked (break_off a) b
unfolding break_off
break_off-Doomed true a b h = ground arith
break_off-Doomed false a b h = ground arith

doom : Invariant Doomed
doom = record { swaps = swap-Doomed; advances = advance-Doomed; breaks = break_off-Doomed }

-- The call has found the connection, and is in one of its `await`s.
abbrev pub IsClosing : Cleaner → Type 0
IsClosing c = (c ≡ closing_websocket) ⊎ (c ≡ closing_unix)

abbrev pub IsOver : Cleaner → Type 0
IsOver c = (c ≡ returned) ⊎ ((c ≡ key_error) ⊎ (c ≡ failed))

never_both :
    (tracked : Bool) (a b : Cleaner)
    → Doomed tracked a b
    → IsOver a
    → IsOver b
    → (a ≢ returned) ⊎ (b ≢ returned)
never_both true a b h o p = ground arith
never_both false a b h o p = ground arith

-- Once both calls have found a tracked connection, whichever way they are interleaved from there,
-- they never both return: when both are over, one has ended in a `KeyError` or a failed `await`.
pub both_closing-fails :
    {r s : Race}
    → r.tracked ≡ true
    → IsClosing r.handler
    → IsClosing r.shutdown
    → r ⟶* s
    → IsOver s.handler
    → IsOver s.shutdown
    → (s.handler ≢ returned) ⊎ (s.shutdown ≢ returned)
both_closing-fails {r} {s} t a b path o p =
    never_both s.tracked s.handler s.shutdown
      (reach_keeps doom {r = r} {s = s} (rw t (ground arith)) path) o p

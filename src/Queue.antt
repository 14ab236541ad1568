-- ===== src/Queue.antt =====
-- `CircularQueue` of migrate-proxy/tcp-migration-server.py (the client has a copy of it).
-- No coroutine holds `self.lock` across a suspension, so each of `put`, `get` and `close` is one
-- atomic step; `get` is the body of its loop up to the next suspension. `not_empty` is the number
-- of tasks that are suspended in its `wait`.
pub mod Laws
use migration_transport_hack.Base.{
  ℕ, ◌+◌, ◌-◌, Bool, true, false, List, [], ◌∷◌, length, snoc, ltb, if◌then◌else◌,
}

pub record CircularQueue {ℓ} (A : Type ℓ) : Type ℓ where
  pub queue : List A
  pub maxsize : ℕ
  pub closed : Bool
  pub waiters : ℕ

-- What one round of the loop in `get` comes to.
pub data Got {ℓ} (A : Type ℓ) : Type ℓ where
  item : A → Got A
  nothing : Got A
  wait : Got A

module _ {ℓ} {A : Type ℓ} where
  -- `deque.popleft`, on a deque that may be empty
  abbrev pub drop_first : List A → List A
  drop_first [] = []
  drop_first (x ∷ xs) = xs

  -- `append` of a `deque(maxlen=maxsize)`: a full deque gives up its first item.
  abbrev pub append_bounded : ℕ → List A → A → List A
  append_bounded maxsize xs x =
      if ltb (length xs) maxsize then snoc xs x else drop_first (snoc xs x)

  abbrev pub create : ℕ → CircularQueue A
  create maxsize = record { queue = []; maxsize = maxsize; closed = false; waiters = 0 }

  -- `notify` wakes one waiter.
  unfoldable pub put : A → CircularQueue A → CircularQueue A
  put x q =
      if q.closed
      then q
      else record q { queue = append_bounded q.maxsize q.queue x; waiters = q.waiters - 1 }

  get_from : List A → Bool → CircularQueue A → Got A × CircularQueue A
  get_from [] false q = (wait, record q { waiters = q.waiters + 1 })
  get_from [] true q = (nothing, q)
  get_from (x ∷ xs) closed q = (item x, record q { queue = xs })

  unfoldable pub get : CircularQueue A → Got A × CircularQueue A
  unfolding get_from
  get q = get_from q.queue q.closed q

  -- `notify_all` wakes every waiter.
  unfoldable pub close : CircularQueue A → CircularQueue A
  close q = record q { closed = true; waiters = 0 }

  -- A waiter that is cancelled leaves the condition.
  unfoldable pub forget_waiter : CircularQueue A → CircularQueue A
  forget_waiter q = record q { waiters = q.waiters - 1 }

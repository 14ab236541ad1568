-- ===== src/Echo.antt =====
-- The echo servers: `handle_client` of bpf_redirect/tcp-server.py, and of reuse-addr/s1.py and
-- reuse-addr/s2.py. How bytes are decoded and text is encoded are arguments.
pub mod Laws
pub mod Client
pub mod Reuse
pub mod Redirected
use Prim.Native.String.{◌++◌ as ◌<>◌}
use migration_transport_hack.Base.{
  zero, suc, ℕ, String, Option, none, some, Bool, true, false, List, [], ◌∷◌, snoc,
}
use migration_transport_hack.Proxy.{Socket, live, closed}

-- How sending a reply ends.
pub data Sending : Type 0 where
  sent : Sending
  partly : ℕ → Sending  -- so many bytes of it are taken, where the call is a plain `send`
  would_block : Sending  -- a `socket.error` with `EAGAIN` or `EWOULDBLOCK`
  broken : Sending  -- another exception

-- What a round of the loop meets.
pub data Event : Type 0 where
  receives : List ℕ → Sending → Event  -- `recv` returns; no bytes are the end
  recv_blocks : Event
  recv_breaks : Event

pub record Connection : Type 0 where
  pub replies : List (List ℕ)  -- what the calls that returned have taken, oldest first
  pub socket : Socket

abbrev pub accepted : Connection
accepted = record { replies = []; socket = live }

-- The `finally` block.
abbrev close : Connection → Connection
close c = record c { socket = closed }

-- Only tcp-server.py goes on after `EAGAIN`, with the next `recv`.
abbrev blocked : Bool → (Connection → Connection) → Connection → Connection
blocked true go_on c = go_on c
blocked false go_on c = close c

abbrev pub take : ℕ → List ℕ → List ℕ
take zero bs = []
take (suc k) [] = []
take (suc k) (b ∷ bs) = b ∷ take k bs

-- tcp-server.py calls `send` and does not look at what it returns; the others call `sendall`.
abbrev part : Bool → ℕ → List ℕ → List ℕ
part true k reply = take k reply
part false k reply = reply

module _ (decode : List ℕ → Option String) (encode : String → List ℕ) where
  abbrev pub reply_to : String → String → List ℕ
  reply_to prefix message = encode (prefix <> message)

  -- Decoding comes before sending, and may raise.
  pub answer :
      Bool → String → Option String → Sending → (Connection → Connection) → Connection → Connection
  answer retries prefix none s go_on c = close c
  answer retries prefix (some m) sent go_on c =
      go_on (record c { replies = snoc c.replies (reply_to prefix m) })
  answer retries prefix (some m) (partly k) go_on c =
      go_on (record c { replies = snoc c.replies (part retries k (reply_to prefix m)) })
  answer retries prefix (some m) would_block go_on c = blocked retries go_on c
  answer retries prefix (some m) broken go_on c = close c

  pub echo_loop : Bool → String → List Event → Connection → Connection
  unfolding answer
  echo_loop retries prefix [] c = c
  echo_loop retries prefix (receives [] s ∷ rest) c = close c
  echo_loop retries prefix (receives (b ∷ bs) s ∷ rest) c =
      answer retries prefix (decode (b ∷ bs)) s (echo_loop retries prefix rest) c
  echo_loop retries prefix (recv_blocks ∷ rest) c =
      blocked retries (echo_loop retries prefix rest) c
  echo_loop retries prefix (recv_breaks ∷ rest) c = close c

  -- bpf_redirect/tcp-server.py
  pub handle_redirected : List Event → Connection
  handle_redirected events = echo_loop true "Server received: " events accepted

  -- reuse-addr/s1.py
  pub handle_first : List Event → Connection
  handle_first events = echo_loop false "S1 Echo: " events accepted

  -- reuse-addr/s2.py
  pub handle_reused : List Event → Connection
  handle_reused events = echo_loop false "S2 Echo: " events accepted

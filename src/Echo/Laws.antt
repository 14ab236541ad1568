-- ===== src/Echo/Laws.antt =====
-- What the echo servers reply.
use Prim.Native.String.{◌++◌ as ◌<>◌}
use mathlib.Core.List.{append-nil, append_assoc}
use migration_transport_hack.Base.{
  ℕ, ◌≡◌, refl, sym, ◌∙◌, String, Option, none, some, Bool, true, false, List, [], ◌∷◌, ◌++◌, snoc,
}
use migration_transport_hack.Proxy.{Socket, live, closed}
use migration_transport_hack.Echo.{
  Sending, sent, partly, take, handle_first, would_block, broken, Event, receives, recv_blocks,
  recv_breaks, Connection, accepted, answer, echo_loop, handle_redirected, handle_reused,
}

-- A connection that was live has got these replies, and its socket is this.
abbrev pub Replies : List (List ℕ) → Socket → Connection → Connection → Type 0
Replies rs socket c d = (d.replies ≡ c.replies ++ rs) × (d.socket ≡ socket)

abbrev more : Connection → List ℕ → Connection
more c reply = record c { replies = snoc c.replies reply }

more-Replies :
    (c : Connection) (reply : List ℕ) (rs : List (List ℕ)) {socket : Socket} {d : Connection}
    → Replies rs socket (more c reply) d
    → Replies (reply ∷ rs) socket c d
more-Replies c reply rs (e, f) = (e ∙ append_assoc c.replies _ _, f)

module _ (decode : List ℕ → Option String) (encode : String → List ℕ) where
  abbrev reply_then : Bool → String → Option String → Sending → List (List ℕ) → List (List ℕ)
  reply_then retries prefix (some m) sent rs = encode (prefix <> m) ∷ rs
  reply_then true prefix (some m) (partly k) rs = take k (encode (prefix <> m)) ∷ rs
  reply_then false prefix (some m) (partly k) rs = encode (prefix <> m) ∷ rs
  reply_then true prefix (some m) would_block rs = rs
  reply_then _ _ _ _ _ = []

  -- The replies, in order: up to the end, an exception, or text that cannot be decoded. With a
  -- server that goes on, one that would block is lost, and of one that is taken in part the rest
  -- is.
  abbrev pub replies_to : Bool → String → List Event → List (List ℕ)
  replies_to retries prefix [] = []
  replies_to retries prefix (receives [] s ∷ rest) = []
  replies_to retries prefix (receives (b ∷ bs) s ∷ rest) =
      reply_then retries prefix (decode (b ∷ bs)) s (replies_to retries prefix rest)
  replies_to true prefix (recv_blocks ∷ rest) = replies_to true prefix rest
  replies_to false prefix (recv_blocks ∷ rest) = []
  replies_to retries prefix (recv_breaks ∷ rest) = []

  abbrev socket_then : Bool → Option String → Sending → Socket → Socket
  socket_then retries (some m) sent s = s
  socket_then retries (some m) (partly k) s = s
  socket_then true (some m) would_block s = s
  socket_then _ _ _ _ = closed

  -- The socket afterwards: closed, unless every event so far lets the server go on.
  abbrev pub socket_after : Bool → List Event → Socket
  socket_after retries [] = live
  socket_after retries (receives [] s ∷ rest) = closed
  socket_after retries (receives (b ∷ bs) s ∷ rest) =
      socket_then retries (decode (b ∷ bs)) s (socket_after retries rest)
  socket_after true (recv_blocks ∷ rest) = socket_after true rest
  socket_after false (recv_blocks ∷ rest) = closed
  socket_after retries (recv_breaks ∷ rest) = closed

  answer-Replies :
      (retries : Bool) (prefix : String) (text : Option String) (s : Sending)
      (go_on : Connection → Connection) (rs : List (List ℕ)) (socket : Socket) (c : Connection)
      → ((d : Connection) → d.socket ≡ live → Replies rs socket d (go_on d))
      → c.socket ≡ live
      → Replies
          (reply_then retries prefix text s rs)
          (socket_then retries text s socket)
          c
          (answer decode encode retries prefix text s go_on c)
  unfolding answer
  answer-Replies retries prefix none s go_on rs socket c later e = (sym (append-nil _), refl)
  answer-Replies retries prefix (some m) sent go_on rs socket c later e =
      more-Replies c _ rs (later (more c (encode (prefix <> m))) e)
  answer-Replies true prefix (some m) (partly k) go_on rs socket c later e =
      more-Replies c _ rs (later (more c (take k (encode (prefix <> m)))) e)
  answer-Replies false prefix (some m) (partly k) go_on rs socket c later e =
      more-Replies c _ rs (later (more c (encode (prefix <> m))) e)
  answer-Replies true prefix (some m) would_block go_on rs socket c later e = later c e
  answer-Replies false prefix (some m) would_block go_on rs socket c later e =
      (sym (append-nil _), refl)
  answer-Replies retries prefix (some m) broken go_on rs socket c later e =
      (sym (append-nil _), refl)

  echo_loop-Replies :
      (retries : Bool) (prefix : String) (events : List Event) (c : Connection)
      → c.socket ≡ live
      → Replies
          (replies_to retries prefix events)
          (socket_after retries events)
          c
          (echo_loop decode encode retries prefix events c)
  unfolding echo_loop
  echo_loop-Replies retries prefix [] c e = (sym (append-nil _), e)
  echo_loop-Replies retries prefix (receives [] s ∷ rest) c e = (sym (append-nil _), refl)
  echo_loop-Replies retries prefix (receives (b ∷ bs) s ∷ rest) c e =
      answer-Replies retries prefix (decode (b ∷ bs)) s
        (echo_loop decode encode retries prefix rest) (replies_to retries prefix rest)
        (socket_after retries rest) c (echo_loop-Replies retries prefix rest) e
  echo_loop-Replies true prefix (recv_blocks ∷ rest) c e = echo_loop-Replies true prefix rest c e
  echo_loop-Replies false prefix (recv_blocks ∷ rest) c e = (sym (append-nil _), refl)
  echo_loop-Replies retries prefix (recv_breaks ∷ rest) c e = (sym (append-nil _), refl)

  -- The echo servers reply, in order and with their prefix, to the messages up to the end, an
  -- exception or text that cannot be decoded, and then close the socket. Those of reuse-addr send
  -- each reply whole. The redirected one goes on where a call would block, so that a message whose
  -- reply would block gets none, and of a reply that `send` takes in part it sends that part only.
  pub echo-Replies :
      (events : List Event)
      → Replies
          (replies_to true "Server received: " events)
          (socket_after true events)
          accepted
          (handle_redirected decode encode events)
        × Replies
            (replies_to false "S1 Echo: " events)
            (socket_after false events)
            accepted
            (handle_first decode encode events)
        × Replies
            (replies_to false "S2 Echo: " events)
            (socket_after false events)
            accepted
            (handle_reused decode encode events)
  unfolding handle_redirected handle_first handle_reused
  echo-Replies events = (
    echo_loop-Replies true "Server received: " events accepted refl,
    echo_loop-Replies false "S1 Echo: " events accepted refl,
    echo_loop-Replies false "S2 Echo: " events accepted refl,
  )

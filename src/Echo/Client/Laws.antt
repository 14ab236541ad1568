-- ===== src/Echo/Client/Laws.antt =====
-- What a client sends, and what it prints in a conversation with an echo server.
use mathlib.Core.List.{append_assoc, append-nil}
use Prim.Native.String.{◌++◌ as ◌<>◌}
use migration_transport_hack.Base.{
  ◌≢◌, false, ℕ, zero, suc, ◌+◌, ◌≡◌, ◌∙◌, sym, refl, ap, String, Option, some, List, [], ◌∷◌, ◌++◌,
  snoc, map,
}
use migration_transport_hack.Proxy.{live}
use migration_transport_hack.Echo.{
  Event, receives, sent, Connection, accepted, reply_to, answer, echo_loop, handle_first,
  handle_reused,
}
use migration_transport_hack.Echo.Client.{
  responds, Client, connected, client_loop, first_client, second_client,
}

-- The numbers from one on.
abbrev pub from : ℕ → ℕ → List ℕ
from k zero = []
from k (suc n) = k ∷ from (k + 1) n

filled :
    (c : Client) {xs xs' : List (List ℕ)} {ys ys' : List String}
    → xs ≡ xs'
    → ys ≡ ys'
    → record c { sent = xs; printed = ys } ≡ record c { sent = xs'; printed = ys' }
filled c {xs' = xs'} {ys = ys} e f =
    ap (λ x. record c { sent = x; printed = ys }) e
    ∙ ap (λ y. record c { sent = xs'; printed = y }) f

module _ (show : ℕ → String) (decode : List ℕ → Option String) (encode : String → List ℕ) where
  -- A server that gets texts one by one, with bytes for each.
  abbrev pub arriving : List String → List Event
  arriving ts = map (λ t. receives (encode t) sent) ts

  echo_loop-receives :
      (prefix : String) (bytes : List ℕ) (t : String) (rest : List Event) (c : Connection)
      → bytes ≢ []
      → decode bytes ≡ some t
      → echo_loop decode encode false prefix (receives bytes sent ∷ rest) c
        ≡ echo_loop decode encode false prefix rest
            (record c { replies = snoc c.replies (reply_to decode encode prefix t) })
  unfolding echo_loop answer
  echo_loop-receives prefix [] t rest c n e = absurd (n refl)
  echo_loop-receives prefix (b ∷ bs) t rest c n e = rw e refl

  -- The texts of a client's messages.
  abbrev pub texts_from : String → ℕ → ℕ → List String
  texts_from prefix k n = map (λ i. prefix <> show i) (from k n)

  -- The codec gives the messages and their echoes back, and the messages have bytes.
  abbrev pub IsCodec : String → String → Type 0
  IsCodec server prefix =
      (i : ℕ)
      → (decode (encode (prefix <> show i)) ≡ some (prefix <> show i))
        × (decode (encode (server <> (prefix <> show i))) ≡ some (server <> (prefix <> show i)))
        × (encode (prefix <> show i) ≢ [])

  replies-arriving :
      (server prefix : String) (n k : ℕ) (c : Connection)
      → IsCodec server prefix
      → (echo_loop decode encode false server (arriving (texts_from prefix k n)) c).replies
        ≡ c.replies ++ map (reply_to decode encode server) (texts_from prefix k n)
  unfolding echo_loop
  replies-arriving server prefix zero k c h = sym (append-nil c.replies)
  replies-arriving server prefix (suc n) k c h =
      ap (λ d. d.replies)
        (echo_loop-receives server (encode (prefix <> show k)) (prefix <> show k)
          (arriving (texts_from prefix (k + 1) n)) c (h k).2 (h k).0)
      ∙ replies-arriving server prefix n (k + 1) _ h
      ∙ append_assoc c.replies (reply_to decode encode server (prefix <> show k) ∷ [])
          (map (reply_to decode encode server) (texts_from prefix (k + 1) n))

  client_loop-answered :
      (server prefix : String) (n k : ℕ) (c : Client)
      → IsCodec server prefix
      → client_loop show decode encode prefix
          (map responds (map (reply_to decode encode server) (texts_from prefix k n)))
          k
          c
        ≡ record c {
          sent = c.sent ++ map encode (texts_from prefix k n);
          printed = c.printed ++ map (λ t. server <> t) (texts_from prefix k n);
        }
  unfolding client_loop
  client_loop-answered server prefix zero k c h =
      filled c (sym (append-nil c.sent)) (sym (append-nil c.printed))
  client_loop-answered server prefix (suc n) k c h = rw ((h k).1) (
      client_loop-answered server prefix n (k + 1) _ h
      ∙ filled c
          (append_assoc c.sent (encode (prefix <> show k) ∷ [])
            (map encode (texts_from prefix (k + 1) n)))
          (append_assoc c.printed ((server <> (prefix <> show k)) ∷ [])
            (map (λ t. server <> t) (texts_from prefix (k + 1) n))))

  -- A conversation from any number and any state of the client on.
  conversation_from :
      (server prefix : String) (n k : ℕ) (c : Client)
      → IsCodec server prefix
      → client_loop show decode encode prefix
          (map responds
            (echo_loop decode encode false server
              (arriving (texts_from prefix k n))
              accepted).replies)
          k
          c
        ≡ record c {
          sent = c.sent ++ map encode (texts_from prefix k n);
          printed = c.printed ++ map (λ t. server <> t) (texts_from prefix k n);
        }
  conversation_from server prefix n k c h =
      rw (replies-arriving server prefix n k accepted h)
        (client_loop-answered server prefix n k c h)

  -- Each client of reuse-addr in a conversation with its echo server, c1.py with s1.py and c2.py
  -- with s2.py, each message arriving whole, with a codec that gives these texts back and messages
  -- that have bytes: however often they exchange, the client sends its messages numbered from one,
  -- and prints exactly their echoes behind the prefix of the server, in order, and is still
  -- connected.
  pub conversation :
      (n : ℕ)
      → IsCodec "S1 Echo: " "C1 message "
      → IsCodec "S2 Echo: " "C2 message "
      → let ts : List String = texts_from "C1 message " 1 n in
        let us : List String = texts_from "C2 message " 1 n in
        (first_client show decode encode
            (map responds (handle_first decode encode (arriving ts)).replies)
          ≡ record {
            sent = map encode ts;
            printed = map (λ t. "S1 Echo: " <> t) ts;
            socket = live;
          })
        × (second_client show decode encode
              (map responds (handle_reused decode encode (arriving us)).replies)
            ≡ record {
              sent = map encode us;
              printed = map (λ t. "S2 Echo: " <> t) us;
              socket = live;
            })
  unfolding first_client second_client handle_first handle_reused
  conversation n h g = (
    conversation_from "S1 Echo: " "C1 message " n 1 connected h,
    conversation_from "S2 Echo: " "C2 message " n 1 connected g,
  )

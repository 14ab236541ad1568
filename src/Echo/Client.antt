-- ===== src/Echo/Client.antt =====
-- The clients of reuse-addr, c1.py and c2.py, which differ in their prefix only, and a conversation
-- with a server. How numbers are printed and text is encoded and decoded are arguments.
pub mod Laws
use Prim.Native.String.{◌++◌ as ◌<>◌}
use migration_transport_hack.Base.{
  ℕ, zero, suc, ◌+◌, String, Option, none, some, List, [], ◌∷◌, snoc,
}
use migration_transport_hack.Proxy.{Socket, live, closed}

-- What a round of the loop meets. An empty response is not told from another one.
pub data Exchange : Type 0 where
  responds : List ℕ → Exchange  -- `sendall` and `recv` return
  send_raises : Exchange  -- an exception or an interrupt
  recv_raises : Exchange

pub record Client : Type 0 where
  pub sent : List (List ℕ)  -- what `sendall` has taken, oldest first
  pub printed : List String  -- the responses, oldest first
  pub socket : Socket

abbrev pub connected : Client
connected = record { sent = []; printed = []; socket = live }

-- The `finally` block.
abbrev pub close : Client → Client
close c = record c { socket = closed }

module _ (show : ℕ → String) (decode : List ℕ → Option String) (encode : String → List ℕ) where
  -- The f-string of the prefix and `counter`, encoded
  abbrev pub message : String → ℕ → List ℕ
  message prefix counter = encode (prefix <> show counter)

  abbrev sending : List ℕ → Client → Client
  sending m c = record c { sent = snoc c.sent m }

  -- Decoding the response may raise.
  abbrev pub heard : Option String → (Client → Client) → Client → Client
  heard none go_on c = close c
  heard (some text) go_on c = go_on (record c { printed = snoc c.printed text })

  pub client_loop : String → List Exchange → ℕ → Client → Client
  client_loop prefix [] counter c = c
  client_loop prefix (responds r ∷ rest) counter c =
      heard (decode r) (client_loop prefix rest (counter + 1)) (sending (message prefix counter) c)
  client_loop prefix (send_raises ∷ rest) counter c = close c
  client_loop prefix (recv_raises ∷ rest) counter c = close (sending (message prefix counter) c)

  -- `start_client` of c1.py, once it is connected
  pub first_client : List Exchange → Client
  first_client rounds = client_loop "C1 message " rounds 1 connected

  -- That of c2.py
  pub second_client : List Exchange → Client
  second_client rounds = client_loop "C2 message " rounds 1 connected

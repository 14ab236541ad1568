-- ===== src/Tests/Echoes.antt =====
-- The echo servers at chosen events.
use text.Mathlib.Text.{◌==◌ as str_eq}
use migration_transport_hack.Base.{
  ℕ, map, Bool-cases, inl, inr, ◌≡◌, refl, String, Option, none, some, true, List, [], ◌∷◌, ◌==◌,
  if◌then◌else◌,
}
use migration_transport_hack.Proxy.{closed, live}
use migration_transport_hack.Echo.{
  sent, partly, handle_first, would_block, Event, receives, recv_blocks, accepted,
  handle_redirected, handle_reused,
}
use migration_transport_hack.Echo.Client.{responds, first_client, second_client}
use migration_transport_hack.Echo.Client.Laws.{IsCodec, conversation}
use migration_transport_hack.Echo.Laws.{replies_to, Replies, echo-Replies}

-- One letter, and an encoding that only marks the prefix's server.
abbrev letter : List ℕ → Option String
letter [] = none
letter (b ∷ bs) = if b == 104 then some "h" else none

abbrev mark : String → List ℕ
mark s = 1 ∷ 2 ∷ []

-- The second message is not answered, of the third reply one byte is taken, and the last is no text.
abbrev visit : List Event
visit =
    receives (104 ∷ []) sent
    ∷ receives (104 ∷ []) would_block
    ∷ recv_blocks
    ∷ receives (104 ∷ 105 ∷ []) (partly 1)
    ∷ receives (255 ∷ []) sent
    ∷ []

replies_result :
    replies_to letter mark true "Server received: " visit ≡ (1 ∷ 2 ∷ []) ∷ (1 ∷ []) ∷ []
replies_result = refl

echo-Replies_example :
    Replies ((1 ∷ 2 ∷ []) ∷ (1 ∷ []) ∷ []) closed accepted (handle_redirected letter mark visit)
    × Replies ((1 ∷ 2 ∷ []) ∷ []) closed accepted (handle_first letter mark visit)
    × Replies ((1 ∷ 2 ∷ []) ∷ []) closed accepted (handle_reused letter mark visit)
echo-Replies_example = echo-Replies letter mark visit

-- Two numbers, and a codec of the eight texts that they give.
abbrev digit : ℕ → String
digit i = if i == 1 then "1" else "2"

abbrev text_of : ℕ → Option String
text_of n =
    if n == 1
    then some "C1 message 1"
    else if n == 2
    then some "C1 message 2"
    else if n == 3
    then some "S1 Echo: C1 message 1"
    else if n == 4
    then some "S1 Echo: C1 message 2"
    else if n == 5
    then some "C2 message 1"
    else if n == 6
    then some "C2 message 2"
    else if n == 7
    then some "S2 Echo: C2 message 1"
    else some "S2 Echo: C2 message 2"

abbrev by_number : List ℕ → Option String
by_number [] = none
by_number (n ∷ ns) = text_of n

abbrev numbered : String → List ℕ
numbered t =
    (if str_eq t "C1 message 1"
      then 1
      else if str_eq t "C1 message 2"
      then 2
      else if str_eq t "S1 Echo: C1 message 1"
      then 3
      else if str_eq t "S1 Echo: C1 message 2"
      then 4
      else if str_eq t "C2 message 1"
      then 5
      else if str_eq t "C2 message 2"
      then 6
      else if str_eq t "S2 Echo: C2 message 1"
      then 7
      else 8)
    ∷ []

first-IsCodec : IsCodec digit by_number numbered "S1 Echo: " "C1 message "
first-IsCodec i = elim (Bool-cases (i == 1)) [
  | inl e ↦ rw e (refl, refl, λ h. cc)
  | inr e ↦ rw e (refl, refl, λ h. cc)
]

second-IsCodec : IsCodec digit by_number numbered "S2 Echo: " "C2 message "
second-IsCodec i = elim (Bool-cases (i == 1)) [
  | inl e ↦ rw e (refl, refl, λ h. cc)
  | inr e ↦ rw e (refl, refl, λ h. cc)
]

conversation_example :
    (first_client digit by_number numbered (
        map responds
          (handle_first by_number numbered
            (receives (1 ∷ []) sent ∷ receives (2 ∷ []) sent ∷ [])).replies)
      ≡ record {
        sent = (1 ∷ []) ∷ (2 ∷ []) ∷ [];
        printed = "S1 Echo: C1 message 1" ∷ "S1 Echo: C1 message 2" ∷ [];
        socket = live;
      })
    × (second_client digit by_number numbered (
          map responds
            (handle_reused by_number numbered
              (receives (5 ∷ []) sent ∷ receives (6 ∷ []) sent ∷ [])).replies)
        ≡ record {
          sent = (5 ∷ []) ∷ (6 ∷ []) ∷ [];
          printed = "S2 Echo: C2 message 1" ∷ "S2 Echo: C2 message 2" ∷ [];
          socket = live;
        })
conversation_example = conversation digit by_number numbered 2 first-IsCodec second-IsCodec

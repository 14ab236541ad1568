-- ===== src/Perf/Menu.antt =====
-- The menus of proxy-perf/tcp/send.py and proxy-perf/websocket/send.py: which test `main` starts for
-- the lines that are typed.
use text.Mathlib.Text.{◌==◌ as str_eq}
use migration_transport_hack.Base.{
  arith, false, ◌||◌, ◌≡◌, ℕ, String, Option, none, some, List, [], ◌∷◌, if◌then◌else◌,
}

-- A test, with its duration in seconds and its target in MBps.
pub data Test : Type 0 where
  benchmark_send : ℕ → Option ℕ → Test
  benchmark_send_unix : ℕ → String → Option ℕ → Test

-- Python's functions on texts; `none` is a `ValueError`. Durations and targets are whole numbers
-- here.
pub record Texts : Type 0 where
  pub strip : String → String
  pub int : String → Option ℕ
  pub float : String → Option ℕ

-- `… or default`, for a text
abbrev or_else : String → String → String
or_else line default = if str_eq line "" then default else line

-- The lines that are left; `none` is an exception that leaves `main`, as `EOFError` does.
abbrev Dialogue : Type 0 → Type 0
Dialogue A = List String → Option (A × List String)

-- `input(…)`
abbrev input : Dialogue String
input [] = none
input (line ∷ rest) = some (line, rest)

abbrev then_number : (String → Option ℕ) → Option (String × List String) → Option (ℕ × List String)
then_number read none = none
then_number read (some (line, rest)) = elim (read line) [ none ↦ none | some n ↦ some (n, rest) ]

module _ (t : Texts) where
  -- `float(input("Enter target bandwidth (MBps): "))`
  abbrev ask_target : Dialogue ℕ
  ask_target lines = then_number t.float (input lines)

  -- `int(input("Enter duration (seconds, default 30): ") or "30")`
  abbrev ask_duration : Dialogue ℕ
  ask_duration lines = then_number (λ line. t.int (or_else line "30")) (input lines)

  -- `int(input("Enter duration (seconds): "))`
  abbrev ask_own_duration : Dialogue ℕ
  ask_own_duration lines = then_number t.int (input lines)

  abbrev path_of : String → String
  path_of line = or_else (t.strip line) "/tmp/tcp_sender.sock"

  abbrev limited : Dialogue (ℕ × ℕ)
  limited lines = elim (ask_target lines) [
    | none ↦ none
    | some (target, rest) ↦ elim (ask_duration rest) [
      | none ↦ none
      | some (duration, left) ↦ some ((duration, target), left)
    ]
  ]

  abbrev send_limited : Option ((ℕ × ℕ) × List String) → Option Test
  send_limited none = none
  send_limited (some ((duration, target), rest)) = some (benchmark_send duration (some target))

  abbrev send_for : Option (ℕ × List String) → Option Test
  send_for none = none
  send_for (some (duration, rest)) = some (benchmark_send duration none)

  abbrev send_unix : ℕ → Option ℕ → Option (String × List String) → Option Test
  send_unix duration target none = none
  send_unix duration target (some (line, rest)) =
      some (benchmark_send_unix duration (path_of line) target)

  abbrev unix_for : Option (ℕ × List String) → Option Test
  unix_for none = none
  unix_for (some (duration, rest)) = send_unix duration none (input rest)

  abbrev unix_limited : Option ((ℕ × ℕ) × List String) → Option Test
  unix_limited none = none
  unix_limited (some ((duration, target), rest)) = send_unix duration (some target) (input rest)

  -- What the choice starts in both programs: `1` and an invalid choice start the same test.
  abbrev by_choice : String → List String → Option Test
  by_choice choice lines =
      let two = send_limited (limited lines) in
      let three = send_for (ask_own_duration lines) in
      if str_eq choice "2"
      then two
      else if str_eq choice "3"
      then three
      else some (benchmark_send 30 none)

  abbrev tcp_by_choice : String → List String → Option Test
  tcp_by_choice choice lines =
      let four = unix_for (ask_duration lines) in
      let five = unix_limited (limited lines) in
      if str_eq choice "4" then four else if str_eq choice "5" then five else by_choice choice lines

  abbrev chosen : (String → List String → Option Test) → Option (String × List String) → Option Test
  chosen start none = none
  chosen start (some (line, rest)) = start (t.strip line) rest

  pub tcp_main : List String → Option Test
  tcp_main lines = chosen tcp_by_choice (input lines)

  pub websocket_main : List String → Option Test
  websocket_main lines = chosen by_choice (input lines)

agree :
    (t : Texts) (choice : String) (lines : List String)
    → (str_eq choice "4" || str_eq choice "5") ≡ false
    → tcp_by_choice t choice lines ≡ by_choice t choice lines
agree t choice lines h = ground arith

-- The two menus start the same test for the same lines, unless the choice is one of the two tests
-- with a unix socket.
menus_agree :
    (t : Texts) (line : String) (rest : List String)
    → (str_eq (t.strip line) "4" || str_eq (t.strip line) "5") ≡ false
    → tcp_main t (line ∷ rest) ≡ websocket_main t (line ∷ rest)
unfolding tcp_main websocket_main
menus_agree t line rest h = agree t (t.strip line) rest h

-- ===== src/Proxy/System.antt =====
-- The TCP server with all of its connections: `handle_client` numbers each by `connection_counter`
-- and starts two `forward_data`, and all of these count their reads in the one `read_histogram`.
pub mod Private
pub mod Shared
pub mod Delivery
use migration_transport_hack.Base.{
  ℕ, ◌+◌, Option, none, some, Bool, true, false, List, [], ◌∷◌, ◌==◌, ◌&&◌, ltb, leb, if◌then◌else◌,
}
use migration_transport_hack.Histogram.{Histogram}
use migration_transport_hack.Forward.{Forward, Turn}
use migration_transport_hack.Forward as One
use migration_transport_hack.Forward.Shared.{share}

-- The two directions of a connection.
pub data Side : Type 0 where
  tcp_to_unix unix_to_tcp : Side

abbrev pub same_side : Side → Side → Bool
same_side tcp_to_unix tcp_to_unix = true
same_side unix_to_tcp unix_to_tcp = true
same_side _ _ = false

-- `forwards i side` is the forwarder of connection `i`, once it has one.
pub record System : Type 0 where
  pub connection_counter : ℕ
  pub read_histogram : Histogram
  pub forwards : ℕ → Side → Option Forward

abbrev pub idle : System
idle = record { connection_counter = 0; read_histogram = []; forwards = λ i side. none }

pub data Event : Type 0 where
  connects : Event  -- a client: the handler takes its number
  links : ℕ → Event  -- the handler of this number has its unix socket and creates both tasks
  turns : ℕ → Side → Turn → Event

abbrev pub is_none : Option Forward → Bool
is_none none = true
is_none (some f) = false

-- The handler of a number in use, if it has no tasks yet.
abbrev pub links_now : ℕ → System → Bool
links_now i s =
    ltb 0 i
    && leb i s.connection_counter
    && is_none (s.forwards i tcp_to_unix)
    && is_none (s.forwards i unix_to_tcp)

abbrev pub opened : ℕ → (ℕ → Side → Option Forward) → ℕ → Side → Option Forward
opened id fs i side = if id == i then some (One.start []) else fs i side

abbrev pub put : ℕ → Side → Forward → (ℕ → Side → Option Forward) → ℕ → Side → Option Forward
put i side f fs j other = if i == j && same_side side other then some f else fs j other

abbrev pub turn : ℕ → Side → Option Forward → System → System
turn i side none s = s
turn i side (some f) s = record s {
  read_histogram = f.read_histogram;
  forwards = put i side f s.forwards;
}

-- The forwarders share the histogram of the server.
abbrev pub moved : Turn → Histogram → Option Forward → Option Forward
moved t h none = none
moved t h (some f) = some (One.step t (share h f))

unfoldable pub step : Event → System → System
step connects s = record s { connection_counter = s.connection_counter + 1 }
step (links i) s = if links_now i s then record s { forwards = opened i s.forwards } else s
step (turns i side t) s = turn i side (moved t s.read_histogram (s.forwards i side)) s

unfoldable pub run : List Event → System → System
unfolding step
run [] s = s
run (e ∷ es) s = run es (step e s)

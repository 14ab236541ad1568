-- ===== src/Tests/Descriptors.antt =====
-- The TLS scripts at chosen answers.
use migration_transport_hack.Base.{◌≡◌, refl, none, some, Bool, true, false, [], ◌∷◌}
use migration_transport_hack.Async.{exception, Result, ok, err, None}
use migration_transport_hack.Tls.{
  Handed, given, Command, query_status, migrate_set_parameters, getfd, migrate, migrate_incoming,
  Qemu, opening, max_bandwidth, main_send, main_receive,
}
use migration_transport_hack.Tls.Laws.{mains-Follow, IsRefusing, Follows}

-- One that does not know the descriptor, and a client that refuses while it is not connected.
abbrev old_answer : Bool → Command → Result None
old_answer true (getfd name) = err exception
old_answer true _ = ok tt
old_answer false _ = err exception

abbrev passing : Bool → Handed → Result None
passing true (given fd) = ok tt
passing true _ = err exception
passing false fd = err exception

abbrev pub old : Qemu
old = record {
  connecting = ok tt;
  answers = old_answer;
  sending_fd = passing;
  disconnecting = ok tt;
}

pub old-IsRefusing : IsRefusing old
old-IsRefusing = (λ c e. cc, λ fd e. cc)

-- `getfd` fails, so the migration is not started, although the script goes on.
main_send_result : main_send old (some 7) (ok none) opening ≡ (
  ok tt,
  record {
    connected = false;
    accepted = query_status ∷ migrate_set_parameters max_bandwidth ∷ [];
    passed = given 7 ∷ [];
  },
)
unfolding main_send
main_send_result = refl

mains-Follow_example :
    Follows old (migrate "fd:migfd") 7 (main_send old (some 7) (ok none) opening)
    × Follows old (migrate_incoming "fd:migfd") 7 (main_receive old (some 7) (ok none) opening)
mains-Follow_example = mains-Follow old (ok none) 7 old-IsRefusing refl refl refl

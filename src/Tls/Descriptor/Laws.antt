-- ===== src/Tls/Descriptor/Laws.antt =====
-- What comes of a descriptor that is sent to a TLS script.
use migration_transport_hack.Base.{
  ◌≡◌, ◌≢◌, refl, ℕ, Bool, true, false, Option, some, List, [], ◌∷◌, ◌++◌, arith,
}
use migration_transport_hack.Async.{exception, Result, ok, err}
use migration_transport_hack.Tls.{given, Qemu, migrate, migrate_incoming}
use migration_transport_hack.Tls.Laws.{IsRefusing, Follows, main_send-Follows, main_receive-Follows}
use migration_transport_hack.Tls.Descriptor.{
  Ancillary, rights, malformed, other, Sockets, first_descriptor, Peer, receive_fd, script_send,
  script_receive,
}

-- Ancillary data of other kinds.
abbrev pub all_other : List Ancillary → Bool
all_other [] = true
all_other (other ∷ rest) = all_other rest
all_other _ = false

first_descriptor-other :
    (before : List Ancillary) (fd : ℕ) (after : List Ancillary)
    → all_other before ≡ true
    → first_descriptor (before ++ rights fd ∷ after) ≡ ok (some fd)
unfolding first_descriptor
first_descriptor-other [] fd after h = refl
first_descriptor-other (other ∷ rest) fd after h = first_descriptor-other rest fd after h
first_descriptor-other (rights g ∷ rest) fd after h = cc
first_descriptor-other (malformed ∷ rest) fd after h = cc

-- Once a peer has connected, the function leaves both sockets closed and no file, whatever the
-- message holds or raises, and it raises no `Exception`.
receive_fd-closes :
    (p : Peer) (s : Sockets)
    → p.binding ≡ ok tt
    → p.accepting ≡ ok tt
    → ((receive_fd p s).1 ≡ record { file = false; sock = false; conn = false })
      × ((receive_fd p s).0 ≢ err exception)
unfolding receive_fd
receive_fd-closes p s b a = ground arith

receive_fd-rights :
    (p : Peer) (s : Sockets) (before : List Ancillary) (fd : ℕ) (after : List Ancillary)
    → p.binding ≡ ok tt
    → p.accepting ≡ ok tt
    → all_other before ≡ true
    → p.message ≡ ok (before ++ rights fd ∷ after)
    → receive_fd p s ≡ (ok (some fd), record { file = false; sock = false; conn = false })
unfolding receive_fd
receive_fd-rights p s before fd after b a h m =
    ground (arith, first_descriptor-other before fd after h)

-- A peer sends either script a descriptor, after ancillary data of other kinds only, that can be
-- passed to QEMU, and the client library connects, does nothing while it is not connected, and
-- disconnects without an exception. Then QEMU carries out just the beginning of the script up to
-- the first failure, and gets this descriptor unless `query-status` or the bandwidth fails. The
-- unix sockets are closed and their file is gone.
pub scripts_pass :
    (q : Qemu) (p : Peer) (made : Result (Option ℕ)) (s : Sockets) (before : List Ancillary)
    (fd : ℕ) (after : List Ancillary)
    → IsRefusing q
    → q.connecting ≡ ok tt
    → q.disconnecting ≡ ok tt
    → q.sending_fd true (given fd) ≡ ok tt
    → p.binding ≡ ok tt
    → p.accepting ≡ ok tt
    → all_other before ≡ true
    → p.message ≡ ok (before ++ rights fd ∷ after)
    → let shut : Sockets = record { file = false; sock = false; conn = false } in
      (Follows q (migrate "fd:migfd") fd (script_send q p made s).0
        × ((script_send q p made s).1 ≡ shut))
      × (Follows q (migrate_incoming "fd:migfd") fd (script_receive q p made s).0
          × ((script_receive q p made s).1 ≡ shut))
unfolding script_send script_receive
scripts_pass q p made s before fd after n c d e b a h m =
    rw (receive_fd-rights p s before fd after b a h m)
      ((main_send-Follows q made fd n c d e, refl), (main_receive-Follows q made fd n c d e, refl))

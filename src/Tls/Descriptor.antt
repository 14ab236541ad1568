-- ===== src/Tls/Descriptor.antt =====
-- `receive_fd` of migrate-tls/qemu-send.py and qemu-rec.py, which are the same, and the two scripts
-- as a whole: a descriptor comes in over a unix socket, and `main` goes on with it.
pub mod Laws
use migration_transport_hack.Base.{ℕ, Bool, true, false, Option, none, some, List, [], ◌∷◌}
use migration_transport_hack.Async.{
  Raised, exception, cancelled_error, Result, ok, err, None, Action, pure, modify, outside, ◌>>=◌,
  ◌>>◌, finally,
}
use migration_transport_hack.Tls.{Qemu, Session, opening, main_send, main_receive}

-- An item of ancillary data: of level `SOL_SOCKET` and type `SCM_RIGHTS` with the four bytes of a
-- descriptor, of this kind with other data, which `struct.unpack` refuses, or of another kind.
pub data Ancillary : Type 0 where
  rights : ℕ → Ancillary
  malformed : Ancillary
  other : Ancillary

pub record Sockets : Type 0 where
  pub file : Bool  -- whether something stands at /tmp/fd_socket
  pub sock : Bool  -- whether it is open
  pub conn : Bool

-- The loop over `ancdata`, left by the first `return`.
pub first_descriptor : List Ancillary → Result (Option ℕ)
first_descriptor [] = ok none
first_descriptor (rights fd ∷ rest) = ok (some fd)
first_descriptor (malformed ∷ rest) = err exception
first_descriptor (other ∷ rest) = first_descriptor rest

-- The answers of the sockets: `bind` and `listen`, `accept`, and `recvmsg`.
pub record Peer : Type 0 where
  pub binding : Result None
  pub accepting : Result None
  pub message : Result (List Ancillary)

-- The `try` with its `except Exception`, which prints it.
abbrev printed : Result (Option ℕ) → Result (Option ℕ)
printed (ok fd) = ok fd
printed (err exception) = ok none
printed (err cancelled_error) = err cancelled_error

abbrev received : Result (List Ancillary) → Result (Option ℕ)
received (ok ancdata) = printed (first_descriptor ancdata)
received (err e) = printed (err e)

-- The `finally`; the file is there, since `bind` has made it.
abbrev clean_up : Sockets → Sockets
clean_up s = record { file = false; sock = false; conn = false }

-- `bind` makes the file. Neither it nor `accept` stands in the `try`.
abbrev accept : Peer → Result None → Sockets → Result (Option ℕ) × Sockets
accept p (ok _) s = (received p.message, clean_up (record s { conn = true }))
accept p (err e) s = (err e, s)

abbrev bind : Peer → Result None → Sockets → Result (Option ℕ) × Sockets
bind p (ok _) s = accept p p.accepting (record s { file = true })
bind p (err e) s = (err e, s)

pub receive_fd : Peer → Sockets → Result (Option ℕ) × Sockets
receive_fd p s = bind p p.binding (record s { file = false; sock = true })

abbrev script : (Option ℕ → Action Session None) → Result (Option ℕ) → Result None × Session
script main (ok fd) = main fd opening
script main (err e) = (err e, opening)

-- qemu-send.py and qemu-rec.py. `made` is what `create_tcp_client` or `server` returns.
pub script_send : Qemu → Peer → Result (Option ℕ) → Sockets → (Result None × Session) × Sockets
script_send q p made s =
    let (fd, s') = receive_fd p s in (script (λ given. main_send q given made) fd, s')

pub script_receive : Qemu → Peer → Result (Option ℕ) → Sockets → (Result None × Session) × Sockets
script_receive q p made s =
    let (fd, s') = receive_fd p s in (script (λ given. main_receive q given made) fd, s')

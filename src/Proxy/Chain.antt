-- ===== src/Proxy/Chain.antt =====
-- The two TCP proxies in a row: `forward_data` of tcp-migration-client.py reads QEMU's unix socket
-- and writes to a TCP connection, and that of tcp-migration-server.py reads the connection and
-- writes to the other QEMU. TCP carries bytes, and may cut them into chunks in any way.
use mathlib.Core.List.{append_assoc}
use migration_transport_hack.Base.{
  length-append, ℕ, ◌≡◌, refl, sym, ap, ◌∙◌, List, [], ◌∷◌, ◌++◌, length, arith,
}
use migration_transport_hack.Histogram.{Histogram}
use migration_transport_hack.Forward.{Chunk, Turn, start, run, stopped, completed}
use migration_transport_hack.Forward.Order.{reads, in_hand}
use migration_transport_hack.Forward.Wakeup.{start-IsAwake}
use migration_transport_hack.Forward.Delivery.{IsRoomy, run-kept_eq}
use migration_transport_hack.Forward.Drain.{written-eq-reads}
use migration_transport_hack.Forward.Counts.{size, run_counts}

-- The bytes of a stream, however it is cut.
abbrev pub bytes : List Chunk → List ℕ
bytes [] = []
bytes (d ∷ ds) = d ++ bytes ds

bytes-append : (xs ys : List Chunk) → bytes (xs ++ ys) ≡ bytes xs ++ bytes ys
bytes-append [] ys = refl
bytes-append (d ∷ xs) ys =
    ap (λ b. d ++ b) (bytes-append xs ys) ∙ sym (append_assoc d (bytes xs) (bytes ys))

abbrev pub IsPrefix : List ℕ → List ℕ → Type 0
IsPrefix xs ys = (zs : List ℕ) × (xs ++ zs ≡ ys)

prefix_trans : (xs ys zs : List ℕ) → IsPrefix xs ys → IsPrefix ys zs → IsPrefix xs zs
prefix_trans xs ys zs (us, e) (vs, f) =
    (us ++ vs, sym (append_assoc xs us vs) ∙ ap (λ b. b ++ vs) e ∙ f)

-- At every moment of a run with room, what is written is the beginning of what has been read.
written-IsPrefix :
    (ts : List Turn) (h : Histogram)
    → IsRoomy ts (start h)
    → IsPrefix (bytes (run ts (start h)).written) (bytes (reads ts (start h)))
written-IsPrefix ts h roomy =
    let s = run ts (start h) in
    let rest : List Chunk = s.queue.queue ++ in_hand s.read_task in
    (
      bytes rest,
      sym (bytes-append s.written rest)
          ∙ ap bytes (run-kept_eq ts (start h) (start-IsAwake h) roomy),
    )

-- At every moment of two runs that have room in their queues throughout and lose no turn to a
-- cancelled read or a failed write, over a connection that has delivered a beginning of what was
-- written to it, the bytes that the far proxy has written to its QEMU are a beginning of those
-- that the near one has read from its own.
chain-IsPrefix :
    (near far : List Turn) (h g : Histogram)
    → IsRoomy near (start h)
    → IsRoomy far (start g)
    → IsPrefix (bytes (reads far (start g))) (bytes (run near (start h)).written)
    → IsPrefix (bytes (run far (start g)).written) (bytes (reads near (start h)))
chain-IsPrefix near far h g roomy_near roomy_far network =
    prefix_trans _ _ _ (written-IsPrefix far g roomy_far)
      (prefix_trans _ _ _ network (written-IsPrefix near h roomy_near))

size-bytes : (ds : List Chunk) → size ds ≡ length (bytes ds)
size-bytes [] = refl
size-bytes (d ∷ ds) = omega (arith, size-bytes ds, length-append {0} d (bytes ds))

-- After two runs that have room in their queues throughout and lose no turn to a cancelled read or
-- a failed write, once both write tasks have completed and the far proxy has read all that the near
-- one wrote, the far QEMU has got all the bytes that the near one sent, in order, and both proxies
-- report the same total, though their chunks may differ.
pub chain_delivers :
    (near far : List Turn) (h g : Histogram)
    → IsRoomy near (start h)
    → IsRoomy far (start g)
    → (run near (start h)).write_task ≡ stopped completed
    → (run far (start g)).write_task ≡ stopped completed
    → bytes (reads far (start g)) ≡ bytes (run near (start h)).written
    → (bytes (run far (start g)).written ≡ bytes (reads near (start h)))
      × ((run far (start g)).total_bytes ≡ (run near (start h)).total_bytes)
chain_delivers near far h g roomy_near roomy_far done_near done_far network =
    let sent = ap bytes (written-eq-reads near h roomy_near done_near) in
    let got = ap bytes (written-eq-reads far g roomy_far done_far) in
    (
      got ∙ network ∙ sent,
      (run_counts far g).0
          ∙ size-bytes (run far (start g)).written
          ∙ ap length (got ∙ network)
          ∙ sym (size-bytes (run near (start h)).written)
          ∙ sym (run_counts near h).0,
    )

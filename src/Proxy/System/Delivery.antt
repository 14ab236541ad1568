-- ===== src/Proxy/System/Delivery.antt =====
-- A stream of a migration through both proxies, each with all of its other connections.
use migration_transport_hack.Base.{◌≡◌, ℕ, some, List, [], true, arith}
use migration_transport_hack.Histogram.{Histogram}
use migration_transport_hack.Forward.{Forward, stopped, completed, start}
use migration_transport_hack.Forward as One
use migration_transport_hack.Forward.Order.{reads}
use migration_transport_hack.Forward.Delivery.{IsRoomy}
use migration_transport_hack.Forward.Shared.{share}
use migration_transport_hack.Proxy.System.{Side, System, Event, links, links_now, step, run, idle}
use migration_transport_hack.Proxy.System.Private.{turns_of, run-alone}
use migration_transport_hack.Proxy.Chain.{bytes, chain_delivers}

-- A forwarder of a proxy: its number and its side, and what happens to the proxy before its handler
-- links, and after that.
pub record Passage : Type 0 where
  pub number : ℕ
  pub side : Side
  pub before : List Event
  pub after : List Event

-- The proxy when the handler links.
abbrev pub reached : Passage → System
reached p = run p.before idle

abbrev final : Passage → System
final p = run p.after (step (links p.number) (reached p))

-- The forwarder after its own turns.
abbrev pub alone : Passage → Forward
alone p = One.run (turns_of p.number p.side p.after) (start [])

-- The bytes that it has read from its peer and those that it has written.
abbrev pub taken_in : Passage → List ℕ
taken_in p = bytes (reads (turns_of p.number p.side p.after) (start []))

-- Its own turns find room in its queue, with no cancelled read and no failed write.
abbrev pub IsUnhindered : Passage → Type 0
IsUnhindered p = IsRoomy (turns_of p.number p.side p.after) (start [])

-- The proxy has this forwarder at the end.
abbrev pub Has : Passage → Forward → Type 0
Has p f = (final p).forwards p.number p.side ≡ some f

-- A forwarder has just started where its handler links.
links-starts :
    (s : System) (i : ℕ) (side : Side)
    → links_now i s ≡ true
    → (step (links i) s).forwards i side ≡ some (start [])
unfolding step
links-starts s i side now = rw now (ground arith)

Has-alone :
    (p : Passage)
    → links_now p.number (reached p) ≡ true
    → (h : Histogram) × Has p (share h (alone p))
Has-alone p now =
    run-alone p.after (step (links p.number) (reached p)) p.number p.side (start []) []
      (links-starts (reached p) p.number p.side now)

-- Two proxies serve any number of connections from their start on; in each a handler links, and one
-- forwarder of it carries a stream, the far one reading what the near one writes. If the turns of
-- these two find room in their queues, with no cancelled read and no failed write, and both write
-- tasks have completed, then, whatever the other connections do meanwhile, the far forwarder has
-- written exactly the bytes that the near one has read, in order, and both count the same total.
pub proxies_deliver :
    (near far : Passage)
    → links_now near.number (reached near) ≡ true
    → links_now far.number (reached far) ≡ true
    → IsUnhindered near
    → IsUnhindered far
    → (alone near).write_task ≡ stopped completed
    → (alone far).write_task ≡ stopped completed
    → taken_in far ≡ bytes (alone near).written
    → (f : Forward) × (g : Forward) × Has near f
      × Has far g
      × (bytes g.written ≡ taken_in near)
      × (g.total_bytes ≡ f.total_bytes)
proxies_deliver near far now_near now_far roomy_near roomy_far done_near done_far network =
    let (h, here) = Has-alone near now_near in
    let (k, there) = Has-alone far now_far in
    let (same, total) =
      chain_delivers (turns_of near.number near.side near.after)
        (turns_of far.number far.side far.after) [] [] roomy_near roomy_far done_near done_far
        network in
    (share h (alone near), share k (alone far), here, there, same, total)

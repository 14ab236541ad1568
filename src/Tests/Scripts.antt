-- ===== src/Tests/Scripts.antt =====
-- The QMP scripts at chosen replies.
use migration_transport_hack.Base.{◌≡◌, refl, true, none, some, [], ◌∷◌}
use migration_transport_hack.Async.{Result, ok, err, exception, None}
use migration_transport_hack.Qmp.Monitor.{
  Reply, info, raises, Ending, over, Watch, monitor, ending_of, go_on,
}
use migration_transport_hack.Qmp.Monitor.Laws.{Watches, monitor-Watches}
use migration_transport_hack.Qmp.Session.{
  Qemu, Command, query_status, migrate_set_capabilities, returned, migrate_vm_tcp_forwarded,
}

abbrev half_way : Reply
half_way = info (record {
  status = some "active";
  ram = some (record { transferred = some 5; total = some 10 });
})

abbrev no_total : Reply
no_total =
    info (record {
      status = some "active";
      ram = some (record { transferred = some 5; total = none });
    })

abbrev done : Reply
done = info (record { status = some "completed"; ram = none })

abbrev unasked : Watch
unasked = record { sleeps = 0; progress = [] }

-- The reply without a total gives no line; the one after the end is not asked for.
monitor_result :
    monitor (half_way ∷ no_total ∷ done ∷ raises exception ∷ []) unasked
    ≡ (over Ending.completed, record { sleeps = 2; progress = (5, 10) ∷ [] })
unfolding monitor go_on ending_of
monitor_result = refl

monitor-Watches_example :
    Watches (half_way ∷ done ∷ []) unasked (monitor (half_way ∷ done ∷ []) unasked)
monitor-Watches_example = monitor-Watches (half_way ∷ done ∷ []) unasked

abbrev willing : Qemu
willing = record {
  connecting = ok tt;
  answers = λ c. ok tt;
  replies = half_way ∷ done ∷ [];
  disconnecting = ok tt;
}

-- One that knows no capabilities.
abbrev old_answer : Command → Result None
old_answer (migrate_set_capabilities name on) = err exception
old_answer c = ok tt

abbrev old : Qemu
old = record { connecting = ok tt; answers = old_answer; replies = []; disconnecting = ok tt }

-- The script stops at the capability and disconnects, and `migrate` is never sent.
old_result :
    ((migrate_vm_tcp_forwarded old none).0 ≡ returned)
    × ((migrate_vm_tcp_forwarded old none).1.issued
        ≡ query_status ∷ migrate_set_capabilities "multifd" true ∷ [])
    × ((migrate_vm_tcp_forwarded old none).1.disconnects ≡ 1)
unfolding migrate_vm_tcp_forwarded
old_result = (refl, refl, refl)

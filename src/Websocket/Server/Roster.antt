-- ===== src/Websocket/Server/Roster.antt =====
-- `active_connections` of migrate-websocket/websocket-migration-server.py under all the handlers
-- that run at once: each stores its entry when it starts and removes it in its `finally`, and other
-- handlers do so in between.
pub mod Laws
use migration_transport_hack.Base.{
  zero, suc, ℕ, String, ◌≡◌, refl, sym, ap, ◌∙◌, ◌⊎◌, inl, inr, Option, none, some, Bool, true,
  false, List, [], ◌∷◌, ◌==◌, if◌then◌else◌, arith, Bool-cases,
}
use migration_transport_hack.Dict.{
  Dict, lookup, insert, erase, contains, has, lookup-insert, lookup-erase,
}
use migration_transport_hack.Websocket.Server.{Name, client_cn}

-- A handler that has stored its entry and has not come to its `finally`.
pub record Handler : Type 0 where
  pub connection_id : ℕ
  pub subject : Option (List Name)  -- of its certificate

pub record Roster : Type 0 where
  pub active_connections : Dict (Option String)
  pub handlers : List Handler

abbrev pub idle : Roster
idle = record { active_connections = []; handlers = [] }

pub data Event : Type 0 where
  arrives : ℕ → Option (List Name) → Event  -- a client, with its `connection_id` and its certificate
  leaves : ℕ → Event  -- the handler at this place comes to its `finally`

-- `self.active_connections[connection_id] = …`
abbrev pub track : ℕ → Option (List Name) → Roster → Roster
track id subject s = record {
  active_connections = insert id (client_cn subject) s.active_connections;
  handlers = record { connection_id = id; subject = subject } ∷ s.handlers;
}

abbrev pub handler_at : ℕ → List Handler → Option Handler
handler_at n [] = none
handler_at zero (h ∷ hs) = some h
handler_at (suc n) (h ∷ hs) = handler_at n hs

abbrev pub without : ℕ → List Handler → List Handler
without n [] = []
without zero (h ∷ hs) = hs
without (suc n) (h ∷ hs) = h ∷ without n hs

-- `if connection_id in self.active_connections: del …`
abbrev pub remove : ℕ → Dict (Option String) → Dict (Option String)
remove id d = if contains id d then erase id d else d

abbrev pub untrack : ℕ → Option Handler → Roster → Roster
untrack n none s = s
untrack n (some h) s = record {
  active_connections = remove h.connection_id s.active_connections;
  handlers = without n s.handlers;
}

unfoldable pub step : Event → Roster → Roster
step (arrives id subject) s = track id subject s
step (leaves n) s = untrack n (handler_at n s.handlers) s

unfoldable pub run : List Event → Roster → Roster
run [] s = s
run (e ∷ es) s = run es (step e s)

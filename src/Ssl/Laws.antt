-- ===== src/Ssl/Laws.antt =====
-- Whom the TLS contexts admit, and that the certificate generator makes the files they load.
use migration_transport_hack.Base.{
  ◌≡◌, ◌≢◌, refl, String, Option, none, some, Bool, true, false, ◌&&◌, [], ◌∷◌, arith, ℕ,
}
use migration_transport_hack.Certificates.{
  ca_pem, server_cert_pem, server_key_pem, client_cert_pem, client_key_pem, Entry, Directory,
  is_there, World, done, owner_only, world_readable, generate_certificates,
}
use migration_transport_hack.Certificates.Steps.{IsDocumented}
use migration_transport_hack.Certificates.Laws.{mode_at, IsSecured, generate_certificates-IsSecured}
use migration_transport_hack.Ssl.{
  Purpose, server_auth, client_auth, Context, made, raised, no_such_file, Library, Authority,
  system, loaded, stranger, Presented, admits, tcp_receiver_context, websocket_receiver_context,
  server_context, client_context, upgrade_sender,
}

-- The certificates of the loaded authority.
abbrev pub is_own : Authority → Bool
is_own loaded = true
is_own system = false
is_own stranger = false

-- Those of an authority of the system too.
abbrev pub is_known : Authority → Bool
is_known loaded = true
is_known system = true
is_known stranger = false

-- A certificate is presented, it is one of these, in date, and its extended key usage, if it has
-- one, allows it to authenticate an end of this kind.
abbrev pub presents : (Authority → Bool) → Purpose → Option Presented → Bool
presents good server_auth none = false
presents good client_auth none = false
presents good server_auth (some p) = good p.signed_by && p.in_date && p.for_servers
presents good client_auth (some p) = good p.signed_by && p.in_date && p.for_clients

-- The context that the websocket server makes, if it makes one, admits exactly the clients that
-- present a certificate of the authority in `ca.pem`, in date and usable by a client.
pub server_context-admits :
    (lib : Library) (d : Directory) (c : Context) (p : Option Presented)
    → server_context lib d ≡ made c
    → admits c p ≡ presents is_own client_auth p
unfolding server_context
server_context-admits lib d c none e = ground arith
server_context-admits lib d c (some p) e = ground arith

-- So does that of the bandwidth receiver over TCP.
pub tcp_receiver_context-admits :
    (lib : Library) (d : Directory) (c : Context) (p : Option Presented)
    → tcp_receiver_context lib d ≡ made c
    → admits c p ≡ presents is_own client_auth p
unfolding tcp_receiver_context server_context
tcp_receiver_context-admits lib d c p e = server_context-admits lib d c p e

pub websocket_receiver_context-admits :
    (lib : Library) (d : Directory) (c : Context) (p : Option Presented)
    → websocket_receiver_context lib d ≡ made c
    → admits c p ≡ presents is_own client_auth p
unfolding websocket_receiver_context server_context
websocket_receiver_context-admits lib d c p e = server_context-admits lib d c p e

-- The context that the websocket client makes, if it makes one, admits exactly the servers that
-- present a certificate of the authority in `ca.pem` or of one that the system trusts, in date and
-- usable by a server, whichever host it names.
client_context-admits :
    (lib : Library) (d : Directory) (c : Context) (p : Option Presented)
    → client_context lib d ≡ made c
    → admits c p ≡ presents is_known server_auth p
unfolding client_context
client_context-admits lib d c none e = ground arith
client_context-admits lib d c (some p) e = ground arith

-- Of the two ends of the websocket proxies, the server admits exactly the clients that present a
-- certificate of the authority in `ca.pem`, in date and usable by a client. The client asks less: it
-- admits exactly the servers that present one of that authority or of any that the system trusts, in
-- date and usable by a server, whichever host it names.
pub contexts_admit :
    (lib : Library) (d : Directory) (server client : Context) (p : Option Presented)
    → server_context lib d ≡ made server
    → client_context lib d ≡ made client
    → (admits server p ≡ presents is_own client_auth p)
      × (admits client p ≡ presents is_known server_auth p)
contexts_admit lib d server client p e f =
    (server_context-admits lib d server p e, client_context-admits lib d client p f)

-- Where qemu-send.py upgrades its socket, its context admits every server, with any certificate.
upgrade_sender-admits :
    (wraps : Context → Bool) (c : Context) (p : Option Presented)
    → upgrade_sender wraps ≡ some c
    → admits c p ≡ true
unfolding upgrade_sender
upgrade_sender-admits wraps c p e = ground arith

heads :
    {A : Type 0} {x y z a b c : A}
    → (x ∷ y ∷ z ∷ []) ≡ (a ∷ b ∷ c ∷ [])
    → (x ≡ a) × (y ≡ b) × (z ≡ c)
heads e = ground (arith, e)

mode_at-is_there : (o : Option Entry) (m : ℕ) → mode_at o ≡ some m → is_there o ≡ true
mode_at-is_there none m e = cc
mode_at-is_there (some x) m e = refl

-- The files that the contexts load are there.
abbrev Serves : Directory → Type 0
Serves d =
    ((is_there (d server_key_pem) ≡ true) × (is_there (d client_key_pem) ≡ true))
    × (is_there (d ca_pem) ≡ true)
    × (is_there (d server_cert_pem) ≡ true)
    × (is_there (d client_cert_pem) ≡ true)

IsSecured-Serves : (d : Directory) → IsSecured d → Serves d
IsSecured-Serves d (keys, certs, gone) =
    let (_, k, l) = heads keys in
    let (a, b, c) = heads certs in
    (
      (
        mode_at-is_there (d server_key_pem) owner_only k,
        mode_at-is_there (d client_key_pem) owner_only l,
      ),
      mode_at-is_there (d ca_pem) world_readable a,
      mode_at-is_there (d server_cert_pem) world_readable b,
      mode_at-is_there (d client_cert_pem) world_readable c,
    )

contexts_served :
    (lib : Library) (d : Directory)
    → Serves d
    → (server_context lib d ≢ raised no_such_file) × (client_context lib d ≢ raised no_such_file)
unfolding server_context client_context
contexts_served lib d ((k, l), a, b, c) = (λ e. ground arith, λ e. ground arith)

-- After a run of the certificate generator that succeeds, with an `openssl` that behaves as
-- documented, neither the websocket server nor the client raises `FileNotFoundError` for the files
-- of that directory.
pub generated_serves :
    (w : World) (cn days : String) (d : Directory) (lib : Library)
    → IsDocumented w.openssl
    → (generate_certificates w cn days d).0 ≡ done 0
    → (server_context lib (generate_certificates w cn days d).1 ≢ raised no_such_file)
      × (client_context lib (generate_certificates w cn days d).1 ≢ raised no_such_file)
generated_serves w cn days d lib h e = contexts_served lib (generate_certificates w cn days d).1 (
    IsSecured-Serves (generate_certificates w cn days d).1
      (generate_certificates-IsSecured w cn days d h e))

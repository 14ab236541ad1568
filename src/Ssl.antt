-- ===== src/Ssl.antt =====
-- The TLS contexts: `create_ssl_context` of the websocket proxies (migrate-websocket) and of the
-- bandwidth tools (proxy-perf), and `upgrade_to_tls` of migrate-tls, with what they use of Python's
-- `ssl`. A context is a value, and each setting gives the next one or an exception.
pub mod Laws
use migration_transport_hack.Base.{
  Option, none, some, Bool, true, false, not, ◌&&◌, ◌||◌, List, [], ◌∷◌, if◌then◌else◌,
}
use migration_transport_hack.Certificates.{
  File, ca_pem, server_cert_pem, server_key_pem, client_cert_pem, client_key_pem, Entry, Directory,
  is_there,
}

pub data Purpose : Type 0 where
  server_auth : Purpose  -- for a client, which authenticates servers
  client_auth : Purpose

pub data VerifyMode : Type 0 where
  cert_none : VerifyMode
  cert_required : VerifyMode

-- Who has signed a certificate: one of the system's authorities, the authority of a loaded file, or
-- another.
pub data Authority : Type 0 where
  system : Authority
  loaded : Authority
  stranger : Authority

pub record Context : Type 0 where
  pub purpose : Purpose  -- whom it authenticates: servers, or clients
  pub verify_mode : VerifyMode
  pub check_hostname : Bool
  pub chain : Option (File × File)  -- the certificate and the key to present
  pub system_authorities : Bool  -- whether they are trusted
  pub authority_file : Option File
  pub ktls : Bool

pub data Exception : Type 0 where
  no_such_file : Exception
  ssl_error : Exception
  value_error : Exception

pub data Made : Type 0 where
  made : Context → Made
  raised : Exception → Made

infixl 5 ◌>>=◌
abbrev pub ◌>>=◌ : Made → (Context → Made) → Made
made c >>= k = k c
raised e >>= k = raised e

-- Which files OpenSSL reads: a certificate with its key, and an authority.
pub record Library : Type 0 where
  pub reads_chain : Option Entry → Option Entry → Bool
  pub reads_authority : Option Entry → Bool

abbrev fresh : Purpose → VerifyMode → Bool → Bool → Context
fresh purpose mode hostname authorities = record {
  purpose = purpose;
  verify_mode = mode;
  check_hostname = hostname;
  chain = none;
  system_authorities = authorities;
  authority_file = none;
  ktls = false;
}

-- Without a file of authorities, a context that verifies servers trusts the system's.
abbrev create_default_context : Purpose → Made
create_default_context server_auth = made (fresh server_auth cert_required true true)
create_default_context client_auth = made (fresh client_auth cert_none false false)

-- `SSLContext(PROTOCOL_TLS_SERVER)`
abbrev protocol_tls_server : Made
protocol_tls_server = made (fresh client_auth cert_none false false)

abbrev set_check_hostname : Bool → Context → Made
set_check_hostname false c = made (record c { check_hostname = false })
set_check_hostname true c = made (record c { check_hostname = true; verify_mode = cert_required })

-- The names can only be checked of certificates that are.
abbrev set_verify_mode : VerifyMode → Context → Made
set_verify_mode cert_required c = made (record c { verify_mode = cert_required })
set_verify_mode cert_none c =
    if c.check_hostname then raised value_error else made (record c { verify_mode = cert_none })

abbrev enable_ktls : Context → Made
enable_ktls c = made (record c { ktls = true })

abbrev load_cert_chain : Library → Directory → File → File → Context → Made
load_cert_chain lib d cert key c =
    if is_there (d cert) && is_there (d key)
    then (if lib.reads_chain (d cert) (d key)
        then made (record c { chain = some (cert, key) })
        else raised ssl_error)
    else raised no_such_file

abbrev load_verify_locations : Library → Directory → File → Context → Made
load_verify_locations lib d ca c =
    if is_there (d ca)
    then (if lib.reads_authority (d ca)
        then made (record c { authority_file = some ca })
        else raised ssl_error)
    else raised no_such_file

abbrev all_there : Directory → List File → Bool
all_there d [] = true
all_there d (f ∷ fs) = is_there (d f) && all_there d fs

-- `if not all(os.path.exists(f) ...): raise FileNotFoundError`
abbrev if_there : Directory → List File → Made → Made
if_there d fs m = if all_there d fs then m else raised no_such_file

abbrev server_side : Library → Directory → Made
server_side lib d = if_there d (server_cert_pem ∷ server_key_pem ∷ ca_pem ∷ []) (
    create_default_context client_auth
    >>= load_cert_chain lib d server_cert_pem server_key_pem
    >>= set_verify_mode cert_required
    >>= load_verify_locations lib d ca_pem)

abbrev client_side : Library → Directory → Made
client_side lib d = if_there d (client_cert_pem ∷ client_key_pem ∷ ca_pem ∷ []) (
    create_default_context server_auth
    >>= load_cert_chain lib d client_cert_pem client_key_pem
    >>= load_verify_locations lib d ca_pem
    >>= set_check_hostname false
    >>= set_verify_mode cert_required)

-- `create_ssl_context` of the websocket proxies.
unfoldable pub server_context : Library → Directory → Made
server_context lib d = server_side lib d

unfoldable pub client_context : Library → Directory → Made
client_context lib d = client_side lib d

-- `create_ssl_context` of the bandwidth tools, which reads the same files.
pub websocket_receiver_context : Library → Directory → Made
websocket_receiver_context lib d = server_side lib d

pub websocket_sender_context : Library → Directory → Made
websocket_sender_context lib d = client_side lib d

unfoldable pub tcp_receiver_context : Library → Directory → Made
tcp_receiver_context lib d = server_side lib d

pub tcp_sender_context : Library → Directory → Made
tcp_sender_context lib d = client_side lib d

-- `wrap_socket`, and the `except Exception` that yields `None`.
abbrev wrapped : (Context → Bool) → Made → Option Context
wrapped wraps (made c) = if wraps c then some c else none
wrapped wraps (raised e) = none

-- `upgrade_to_tls` of qemu-send.py
pub upgrade_sender : (Context → Bool) → Option Context
upgrade_sender wraps = wrapped wraps (
    create_default_context server_auth
    >>= set_check_hostname false
    >>= enable_ktls
    >>= set_verify_mode cert_none)

-- `upgrade_to_tls` of qemu-rec.py, with the files of /etc/pki/qemu
pub upgrade_receiver : Library → Directory → (Context → Bool) → Option Context
upgrade_receiver lib d wraps =
    wrapped wraps
      (protocol_tls_server >>= enable_ktls >>= load_cert_chain lib d server_cert_pem server_key_pem)

-- The certificate that the other end presents.
pub record Presented : Type 0 where
  pub signed_by : Authority
  pub names_host : Bool
  pub in_date : Bool
  pub for_servers : Bool  -- its extended key usage, if any, allows `serverAuth`
  pub for_clients : Bool  -- the same for `clientAuth`

abbrev is_given : Option File → Bool
is_given none = false
is_given (some f) = true

abbrev trusts : Context → Authority → Bool
trusts c system = c.system_authorities
trusts c loaded = is_given c.authority_file
trusts c stranger = false

-- A certificate that is verified must be in date and allow its use at the end that presents it.
abbrev pub usable : Purpose → Presented → Bool
usable server_auth p = p.in_date && p.for_servers
usable client_auth p = p.in_date && p.for_clients

abbrev accepts : Context → VerifyMode → Option Presented → Bool
accepts c cert_none p = true
accepts c cert_required none = false
accepts c cert_required (some p) =
    trusts c p.signed_by && usable c.purpose p && (not c.check_hostname || p.names_host)

-- Whether a handshake with the other end succeeds, as `ssl` documents it.
abbrev pub admits : Context → Option Presented → Bool
admits c p = accepts c c.verify_mode p

-- ===== src/Certificates.antt =====
-- migrate-websocket/generate_certificates.py: the steps that make the certificates, over the files
-- of the certificate directory. The program `openssl` is outside, and given as a function.
pub mod Steps
pub mod Laws
pub mod Progress
use Prim.Native.String
use migration_transport_hack.Base.{
  ◌++◌, map, ℕ, zero, suc, ◌==◌, if◌then◌else◌, String, Option, none, some, Bool, true, false, not,
  ◌&&◌, List, [], ◌∷◌,
}

pub data File : Type 0 where
  ca_key_pem : File
  ca_pem : File
  ca_srl : File  -- the serial numbers, which `-CAcreateserial` has `openssl` write
  server_key_pem : File
  server_csr : File
  server_extfile_cnf : File
  server_cert_pem : File
  client_key_pem : File
  client_csr : File
  client_extfile_cnf : File
  client_cert_pem : File

abbrev number : File → ℕ
number ca_key_pem = 0
number ca_pem = 1
number ca_srl = 2
number server_key_pem = 3
number server_csr = 4
number server_extfile_cnf = 5
number server_cert_pem = 6
number client_key_pem = 7
number client_csr = 8
number client_extfile_cnf = 9
number client_cert_pem = 10

abbrev pub same_file : File → File → Bool
same_file f g = number f == number g

pub record Entry : Type 0 where
  pub content : String
  pub mode : ℕ

-- The certificate directory: which files it has.
abbrev pub Directory : Type 0
Directory = File → Option Entry

abbrev pub with_file : File → Option Entry → Directory → Directory
with_file f e d g = if same_file f g then e else d g

abbrev pub is_there : Option Entry → Bool
is_there none = false
is_there (some e) = true

-- The command lines of `openssl`, with the options that vary.
pub data Command : Type 0 where
  version : Command
  genrsa : File → ℕ → Command  -- `-out` and the number of bits
  new_x509 : String → File → File → String → Command  -- `-days`, `-key`, `-out`, `-subj`
  new_request : String → File → File → Command  -- `-subj`, `-key`, `-out`
  -- `-days`, `-in`, `-CA`, `-CAkey`, `-out`, `-extfile`
  sign : String → File → File → File → File → File → Command
  verify : File → File → Command  -- `-CAfile` and the certificate

-- What starting the program yields: it is not installed, or it exits with a status.
pub data Answer : Type 0 where
  not_found : Answer
  exits : ℕ → Answer

abbrev pub Openssl : Type 0
Openssl = Command → Directory → Answer × Directory

pub data Failure : Type 0 where
  file_not_found : Failure
  os_error : Failure
  called_process_error : ℕ → Failure
  system_exit : ℕ → Failure

pub data Outcome (A : Type 0) : Type 0 where
  done : A → Outcome A
  failed : Failure → Outcome A

-- `subprocess.run`
abbrev pub checked : Bool → Answer → Outcome ℕ
checked check not_found = failed file_not_found
checked check (exits zero) = done 0
checked true (exits (suc n)) = failed (called_process_error (suc n))
checked false (exits (suc n)) = done (suc n)

abbrev pub exit_unless : Bool → Outcome ℕ → Outcome ℕ
exit_unless check (failed e) = failed e
exit_unless check (done n) = if not (n == 0) && check then failed (system_exit 1) else done n

unfoldable pub run_command : Openssl → Bool → Command → Directory → Outcome ℕ × Directory
run_command openssl check c d =
    let (a, d') = openssl c d in (exit_unless check (checked check a), d')

-- The steps of `generate_certificates`, which has no branches.
pub data Step : Type 0 where
  command : Command → Step
  write : File → String → Step
  remove : File → Step  -- if it exists
  chmod : File → ℕ → Step

-- What `openssl` does, whether `mkdir` and `chdir` succeed, and the mode of a file that `open`
-- creates.
pub record World : Type 0 where
  pub openssl : Openssl
  pub entered : Bool
  pub new_mode : ℕ

-- A file that exists keeps its mode when it is written.
abbrev mode_of : ℕ → Option Entry → ℕ
mode_of m none = m
mode_of m (some e) = e.mode

abbrev chmod_entry : File → ℕ → Option Entry → Directory → Outcome ℕ × Directory
chmod_entry f m none d = (failed file_not_found, d)
chmod_entry f m (some e) d = (done 0, with_file f (some (record e { mode = m })) d)

unfoldable pub perform : World → Step → Directory → Outcome ℕ × Directory
perform w (command c) d = run_command w.openssl true c d
perform w (write f t) d =
    (done 0, with_file f (some (record { content = t; mode = mode_of w.new_mode (d f) })) d)
perform w (remove f) d = (done 0, if is_there (d f) then with_file f none d else d)
perform w (chmod f m) d = chmod_entry f m (d f) d

abbrev pub go_on :
    Outcome ℕ × Directory → (Directory → Outcome ℕ × Directory) → Outcome ℕ × Directory
go_on (done _, d) rest = rest d
go_on (failed e, d) rest = (failed e, d)

-- The steps in order, up to the first that fails.
unfoldable pub carry_out : World → List Step → Directory → Outcome ℕ × Directory
carry_out w [] d = (done 0, d)
carry_out w (s ∷ ss) d = go_on (perform w s d) (carry_out w ss)

infixr 60 ◌&◌
abbrev ◌&◌ : String → String → String
s & t = String.◌++◌ s t

abbrev organisation : String → String
organisation name = "/C=US/ST=CA/L=San Francisco/O=Migration/CN=" & name

-- Points 1 to 10: the keys, the requests, and the certificates that the authority signs.
abbrev pub making : String → String → List Step
making cn days =
    command (genrsa ca_key_pem 4096)
    ∷ command (new_x509 days ca_key_pem ca_pem (organisation "Migration CA"))
    ∷ command (genrsa server_key_pem 4096)
    ∷ command (new_request (organisation cn) server_key_pem server_csr)
    ∷ write server_extfile_cnf (
        ("subjectAltName = DNS:" & cn & ",IP:127.0.0.1,IP:0.0.0.0\n")
        & "extendedKeyUsage = serverAuth\n")
    ∷ command (sign days server_csr ca_pem ca_key_pem server_cert_pem server_extfile_cnf)
    ∷ command (genrsa client_key_pem 4096)
    ∷ command (new_request (organisation "migration-client") client_key_pem client_csr)
    ∷ write client_extfile_cnf "extendedKeyUsage = clientAuth\n"
    ∷ command (sign days client_csr ca_pem ca_key_pem client_cert_pem client_extfile_cnf)
    ∷ []

abbrev pub temporary_files : List File
temporary_files = server_csr ∷ client_csr ∷ server_extfile_cnf ∷ client_extfile_cnf ∷ []

abbrev pub key_files : List File
key_files = ca_key_pem ∷ server_key_pem ∷ client_key_pem ∷ []

abbrev pub certificate_files : List File
certificate_files = ca_pem ∷ server_cert_pem ∷ client_cert_pem ∷ []

-- `0o600`: the owner only. `0o644`: others may read.
abbrev pub owner_only : ℕ
owner_only = 384

abbrev pub world_readable : ℕ
world_readable = 420

-- Points 11 to 13.
abbrev pub finishing : List Step
finishing =
    map remove temporary_files
    ++ map (λ f. chmod f owner_only) key_files
    ++ map (λ f. chmod f world_readable) certificate_files
    ++ command (verify ca_pem server_cert_pem) ∷ command (verify ca_pem client_cert_pem) ∷ []

unfoldable pub generate_certificates : World → String → String → Directory → Outcome ℕ × Directory
generate_certificates w cn days d =
    if w.entered then carry_out w (making cn days ++ finishing) d else (failed os_error, d)

-- The `except` of `main`, and what follows the `try`.
abbrev pub after_version : World → String → String → Outcome ℕ × Directory → Outcome ℕ × Directory
after_version w cn days (done _, d) = generate_certificates w cn days d
after_version w cn days (failed (called_process_error _), d) = (failed (system_exit 1), d)
after_version w cn days (failed file_not_found, d) = (failed (system_exit 1), d)
after_version w cn days (failed os_error, d) = (failed os_error, d)
after_version w cn days (failed (system_exit n), d) = (failed (system_exit n), d)

-- `main`, once the arguments are parsed.
unfoldable pub main : World → String → String → Directory → Outcome ℕ × Directory
main w cn days d = after_version w cn days (run_command w.openssl true version d)

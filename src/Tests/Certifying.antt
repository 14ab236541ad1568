-- ===== src/Tests/Certifying.antt =====
-- The certificate generator with a small `openssl`, and the TLS contexts that its files give.
use migration_transport_hack.Base.{◌≡◌, ◌≢◌, refl, Option, none, some, Bool, true, false, ◌||◌}
use migration_transport_hack.Certificates.{
  File, ca_pem, server_cert_pem, server_key_pem, client_cert_pem, client_key_pem, is_there,
  Directory, with_file, Command, sign, Answer, exits, Openssl, done, World, carry_out, perform,
  run_command, main, generate_certificates,
}
use migration_transport_hack.Certificates.Steps.{out, is_out, IsDocumented}
use migration_transport_hack.Certificates.Laws.{IsSecured}
use migration_transport_hack.Certificates.Progress.{IsWorking, main-IsSecured}
use migration_transport_hack.Ssl.{
  server_auth, client_auth, cert_required, Context, raised, no_such_file, Library, Presented,
  system, admits, server_context, client_context,
}
use migration_transport_hack.Ssl.Laws.{is_own, is_known, presents, contexts_admit, generated_serves}

abbrev written : Option File → Directory → Directory
written none d = d
written (some f) d = with_file f (some (record { content = "x"; mode = 420 })) d

abbrev small : Openssl
small c d = (exits 0, written (out c) d)

written_apart :
    (o : Option File) (d : Directory) (f : File) → is_out o f ≡ false → written o d f ≡ d f
written_apart none d f e = refl
written_apart (some g) d f e = rw e refl

written_there :
    (o : Option File) (d : Directory) (f : File)
    → is_out o f ≡ true
    → is_there (written o d f) ≡ true
written_there none d f e = cc
written_there (some g) d f e = rw e refl

or_false : (a b : Bool) → a || b ≡ false → b ≡ false
or_false true b e = cc
or_false false b e = e

small-IsDocumented : IsDocumented small
small-IsDocumented = record {
  leaves_alone = λ c d f e. written_apart (out c) d f (or_false _ _ e);
  makes = λ c d f e _. written_there (out c) d f e;
}

small-IsWorking : IsWorking small
small-IsWorking c d = refl

-- One that cannot sign.
abbrev refusal : Command → Answer
refusal (sign days csr ca ca_key cert extfile) = exits 1
refusal _ = exits 0

abbrev unsigned : Openssl
unsigned c d = (refusal c, written (out c) d)

abbrev world : Openssl → World
world openssl = record { openssl = openssl; entered = true; new_mode = 420 }

abbrev empty : Directory
empty f = none

main-IsSecured_example :
    ((main (world small) "localhost" "365" empty).0 ≡ done 0)
    × IsSecured (main (world small) "localhost" "365" empty).1
main-IsSecured_example =
    main-IsSecured (world small) "localhost" "365" empty small-IsDocumented small-IsWorking refl

-- OpenSSL reads what is there.
abbrev pub reader : Library
reader = record { reads_chain = λ cert key. true; reads_authority = λ ca. true }

generated_serves_example :
    let d = (generate_certificates (world small) "localhost" "365" empty).1 in
    (server_context reader d ≢ raised no_such_file)
    × (client_context reader d ≢ raised no_such_file)
unfolding generate_certificates carry_out perform run_command
generated_serves_example =
    generated_serves (world small) "localhost" "365" empty reader small-IsDocumented refl

abbrev pub full : Directory
full f = some (record { content = "x"; mode = 420 })

abbrev pub server_made : Context
server_made = record {
  purpose = client_auth;
  verify_mode = cert_required;
  check_hostname = false;
  chain = some (server_cert_pem, server_key_pem);
  system_authorities = false;
  authority_file = some ca_pem;
  ktls = false;
}

abbrev client_made : Context
client_made = record {
  purpose = server_auth;
  verify_mode = cert_required;
  check_hostname = false;
  chain = some (client_cert_pem, client_key_pem);
  system_authorities = true;
  authority_file = some ca_pem;
  ktls = false;
}

-- A certificate that another authority of the system has signed, for another host.
abbrev pub elsewhere : Option Presented
elsewhere = some (record {
  signed_by = system;
  names_host = false;
  in_date = true;
  for_servers = true;
  for_clients = false;
})

contexts_admit_example :
    (admits server_made elsewhere ≡ presents is_own client_auth elsewhere)
    × (admits client_made elsewhere ≡ presents is_known server_auth elsewhere)
unfolding server_context client_context
contexts_admit_example = contexts_admit reader full server_made client_made elsewhere refl refl

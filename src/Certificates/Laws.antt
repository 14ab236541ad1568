-- ===== src/Certificates/Laws.antt =====
-- What the certificate generator leaves when it succeeds.
use migration_transport_hack.Base.{
  if◌then◌else◌, ◌≡◌, ◌∙◌, sym, refl, ap, ◌++◌, map, replicate, ℕ, String, Option, none, some, Bool,
  true, false, List, [], ◌∷◌, arith,
}
use migration_transport_hack.Certificates.{
  File, ca_key_pem, ca_pem, server_key_pem, server_csr, server_extfile_cnf, server_cert_pem,
  client_key_pem, client_csr, client_extfile_cnf, client_cert_pem, Entry, Directory, Outcome, done,
  failed, Step, remove, chmod, World, perform, carry_out, making, finishing, temporary_files,
  key_files, certificate_files, owner_only, world_readable, generate_certificates, os_error,
}
use migration_transport_hack.Certificates.Steps.{IsDocumented, final, last_touch}

abbrev pub mode_at : Option Entry → Option ℕ
mode_at none = none
mode_at (some e) = some e.mode

-- The modes of files, `none` for one that is not there.
abbrev pub modes : Directory → List File → List (Option ℕ)
modes d fs = map (λ f. mode_at (d f)) fs

-- The owner alone reads the keys, everyone reads the certificates, and nothing else is left.
abbrev pub IsSecured : Directory → Type 0
IsSecured d =
    (modes d key_files ≡ replicate 3 (some owner_only))
    × (modes d certificate_files ≡ replicate 3 (some world_readable))
    × (modes d temporary_files ≡ replicate 4 none)

three : {A : Type 0} {x y z a : A} → x ≡ a → y ≡ a → z ≡ a → (x ∷ y ∷ z ∷ []) ≡ replicate 3 a
three p q r = cc

four :
    {A : Type 0} {x y z u a : A}
    → x ≡ a
    → y ≡ a
    → z ≡ a
    → u ≡ a
    → (x ∷ y ∷ z ∷ u ∷ []) ≡ replicate 4 a
four p q r s = cc

module _ (w : World) where
  perform-chmod :
      (f : File) (m n : ℕ) (d : Directory)
      → (perform w (chmod f m) d).0 ≡ done n
      → mode_at ((perform w (chmod f m) d).1 f) ≡ some m
  unfolding perform
  perform-chmod f m n d e = ground arith

  perform-remove : (f : File) (d : Directory) → mode_at ((perform w (remove f) d).1 f) ≡ none
  unfolding perform
  perform-remove f d = ground arith

module _ (w : World) (ss : List Step) (d : Directory) where
  moded :
      (f : File) (m : ℕ)
      → IsDocumented w.openssl
      → (carry_out w ss d).0 ≡ done 0
      → final ss f ≡ some (chmod f m)
      → mode_at ((carry_out w ss d).1 f) ≡ some m
  moded f m h e l =
      let (k, (n, t), same) = last_touch w ss (chmod f m) f d h l e in
      ap mode_at same ∙ perform-chmod w f m n k t

  removed :
      (f : File)
      → IsDocumented w.openssl
      → (carry_out w ss d).0 ≡ done 0
      → final ss f ≡ some (remove f)
      → mode_at ((carry_out w ss d).1 f) ≡ none
  removed f h e l =
      let (k, t, same) = last_touch w ss (remove f) f d h l e in
      ap mode_at same ∙ perform-remove w f k

carry_out-IsSecured :
    (w : World) (cn days : String) (d : Directory)
    → IsDocumented w.openssl
    → (carry_out w (making cn days ++ finishing) d).0 ≡ done 0
    → IsSecured (carry_out w (making cn days ++ finishing) d).1
carry_out-IsSecured w cn days d h e =
    let mode = moded w (making cn days ++ finishing) d in
    let gone = removed w (making cn days ++ finishing) d in
    (
      three (mode ca_key_pem owner_only h e refl) (mode server_key_pem owner_only h e refl)
          (mode client_key_pem owner_only h e refl),
      three (mode ca_pem world_readable h e refl) (mode server_cert_pem world_readable h e refl)
          (mode client_cert_pem world_readable h e refl),
      four (gone server_csr h e refl) (gone client_csr h e refl) (gone server_extfile_cnf h e refl)
          (gone client_extfile_cnf h e refl),
    )

taken :
    (b : Bool) (p : Outcome ℕ × Directory) (d : Directory)
    → (if b then p else (failed os_error, d)).0 ≡ done 0
    → (if b then p else (failed os_error, d)) ≡ p
taken true p d e = refl
taken false p d e = cc

generate_certificates-carry_out :
    (w : World) (cn days : String) (d : Directory)
    → (generate_certificates w cn days d).0 ≡ done 0
    → generate_certificates w cn days d ≡ carry_out w (making cn days ++ finishing) d
unfolding generate_certificates
generate_certificates-carry_out w cn days d e =
    taken w.entered (carry_out w (making cn days ++ finishing) d) d e

-- With an `openssl` that behaves as documented, a run that succeeds leaves the three keys readable
-- by their owner alone, the three certificates readable by all, and none of the requests and
-- extension files, whatever the directory held before.
pub generate_certificates-IsSecured :
    (w : World) (cn days : String) (d : Directory)
    → IsDocumented w.openssl
    → (generate_certificates w cn days d).0 ≡ done 0
    → IsSecured (generate_certificates w cn days d).1
generate_certificates-IsSecured w cn days d h e =
    let same = generate_certificates-carry_out w cn days d e in
    rw same (carry_out-IsSecured w cn days d h (sym (ap (λ x. x.0) same) ∙ e))

-- ===== src/Certificates/Progress.antt =====
-- When `openssl` works, no step of the certificate generator fails; when it does not, the steps
-- stop.
use migration_transport_hack.Base.{
  ◌≢◌, ◌⊎◌, if◌then◌else◌, inl, inr, ◌≡◌, ◌∙◌, sym, refl, ap, ◌++◌, ℕ, zero, suc, String, Bool,
  true, false, not, ◌&&◌, ◌||◌, List, [], ◌∷◌, arith,
}
use migration_transport_hack.Certificates.{
  File, same_file, Directory, is_there, Command, version, Answer, exits, Openssl, Failure, os_error,
  Outcome, done, failed, run_command, Step, command, write, remove, chmod, World, perform,
  carry_out, making, finishing, generate_certificates, main, after_version, system_exit,
  exit_unless, checked, not_found,
}
use migration_transport_hack.Certificates.Steps.{
  out, is_out, writes, IsDocumented, go_on-done, go_on-failed, Outcome-cases,
}
use migration_transport_hack.Certificates.Laws.{IsSecured, generate_certificates-IsSecured}

-- Every command exits with 0.
abbrev pub IsWorking : Openssl → Type 0
IsWorking openssl = (c : Command) (d : Directory) → (openssl c d).0 ≡ exits 0

-- What is known to be there after a step, from what is known before it.
abbrev known_after : Step → (File → Bool) → File → Bool
known_after (command c) k f = is_out (out c) f || (k f && not (writes c f))
known_after (write g t) k f = same_file g f || k f
known_after (remove g) k f = k f && not (same_file g f)
known_after (chmod g m) k f = k f

-- The modes are set of files that are known to be there.
abbrev is_ready : List Step → (File → Bool) → Bool
is_ready [] k = true
is_ready (chmod g m ∷ ss) k = k g && is_ready ss (known_after (chmod g m) k)
is_ready (s ∷ ss) k = is_ready ss (known_after s k)

abbrev Knows : (File → Bool) → Directory → Type 0
Knows k d = (f : File) → k f ≡ true → is_there (d f) ≡ true

perform-Knows :
    (w : World) (s : Step) (k : File → Bool) (d : Directory)
    → IsDocumented w.openssl
    → IsWorking w.openssl
    → Knows k d
    → Knows (known_after s k) (perform w s d).1
unfolding perform run_command
perform-Knows w (command c) k d h i kn f e =
    ground (arith, h.makes c d f, h.leaves_alone c d f, i c d, kn f)
perform-Knows w (write g t) k d h i kn f e = ground (arith, kn f)
perform-Knows w (remove g) k d h i kn f e = ground (arith, kn f)
perform-Knows w (chmod g m) k d h i kn f e = ground (arith, kn f)

perform_succeeds :
    (w : World) (s : Step) (k : File → Bool) (ss : List Step) (d : Directory)
    → IsWorking w.openssl
    → Knows k d
    → is_ready (s ∷ ss) k ≡ true
    → ((perform w s d).0 ≡ done 0) × (is_ready ss (known_after s k) ≡ true)
unfolding perform run_command
perform_succeeds w (command c) k ss d i kn e = (rw (i c d) refl, e)
perform_succeeds w (write g t) k ss d i kn e = (refl, e)
perform_succeeds w (remove g) k ss d i kn e = (refl, e)
perform_succeeds w (chmod g m) k ss d i kn e = ground (arith, kn g)

carry_out_succeeds :
    (w : World) (ss : List Step) (k : File → Bool) (d : Directory)
    → IsDocumented w.openssl
    → IsWorking w.openssl
    → Knows k d
    → is_ready ss k ≡ true
    → (carry_out w ss d).0 ≡ done 0
unfolding carry_out
carry_out_succeeds w [] k d h i kn e = refl
carry_out_succeeds w (s ∷ ss) k d h i kn e =
    let (t, u) = perform_succeeds w s k ss d i kn e in
    ap (λ x. x.0) (go_on-done (perform w s d) (carry_out w ss) 0 t)
    ∙ carry_out_succeeds w ss (known_after s k) (perform w s d).1 h i (perform-Knows w s k d h i kn)
        u

entered_done :
    (b : Bool) (p : Outcome ℕ × Directory) (d : Directory)
    → b ≡ true
    → p.0 ≡ done 0
    → (if b then p else (failed os_error, d)).0 ≡ done 0
entered_done true p d t e = e
entered_done false p d t e = cc

generate_certificates_succeeds :
    (w : World) (cn days : String) (d : Directory)
    → IsDocumented w.openssl
    → IsWorking w.openssl
    → w.entered ≡ true
    → (generate_certificates w cn days d).0 ≡ done 0
unfolding generate_certificates
generate_certificates_succeeds w cn days d h i t =
    entered_done w.entered (carry_out w (making cn days ++ finishing) d) d t
      (carry_out_succeeds w (making cn days ++ finishing) (λ _. false) d h i (λ f e. cc) refl)

after_version-done :
    (w : World) (cn days : String) (p : Outcome ℕ × Directory)
    → p.0 ≡ done 0
    → after_version w cn days p ≡ generate_certificates w cn days p.1
after_version-done w cn days (done n, d) e = refl
after_version-done w cn days (failed x, d) e = cc

main-generate_certificates :
    (w : World) (cn days : String) (d : Directory)
    → IsWorking w.openssl
    → main w cn days d ≡ generate_certificates w cn days (w.openssl version d).1
unfolding main run_command
main-generate_certificates w cn days d i =
    after_version-done w cn days (run_command w.openssl true version d) (rw (i version d) refl)

-- With an `openssl` that behaves as documented and exits with 0, and a directory that can be
-- entered, the script succeeds from any directory, and leaves the keys readable by their owner
-- alone, the certificates readable by all, and no temporary file.
pub main-IsSecured :
    (w : World) (cn days : String) (d : Directory)
    → IsDocumented w.openssl
    → IsWorking w.openssl
    → w.entered ≡ true
    → ((main w cn days d).0 ≡ done 0) × IsSecured (main w cn days d).1
main-IsSecured w cn days d h i t =
    let e = generate_certificates_succeeds w cn days (w.openssl version d).1 h i t in
    rw (main-generate_certificates w cn days d i)
      (e, generate_certificates-IsSecured w cn days (w.openssl version d).1 h e)

-- The steps before the one that fails have been carried out, and none after it.
abbrev IsStopped : World → List Step → Directory → Outcome ℕ × Directory → Type 0
IsStopped w ss d (r, d') =
    (before : List Step) × (s : Step) × (after : List Step) × (m : Directory) × (ss
      ≡ before ++ s ∷ after)
    × (carry_out w before d ≡ (done 0, m))
    × (perform w s m ≡ (r, d'))

carry_out-IsStopped :
    (w : World) (ss : List Step) (d : Directory) (e : Failure)
    → (carry_out w ss d).0 ≡ failed e
    → IsStopped w ss d (carry_out w ss d)
unfolding carry_out
carry_out-IsStopped w [] d e h = cc
carry_out-IsStopped w (s ∷ ss) d e h = elim (Outcome-cases (perform w s d).0) [
  | inl (n, t) ↦
      let same = go_on-done (perform w s d) (carry_out w ss) n t in
      let (b, c, a, m, p, q, r) =
        carry_out-IsStopped w ss (perform w s d).1 e (sym (ap (λ x. x.0) same) ∙ h) in
      (
        s ∷ b,
        c,
        a,
        m,
        ap (λ x. s ∷ x) p,
        go_on-done (perform w s d) (carry_out w b) n t ∙ q,
        r ∙ sym same,
      )
  | inr (x, t) ↦ ([], s, ss, d, refl, refl, sym (go_on-failed (perform w s d) (carry_out w ss) x t))
]

if_entered :
    (b : Bool) (w : World) (ss : List Step) (d : Directory) (e : Failure)
    → (if b then carry_out w ss d else (failed os_error, d)).0 ≡ failed e
    → ((b ≡ false)
        × ((if b then carry_out w ss d else (failed os_error, d)) ≡ (failed os_error, d)))
      ⊎ IsStopped w ss d (if b then carry_out w ss d else (failed os_error, d))
if_entered true w ss d e h = inr (carry_out-IsStopped w ss d e h)
if_entered false w ss d e h = inl (refl, refl)

-- A run of the generator that fails has entered no directory and changed nothing, or it has carried
-- out the steps before the one that fails and none after it, whatever `openssl` does.
generate_certificates-IsStopped :
    (w : World) (cn days : String) (d : Directory) (e : Failure)
    → (generate_certificates w cn days d).0 ≡ failed e
    → ((w.entered ≡ false) × (generate_certificates w cn days d ≡ (failed os_error, d)))
      ⊎ IsStopped w (making cn days ++ finishing) d (generate_certificates w cn days d)
unfolding generate_certificates
generate_certificates-IsStopped w cn days d e h =
    if_entered w.entered w (making cn days ++ finishing) d e h

after_version_failed :
    (w : World) (cn days : String) (a : Answer) (d : Directory)
    → a ≢ exits 0
    → after_version w cn days (exit_unless true (checked true a), d) ≡ (failed (system_exit 1), d)
after_version_failed w cn days not_found d h = refl
after_version_failed w cn days (exits zero) d h = absurd (h refl)
after_version_failed w cn days (exits (suc n)) d h = refl

-- Where `openssl version` cannot be started or exits with another status than 0, the script ends
-- with `sys.exit(1)`, having made nothing.
main_unavailable :
    (w : World) (cn days : String) (d : Directory)
    → (w.openssl version d).0 ≢ exits 0
    → main w cn days d ≡ (failed (system_exit 1), (w.openssl version d).1)
unfolding main run_command
main_unavailable w cn days d h =
    after_version_failed w cn days (w.openssl version d).0 (w.openssl version d).1 h

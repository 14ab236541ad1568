-- ===== src/Certificates/Steps.antt =====
-- What one step of the certificate generator does, and the last step that touches a file.
use migration_transport_hack.Base.{
  Option-cases, zero, ◌≡◌, ◌∙◌, sym, refl, suc, ◌⊎◌, inl, inr, ap, ℕ, Option, none, some, Bool,
  true, false, List, [], ◌∷◌, arith, ◌||◌,
}
use migration_transport_hack.Certificates.{
  File, ca_srl, same_file, Directory, is_there, Command, version, genrsa, new_x509, new_request,
  sign, verify, Answer, not_found, exits, Openssl, Failure, file_not_found, called_process_error,
  Outcome, done, failed, run_command, checked, exit_unless, Step, command, write, remove, chmod,
  World, perform, carry_out, go_on,
}

-- The file that a command is told to write.
abbrev pub out : Command → Option File
out version = none
out (genrsa f bits) = some f
out (new_x509 days key f name) = some f
out (new_request name key f) = some f
out (sign days csr ca ca_key f extfile) = some f
out (verify ca cert) = none

-- Whether it is one of the files that a command writes: `-out`, and the serial numbers.
abbrev pub is_out : Option File → File → Bool
is_out none f = false
is_out (some g) f = same_file g f

abbrev pub writes : Command → File → Bool
writes c f = same_file ca_srl f || is_out (out c) f

-- The documented behaviour of `openssl`: it leaves alone the files that it is not told to write, and
-- when it exits with 0 the file that it is told to write is there.
pub record IsDocumented (openssl : Openssl) : Type 0 where
  pub leaves_alone :
      (c : Command) (d : Directory) (f : File) → writes c f ≡ false → (openssl c d).1 f ≡ d f
  pub makes :
      (c : Command) (d : Directory) (f : File)
      → is_out (out c) f ≡ true
      → (openssl c d).0 ≡ exits 0
      → is_there ((openssl c d).1 f) ≡ true

checked_lem :
    (a : Answer)
    → (exit_unless true (checked true a) ≡ done 0)
      ⊎ ((exit_unless true (checked true a) ≡ failed file_not_found)
          ⊎ ((n : ℕ) × (exit_unless true (checked true a) ≡ failed (called_process_error (suc n)))))
checked_lem not_found = inr (inl refl)
checked_lem (exits zero) = inl refl
checked_lem (exits (suc n)) = inr (inr (n, refl))

-- `run_command` raises what `subprocess.run` raises, and never gets to its own `sys.exit(1)`: an
-- exit status other than 0 ends in `CalledProcessError`, and only 0 is returned.
pub run_command_lem :
    (openssl : Openssl) (c : Command) (d : Directory)
    → ((run_command openssl true c d).0 ≡ done 0)
      ⊎ (((run_command openssl true c d).0 ≡ failed file_not_found)
          ⊎ ((n : ℕ) × ((run_command openssl true c d).0 ≡ failed (called_process_error (suc n)))))
unfolding run_command
run_command_lem openssl c d = checked_lem (openssl c d).0

abbrev touches : Step → File → Bool
touches (command c) f = writes c f
touches (write g t) f = same_file g f
touches (remove g) f = same_file g f
touches (chmod g m) f = same_file g f

abbrev later : Option Step → Step → Bool → Option Step
later (some t) s b = some t
later none s true = some s
later none s false = none

-- The last of the steps that touches the file.
abbrev pub final : List Step → File → Option Step
final [] f = none
final (s ∷ ss) f = later (final ss f) s (touches s f)

later-none : (o : Option Step) (s : Step) (b : Bool) → later o s b ≡ none → (o ≡ none) × (b ≡ false)
later-none (some t) s b e = cc
later-none none s true e = cc
later-none none s false e = (refl, refl)

later-this : (o : Option Step) (b s : Step) (t : Bool) → o ≡ none → later o b t ≡ some s → b ≡ s
later-this (some c) b s t u l = cc
later-this none b s true u l = cc
later-this none b s false u l = cc

later-after :
    (o : Option Step) (b c s : Step) (t : Bool) → o ≡ some c → later o b t ≡ some s → o ≡ some s
later-after none b c s t u l = cc
later-after (some x) b c s t u l = l

pub Outcome-cases : (r : Outcome ℕ) → ((n : ℕ) × (r ≡ done n)) ⊎ ((e : Failure) × (r ≡ failed e))
Outcome-cases (done n) = inl (n, refl)
Outcome-cases (failed e) = inr (e, refl)

pub go_on-failed :
    (p : Outcome ℕ × Directory) (rest : Directory → Outcome ℕ × Directory) (e : Failure)
    → p.0 ≡ failed e
    → go_on p rest ≡ p
go_on-failed (done m, d) rest e h = cc
go_on-failed (failed x, d) rest e h = refl

go_on_apart :
    (p : Outcome ℕ × Directory) (rest : Directory → Outcome ℕ × Directory) (f : File)
    → (rest p.1).1 f ≡ p.1 f
    → (go_on p rest).1 f ≡ p.1 f
go_on_apart (done n, d) rest f e = e
go_on_apart (failed x, d) rest f e = refl

go_on_ended :
    (p : Outcome ℕ × Directory) (rest : Directory → Outcome ℕ × Directory)
    → (go_on p rest).0 ≡ done 0
    → (n : ℕ) × (p.0 ≡ done n)
go_on_ended (done n, d) rest e = (n, refl)
go_on_ended (failed x, d) rest e = cc

pub go_on-done :
    (p : Outcome ℕ × Directory) (rest : Directory → Outcome ℕ × Directory) (n : ℕ)
    → p.0 ≡ done n
    → go_on p rest ≡ rest p.1
go_on-done (done m, d) rest n e = refl
go_on-done (failed x, d) rest n e = cc

module _ (w : World) where
  perform_apart :
      (s : Step) (f : File) (d : Directory)
      → IsDocumented w.openssl
      → touches s f ≡ false
      → (perform w s d).1 f ≡ d f
  unfolding perform run_command
  perform_apart (command c) f d h e = h.leaves_alone c d f e
  perform_apart (write g t) f d h e = rw e refl
  perform_apart (remove g) f d h e = ground arith
  perform_apart (chmod g m) f d h e = ground arith

  carry_out_apart :
      (ss : List Step) (f : File) (d : Directory)
      → IsDocumented w.openssl
      → final ss f ≡ none
      → (carry_out w ss d).1 f ≡ d f
  unfolding carry_out
  carry_out_apart [] f d h e = refl
  carry_out_apart (s ∷ ss) f d h e =
      let (u, t) = later-none (final ss f) s (touches s f) e in
      go_on_apart (perform w s d) (carry_out w ss) f (carry_out_apart ss f (perform w s d).1 h u)
      ∙ perform_apart s f d h t

  -- The last step that touches a file settles it, if no step fails.
  pub last_touch :
      (ss : List Step) (s : Step) (f : File) (d : Directory)
      → IsDocumented w.openssl
      → final ss f ≡ some s
      → (carry_out w ss d).0 ≡ done 0
      → (m : Directory) × ((n : ℕ) × ((perform w s m).0 ≡ done n))
        × ((carry_out w ss d).1 f ≡ (perform w s m).1 f)
  unfolding carry_out
  last_touch [] s f d h l e = cc
  last_touch (b ∷ bs) s f d h l e =
      let (n, t) = go_on_ended (perform w b d) (carry_out w bs) e in
      let same = go_on-done (perform w b d) (carry_out w bs) n t in
      elim (Option-cases (final bs f)) [
        | inl u ↦
            let b≡s = later-this (final bs f) b s (touches b f) u l in
            (
              d,
              (n, ap (λ x. (perform w x d).0) (sym b≡s) ∙ t),
              go_on_apart (perform w b d) (carry_out w bs) f
                    (carry_out_apart bs f (perform w b d).1 h u)
                  ∙ ap (λ x. (perform w x d).1 f) b≡s,
            )
        | inr (c, u) ↦
            let ih =
              last_touch bs s f (perform w b d).1 h
                (later-after (final bs f) b c s (touches b f) u l) (sym (ap (λ x. x.0) same) ∙ e) in
            (ih.0, ih.1, ap (λ x. x.1 f) same ∙ ih.2)
      ]

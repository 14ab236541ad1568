-- ===== src/Websocket/Server/Roster/Laws.antt =====
-- `active_connections` against the handlers that run.
use text.Mathlib.Text.{◌==◌ as str_eq}
use migration_transport_hack.Base.{
  Bool-cases, ℕ, zero, suc, String, ◌≡◌, ◌≢◌, refl, ap, ◌∙◌, inl, inr, Option, none, some, List, [],
  ◌∷◌, ◌==◌, if◌then◌else◌, arith, Option-cases,
}
use migration_transport_hack.Dict.{Dict, insert, lookup, lookup-insert, lookup-erase}
use migration_transport_hack.Websocket.Server.{Name, common_name, client_cn_from, client_cn}
use migration_transport_hack.Websocket.Server.Roster.{
  Handler, Roster, Event, arrives, leaves, track, handler_at, without, remove, untrack, step, run,
}

abbrev or_else : Option String → Option String → Option String
or_else (some a) b = some a
or_else none b = b

-- The common name of a certificate, read off its parts: the first `commonName` of a part, and of the
-- parts the last that has one.
abbrev pub first_in : Name → Option String
first_in [] = none
first_in ((key, value) ∷ rest) = if str_eq key "commonName" then some value else first_in rest

abbrev pub last_in : List Name → Option String
last_in [] = none
last_in (item ∷ rest) = or_else (last_in rest) (first_in item)

abbrev pub cn_of : Option (List Name) → Option String
cn_of none = none
cn_of (some subject) = last_in subject

common_name-first_in :
    (item : Name) (found : Option String) → common_name item found ≡ or_else (first_in item) found
unfolding common_name
common_name-first_in [] found = refl
common_name-first_in ((key, value) ∷ rest) found = elim (Bool-cases (str_eq key "commonName")) [
  | inl e ↦ rw e refl
  | inr e ↦ rw e (common_name-first_in rest found)
]

or_else_assoc : (a b c : Option String) → or_else a (or_else b c) ≡ or_else (or_else a b) c
or_else_assoc none b c = refl
or_else_assoc (some x) b c = refl

client_cn_from-last_in :
    (subject : List Name) (found : Option String)
    → client_cn_from subject found ≡ or_else (last_in subject) found
unfolding client_cn_from
client_cn_from-last_in [] found = refl
client_cn_from-last_in (item ∷ rest) found =
    client_cn_from-last_in rest (common_name item found)
    ∙ ap (or_else (last_in rest)) (common_name-first_in item found)
    ∙ or_else_assoc (last_in rest) (first_in item) found

or_else-none : (a : Option String) → or_else a none ≡ a
or_else-none none = refl
or_else-none (some x) = refl

client_cn-cn_of : (subject : Option (List Name)) → client_cn subject ≡ cn_of subject
unfolding client_cn
client_cn-cn_of none = refl
client_cn-cn_of (some subject) =
    client_cn_from-last_in subject none ∙ or_else-none (last_in subject)

-- The name of the handler with this id that started last.
abbrev pub name_of : ℕ → List Handler → Option (Option String)
name_of k [] = none
name_of k (h ∷ hs) = if h.connection_id == k then some (cn_of h.subject) else name_of k hs

-- The handlers have different ids.
abbrev pub IsDistinct : List Handler → Type 0
IsDistinct [] = Unit
IsDistinct (h ∷ hs) = (name_of h.connection_id hs ≡ none) × IsDistinct hs

-- No client gets the id of a handler that runs.
abbrev pub IsFresh : List Event → Roster → Type 0
IsFresh [] s = Unit
IsFresh (arrives id subject ∷ es) s =
    (name_of id s.handlers ≡ none) × IsFresh es (step (arrives id subject) s)
IsFresh (leaves n ∷ es) s = IsFresh es (step (leaves n) s)

lookup-remove :
    (k j : ℕ) (d : Dict (Option String))
    → lookup j (remove k d) ≡ (if k == j then none else lookup j d)
lookup-remove k j d = elim (Option-cases (lookup k d)) [
  | inl e ↦ rw e (ground (arith, e))
  | inr (v, e) ↦ rw e (lookup-erase k j d)
]

name_of_head :
    (g : Handler) (hs : List Handler) → name_of g.connection_id (g ∷ hs) ≡ some (cn_of g.subject)
name_of_head g hs = ground arith

-- A handler that runs has a name under its id.
handler_at-name_of :
    (n : ℕ) (hs : List Handler) (h : Handler)
    → handler_at n hs ≡ some h
    → name_of h.connection_id hs ≢ none
handler_at-name_of n [] h e a = cc
handler_at-name_of zero (g ∷ hs) h e a =
    let same : h ≡ g = cc in
    let found : name_of h.connection_id (g ∷ hs) ≡ some (cn_of g.subject) =
      ap (λ x. name_of x.connection_id (g ∷ hs)) same ∙ name_of_head g hs in
    cc
handler_at-name_of (suc n) (g ∷ hs) h e a = ground (arith, handler_at-name_of n hs h e)

without-absent :
    (n k : ℕ) (hs : List Handler) → name_of k hs ≡ none → name_of k (without n hs) ≡ none
without-absent n k [] e = refl
without-absent zero k (h ∷ hs) e = ground arith
without-absent (suc n) k (h ∷ hs) e = ground (arith, without-absent n k hs)

without-IsDistinct : (n : ℕ) (hs : List Handler) → IsDistinct hs → IsDistinct (without n hs)
without-IsDistinct n [] d = tt
without-IsDistinct zero (h ∷ hs) d = d.1
without-IsDistinct (suc n) (h ∷ hs) d =
    (without-absent n h.connection_id hs d.0, without-IsDistinct n hs d.1)

without_head :
    (k : ℕ) (g : Handler) (hs : List Handler)
    → name_of g.connection_id hs ≡ none
    → name_of k hs ≡ (if g.connection_id == k then none else name_of k (g ∷ hs))
without_head k g hs d = ground arith

-- Without one of the handlers its id has no name, and the others keep theirs.
name_of-without :
    (n k : ℕ) (hs : List Handler) (h : Handler)
    → IsDistinct hs
    → handler_at n hs ≡ some h
    → name_of k (without n hs) ≡ (if h.connection_id == k then none else name_of k hs)
name_of-without n k [] h d e = cc
name_of-without zero k (g ∷ hs) h d e = let same : h ≡ g = cc in rw same (without_head k g hs d.0)
name_of-without (suc n) k (g ∷ hs) h d e =
    ground (arith, name_of-without n k hs h d.1 e, handler_at-name_of n hs h e, d.0)

-- The table tells exactly the handlers that run, each with the name in its certificate.
abbrev pub IsExact : Roster → Type 0
IsExact s = IsDistinct s.handlers × ((k : ℕ) → lookup k s.active_connections ≡ name_of k s.handlers)

track-IsExact :
    (id : ℕ) (subject : Option (List Name)) (s : Roster)
    → name_of id s.handlers ≡ none
    → IsExact s
    → IsExact (track id subject s)
track-IsExact id subject s new (d, same) =
    let own = client_cn-cn_of subject in
    (
      (new, d),
      λ k.
          ap (λ c. lookup k (insert id c s.active_connections)) own
          ∙ ground (arith, lookup-insert id k (cn_of subject) s.active_connections, same k),
    )

untrack-IsExact :
    (n : ℕ) (o : Option Handler) (s : Roster)
    → handler_at n s.handlers ≡ o
    → IsExact s
    → IsExact (untrack n o s)
untrack-IsExact n none s e x = x
untrack-IsExact n (some h) s e (d, same) = (
  without-IsDistinct n s.handlers d,
  λ k. ground (
    arith,
    lookup-remove h.connection_id k s.active_connections,
    name_of-without n k s.handlers h d e,
    same k,
  ),
)

-- As long as no client gets the `connection_id` of a handler that still runs, `active_connections`
-- tells, whatever the order in which handlers start and end, exactly the handlers that run, each
-- with the common name of its certificate: the first `commonName` in the last part of the subject
-- that has one, or none.
pub run-IsExact : (es : List Event) (s : Roster) → IsExact s → IsFresh es s → IsExact (run es s)
unfolding run step
run-IsExact [] s x fresh = x
run-IsExact (arrives id subject ∷ es) s x fresh =
    run-IsExact es (step (arrives id subject) s) (track-IsExact id subject s fresh.0 x) fresh.1
run-IsExact (leaves n ∷ es) s x fresh =
    run-IsExact es (step (leaves n) s) (untrack-IsExact n (handler_at n s.handlers) s refl x) fresh

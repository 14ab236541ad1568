-- ===== src/Histogram/Canonical.antt =====
-- What `print_histogram` prints depends on the counts alone, not on the order in which sizes came.
use migration_transport_hack.Base.{
  refl, ap, ◌∙◌, inr, inl, leb, sym, ◌≤◌, Bool-cases, ◌<◌, ◌≢◌, ℕ, ◌+◌, ◌≡◌, [], ◌∷◌, arith,
}
use migration_transport_hack.Histogram.{
  print_histogram, sorted_items, insert_sorted, Histogram, total_reads,
}
use migration_transport_hack.Histogram.Laws.{
  lookup, IsValid, Rises, sorted_items-Rises, lookup-sorted_items, total_reads-sorted_items,
}

-- No count is zero.
abbrev AllCount : Histogram → Type 0
AllCount [] = Unit
AllCount ((size, f) ∷ h) = (0 < f) × AllCount h

valid_AllCount : (h : Histogram) → IsValid h → AllCount h
valid_AllCount [] v = tt
valid_AllCount (e ∷ h) v = (v.0, valid_AllCount h v.2)

insert_sorted-AllCount :
    (e : ℕ × ℕ) (h : Histogram) → 0 < e.1 → AllCount h → AllCount (insert_sorted e h)
unfolding insert_sorted
insert_sorted-AllCount e [] p a = (p, tt)
insert_sorted-AllCount e (x ∷ h) p a = elim (Bool-cases (leb e.0 x.0)) [
  | inl before ↦ rw before (p, a)
  | inr after ↦ rw after (a.0, insert_sorted-AllCount e h p a.1)
]

sorted_items-AllCount : (h : Histogram) → AllCount h → AllCount (sorted_items h)
unfolding sorted_items
sorted_items-AllCount [] a = tt
sorted_items-AllCount (e ∷ h) a =
    insert_sorted-AllCount e (sorted_items h) a.0 (sorted_items-AllCount h a.1)

-- A size below a rising list is not in it.
Rises-above : (lo n : ℕ) (h : Histogram) → n < lo → Rises lo h → lookup n h ≡ 0
Rises-above lo n [] below up = refl
Rises-above lo n ((size, f) ∷ h) below up =
    ground (arith, Rises-above (size + 1) n h (omega (arith, up.0)) up.1)

lookup_head : (a : ℕ × ℕ) (g : Histogram) → lookup a.0 (a ∷ g) ≡ a.1
lookup_head a g = ground arith

lookup_tail : (a : ℕ × ℕ) (n : ℕ) (g : Histogram) → a.0 ≢ n → lookup n (a ∷ g) ≡ lookup n g
lookup_tail a n g ne = ground arith

-- The first size of a rising list is no greater than one that it counts.
head_below :
    (b : ℕ × ℕ) (h : Histogram) (n : ℕ) → Rises (b.0 + 1) h → 0 < lookup n (b ∷ h) → b.0 ≤ n
head_below b h n up p = elim (Bool-cases (leb b.0 n)) [
  | inl le ↦ ground arith
  | inr lt ↦
      let zero : lookup n (b ∷ h) ≡ 0 =
        Rises-above b.0 n (b ∷ h) (ground arith) (omega arith, up) in
      omega arith
]

module _ (a b : ℕ × ℕ) (g h : Histogram) (same : (n : ℕ) → lookup n (a ∷ g) ≡ lookup n (b ∷ h))
    (up_a : Rises (a.0 + 1) g) (up_b : Rises (b.0 + 1) h) (pos_a : 0 < a.1) (pos_b : 0 < b.1) where
  heads_meet : a.0 ≡ b.0
  heads_meet = omega (
    arith,
    head_below b h a.0 up_b (omega (arith, same a.0, lookup_head a g)),
    head_below a g b.0 up_a (omega (arith, same b.0, lookup_head b h)),
  )

  counts_meet : a.1 ≡ b.1
  counts_meet =
      sym (lookup_head a g) ∙ same a.0 ∙ ap (λ n. lookup n (b ∷ h)) heads_meet ∙ lookup_head b h

  tails_meet : (n : ℕ) → lookup n g ≡ lookup n h
  tails_meet n = elim (Bool-cases (leb n a.0)) [
    | inl le ↦
        Rises-above (a.0 + 1) n g (ground arith) up_a
        ∙ sym (Rises-above (b.0 + 1) n h (ground (arith, heads_meet)) up_b)
    | inr gt ↦
        sym (lookup_tail a n g (ground arith))
        ∙ same n
        ∙ lookup_tail b n h (ground (arith, heads_meet))
  ]

same_entry : (a b : ℕ × ℕ) → a.0 ≡ b.0 → a.1 ≡ b.1 → a ≡ b
same_entry (m, f) (n, g) size count = rw (size, count) refl

-- Two rising lists of items with the same counts are the same.
Rises-unique :
    (lo : ℕ) (g h : Histogram)
    → Rises lo g
    → Rises lo h
    → AllCount g
    → AllCount h
    → ((n : ℕ) → lookup n g ≡ lookup n h)
    → g ≡ h
Rises-unique lo [] [] u v p q same = refl
Rises-unique lo (a ∷ g) [] u v p q same = absurd (omega (arith, p.0, same a.0, lookup_head a g))
Rises-unique lo [] (b ∷ h) u v p q same = absurd (omega (arith, q.0, same b.0, lookup_head b h))
Rises-unique lo (a ∷ g) (b ∷ h) u v p q same =
    let size = heads_meet a b g h same u.1 v.1 p.0 q.0 in
    let count = counts_meet a b g h same u.1 v.1 p.0 q.0 in
    let rest =
      Rises-unique (a.0 + 1) g h u.1 (rw size v.1) p.1 q.1
        (tails_meet a b g h same u.1 v.1 p.0 q.0) in
    rw (same_entry a b size count, rest) refl

same_items :
    (g h : Histogram)
    → IsValid g
    → IsValid h
    → ((n : ℕ) → lookup n g ≡ lookup n h)
    → sorted_items g ≡ sorted_items h
same_items g h v w same =
    Rises-unique 0 (sorted_items g) (sorted_items h) (sorted_items-Rises g v)
      (sorted_items-Rises h w) (sorted_items-AllCount g (valid_AllCount g v))
      (sorted_items-AllCount h (valid_AllCount h w))
      (λ n. lookup-sorted_items n g v ∙ same n ∙ sym (lookup-sorted_items n h w))

same_total : (g h : Histogram) → sorted_items g ≡ sorted_items h → total_reads g ≡ total_reads h
same_total g h e = sym (total_reads-sorted_items g) ∙ ap total_reads e ∙ total_reads-sorted_items h

-- Two histograms with distinct sizes and positive counts that count every size alike are printed
-- alike, whatever the order of their entries.
pub print_histogram-same :
    (g h : Histogram)
    → IsValid g
    → IsValid h
    → ((n : ℕ) → lookup n g ≡ lookup n h)
    → print_histogram g ≡ print_histogram h
unfolding print_histogram
print_histogram-same [] [] v w same = refl
print_histogram-same (a ∷ g) [] v w same = absurd (omega (arith, v.0, same a.0, lookup_head a g))
print_histogram-same [] (b ∷ h) v w same = absurd (omega (arith, w.0, same b.0, lookup_head b h))
print_histogram-same (a ∷ g) (b ∷ h) v w same =
    let e = same_items (a ∷ g) (b ∷ h) v w same in rw (same_total (a ∷ g) (b ∷ h) e, e) refl

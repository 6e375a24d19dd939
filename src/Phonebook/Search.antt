-- ===== src/Phonebook/Search.antt =====
-- What `search_by_name` prints.
use eltex_school.Base.{
  ℕ, suc, zero, ◌+◌, ◌≡◌, ◌↔◌, ◌⊎◌, refl, true, false, List, some, [], ◌∷◌, arith, get_elem?, inl,
  inr, Bool-cases, not, ◌&&◌, Bool, subst, if◌then◌else◌,
}
use eltex_school.Text.{Text, str_eq, scan_word}
use eltex_school.Text.Scan.{str_eq_iff}
use eltex_school.Phonebook.{
  Abonent, Book, Output, row, is_empty, search_loop, search_by_name, Junk, field_or, or_not_found,
}

-- The line is among those printed.
abbrev pub Printed : Output → List Output → Type 0
Printed o [] = ⊥
Printed o (p ∷ ps) = (o ≡ p) ⊎ Printed o ps

-- Slot `k` holds an entry `e` of this name.
pub record Matches (w : Text) (es : List Abonent) (k : ℕ) (e : Abonent) : Type 0 where
  pub held : get_elem? es k ≡ some e
  pub taken : is_empty e ≡ false
  pub named : e.name ≡ w

search_loop_sound :
    (w : Text) (i : ℕ) (es : List Abonent) (k : ℕ) (e : Abonent)
    → Printed (row k e) (search_loop w i es)
    → (d : ℕ) × (k ≡ i + d) × Matches w es d e
unfolding search_loop
search_loop_sound w i [] k e h = absurd h
search_loop_sound w i (x ∷ es) k e h = elim (Bool-cases (not (is_empty x) && str_eq x.name w)) [
  | inl hit ↦ elim (rw hit at h) [
    | inl same ↦ (
      0,
      ground arith,
      record {
        held = ground arith;
        taken = ground arith;
        named = ground (arith, str_eq_iff x.name w);
      },
    )
    | inr later ↦ shift (search_loop_sound w (i + 1) es k e later)
  ]
  | inr miss ↦ shift (search_loop_sound w (i + 1) es k e (rw miss at h))
]
  where
    shift :
        (d : ℕ) × (k ≡ i + 1 + d) × Matches w es d e
        → (d : ℕ) × (k ≡ i + d) × Matches w (x ∷ es) d e
    shift (d, q, m) =
        (suc d, omega arith, record { held = m.held; taken = m.taken; named = m.named })

Printed-if :
    (o p : Output) (ps : List Output) (b : Bool)
    → Printed o ps
    → Printed o (if b then p ∷ ps else ps)
Printed-if o p ps true h = inr h
Printed-if o p ps false h = h

search_loop_complete :
    (w : Text) (i k d : ℕ) (es : List Abonent) (e : Abonent)
    → k ≡ i + d
    → Matches w es d e
    → Printed (row k e) (search_loop w i es)
unfolding search_loop
search_loop_complete w i k d [] e q m = ground (arith, m.held)
search_loop_complete w i k zero (x ∷ es) e q m =
    let same : x ≡ e = ground (arith, m.held) in
    let hit : (not (is_empty x) && str_eq x.name w) ≡ true =
      ground (arith, m.taken, m.named, str_eq_iff x.name w) in
    rw hit (inl (ground arith))
search_loop_complete w i k (suc d) (x ∷ es) e q m =
    let later =
      search_loop_complete w (i + 1) k d es e (omega arith)
        (record { held = m.held; taken = m.taken; named = m.named }) in
    Printed-if (row k e) (row i x) (search_loop w (i + 1) es) (not (is_empty x) && str_eq x.name w)
      later

Printed-or_not_found :
    (w : Text) (k : ℕ) (e : Abonent) (os : List Output)
    → Printed (row k e) (or_not_found w os) ↔ Printed (row k e) os
Printed-or_not_found w k e [] = (λ h. elim h [ inl q ↦ ground arith | inr q ↦ q ], λ h. absurd h)
Printed-or_not_found w k e (o ∷ os) = (λ h. h, λ h. h)

-- The word that a search looks for.
abbrev pub wanted : Junk → Text → Text
wanted j s = field_or j.search_name (scan_word 9 s).0

-- A search prints the line of a slot exactly if the slot holds an entry of the wanted name, and
-- changes nothing in the book.
pub search_rows :
    (j : Junk) (b : Book) (s : Text)
    → ((search_by_name j b s).0 ≡ b)
      × ((k : ℕ) (e : Abonent)
          → Printed (row k e) (search_by_name j b s).2 ↔ Matches (wanted j s) b.phonebook k e)
unfolding search_by_name
search_rows j b s = (refl, λ k e. (sound k e, complete k e))
  where
    sound :
        (k : ℕ) (e : Abonent)
        → Printed (row k e) (or_not_found (wanted j s) (search_loop (wanted j s) 0 b.phonebook))
        → Matches (wanted j s) b.phonebook k e
    sound k e h =
        let (d, q, m) =
          search_loop_sound (wanted j s) 0 b.phonebook k e ((Printed-or_not_found _ k e _).0 h) in
        let q' : d ≡ k = omega arith in subst (λ n. Matches (wanted j s) b.phonebook n e) q' m

    complete :
        (k : ℕ) (e : Abonent)
        → Matches (wanted j s) b.phonebook k e
        → Printed (row k e) (or_not_found (wanted j s) (search_loop (wanted j s) 0 b.phonebook))
    complete k e m =
        (Printed-or_not_found _ k e _).1
          (search_loop_complete (wanted j s) 0 k k b.phonebook e (omega arith) m)

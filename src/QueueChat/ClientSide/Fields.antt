-- ===== src/QueueChat/ClientSide/Fields.antt =====
-- The fields that the server reads from a request of the form `REG|…`, `MSG|…` or `QUIT|…`.
use eltex_school.Base.{
  ℕ, ◌≡◌, zero, suc, ◌+◌, ◌/◌, ◌%◌, ◌≤◌, ltb, Bool-cases, inl, inr, ap₂, ◌∙◌, ◌<◌, ◌||◌, leb,
  length, subst, refl, Bool, true, false, Option, none, some, [], ◌∷◌, ◌++◌, arith, ◌==◌, ap,
}
use mathlib.Core.List.{append-nil}
use eltex_school.Base.Int.{ℤ}
use eltex_school.Text.{Text, codes, str_eq, show_int, show_nat, digits_loop, scan_int}
use eltex_school.Text.Tokens.{Lacks}
use eltex_school.Text.Decimal.{scan_int-show_int}
use eltex_school.QueueChat.{
  Server, Junk, span, kept, after_bar, two_fields, number_and_text, handle, dispatch, message_from,
  quit_at, find_client_by_id, find_free_slot, register_at, int_or, guarded,
}

abbrev pub is_bar : ℕ → Bool
is_bar c = c == b'|'

abbrev pub is_newline : ℕ → Bool
is_newline c = c == b'\n'

pub span-append :
    (stops : ℕ → Bool) (s : Text) (c : ℕ) (t : Text)
    → Lacks stops s
    → stops c ≡ true
    → span stops (s ++ c ∷ t) ≡ (s, c ∷ t)
unfolding span
span-append stops [] c t h e = rw e
span-append stops (d ∷ s) c t h e = rw (h.0, span-append stops s c t h.1 e)

pub span-whole : (stops : ℕ → Bool) (s : Text) → Lacks stops s → span stops s ≡ (s, [])
unfolding span
span-whole stops [] h = refl
span-whole stops (d ∷ s) h = rw (h.0, span-whole stops s h.1)

-- Two fields that are not empty, the first without a bar and the second without a newline.
pub two_fields_lem :
    (c d : ℕ) (s t : Text) (old : Text × Text)
    → Lacks is_bar (c ∷ s)
    → Lacks is_newline (d ∷ t)
    → two_fields ((c ∷ s) ++ b'|' ∷ d ∷ t) old ≡ (c ∷ s, d ∷ t)
unfolding two_fields
two_fields_lem c d s t old h k =
    rw (span-append is_bar (c ∷ s) b'|' (d ∷ t) h refl, span-whole is_newline (d ∷ t) k)

-- A number, a bar and a text.
pub number_and_text_lem :
    (j : Junk) (n : ℤ) (d : ℕ) (t : Text)
    → Lacks is_newline (d ∷ t)
    → number_and_text j (show_int n ++ b'|' ∷ d ∷ t) ≡ (n, d ∷ t)
unfolding number_and_text
number_and_text_lem j n d t k =
    let read : Option ℤ × Text → ℤ × Text = λ p.
      (int_or j.number p.0, elim p.0 [ none ↦ j.msg | some m ↦ after_bar j.msg (b'0' ∷ []) p.1 ]) in
    ap read (scan_int-show_int n (b'|' ∷ d ∷ t) refl)
    ∙ ap {B = ℤ × Text} (λ (f : Text × Text). (n, kept j.msg f.0)) (span-whole is_newline (d ∷ t) k)

-- What `handle` does with a request of each kind.
pub handle_fields :
    (opened : Option ℕ) (j : Junk) (c d : ℕ) (cmd body : Text) (s : Server)
    → Lacks is_bar (c ∷ cmd)
    → Lacks is_newline (d ∷ body)
    → length (c ∷ cmd) < 10
    → handle opened j ((c ∷ cmd) ++ b'|' ∷ d ∷ body) s ≡ dispatch opened j (c ∷ cmd) (d ∷ body) s
unfolding handle
handle_fields opened j c d cmd body s h k short =
    let fits : leb 10 (length (c ∷ cmd)) ≡ false = ground (arith, short) in
    ap (λ (f : Text × Text). guarded (leb 10 (length f.0)) (dispatch opened j f.0 f.1 s))
      (two_fields_lem c d cmd body j.cmd_data h k)
    ∙ ap (λ b. guarded b (dispatch opened j (c ∷ cmd) (d ∷ body) s)) fits

pub handle_body :
    (opened : Option ℕ) (j : Junk) (c : ℕ) (cmd body : Text) (s : Server)
    → Lacks is_bar (c ∷ cmd)
    → Lacks is_newline body
    → 0 < length body
    → length (c ∷ cmd) < 10
    → handle opened j ((c ∷ cmd) ++ b'|' ∷ body) s ≡ dispatch opened j (c ∷ cmd) body s
handle_body opened j c cmd [] s h k p short = elim p [ ]
handle_body opened j c cmd (d ∷ body) s h k p short =
    handle_fields opened j c d cmd body s h k short

digits_loop-Lacks :
    (k n : ℕ) (acc : Text) → Lacks is_newline acc → Lacks is_newline (digits_loop k n acc)
unfolding digits_loop
digits_loop-Lacks zero n acc h = h
digits_loop-Lacks (suc k) n acc h = elim (Bool-cases (ltb n 10)) [
  | inl small ↦ rw small (ground arith, h)
  | inr large ↦ rw large (digits_loop-Lacks k (n / 10) ((48 + n % 10) ∷ acc) (ground arith, h))
]

digits_loop-length : (k n : ℕ) (acc : Text) → length acc ≤ length (digits_loop k n acc)
unfolding digits_loop
digits_loop-length zero n acc = omega arith
digits_loop-length (suc k) n acc =
    ground (arith, digits_loop-length k (n / 10) ((48 + n % 10) ∷ acc))

pub show_nat-Lacks : (n : ℕ) → Lacks is_newline (show_nat n)
unfolding show_nat
show_nat-Lacks n = digits_loop-Lacks (suc n) n [] tt

pub length-show_nat : (n : ℕ) → 0 < length (show_nat n)
unfolding show_nat digits_loop
length-show_nat n = ground (arith, digits_loop-length n (n / 10) ((48 + n % 10) ∷ []))

pub dispatch-message :
    (opened : Option ℕ) (j : Junk) (n : ℤ) (d : ℕ) (t : Text) (s : Server)
    → Lacks is_newline (d ∷ t)
    → dispatch opened j (codes "MSG") (show_int n ++ b'|' ∷ d ∷ t) s
      ≡ message_from n (d ∷ t) s (find_client_by_id n 0 s.clients)
unfolding dispatch str_eq
dispatch-message opened j n d t s k =
    ap (λ (m : ℤ × Text). message_from m.0 m.1 s (find_client_by_id m.0 0 s.clients))
      (number_and_text_lem j n d t k)

pub dispatch-quit :
    (opened : Option ℕ) (j : Junk) (n : ℤ) (s : Server)
    → dispatch opened j (codes "QUIT") (show_int n) s
      ≡ quit_at n s (find_client_by_id n 0 s.clients)
unfolding dispatch str_eq
dispatch-quit opened j n s =
    let whole : scan_int (show_int n) ≡ (some n, []) =
      subst (λ t. scan_int t ≡ (some n, [])) (append-nil (show_int n))
        (scan_int-show_int n [] tt) in
    ap
      (λ (p : Option ℤ × Text).
        quit_at (int_or j.number p.0) s (find_client_by_id (int_or j.number p.0) 0 s.clients))
      whole

pub dispatch-register :
    (queue : ℕ) (j : Junk) (c d slot : ℕ) (name queue_name : Text) (s : Server)
    → Lacks is_bar (c ∷ name)
    → Lacks is_newline (d ∷ queue_name)
    → length (c ∷ name) < 32
    → length (d ∷ queue_name) < 64
    → find_free_slot 0 s.clients ≡ some slot
    → dispatch (some queue) j (codes "REG") ((c ∷ name) ++ b'|' ∷ d ∷ queue_name) s
      ≡ register_at (some queue) (c ∷ name) (d ∷ queue_name) s (some slot)
unfolding dispatch str_eq
dispatch-register queue j c d slot name queue_name s h k short short' free =
    let fits : leb 32 (length (c ∷ name)) || leb 64 (length (d ∷ queue_name)) ≡ false =
      ground (arith, short, short') in
    ap
      (λ (f : Text × Text).
        guarded (leb 32 (length f.0) || leb 64 (length f.1))
          (register_at (some queue) f.0 f.1 s (find_free_slot 0 s.clients)))
      (two_fields_lem c d name queue_name j.name_queue h k)
    ∙ ap₂ (λ b o. guarded b (register_at (some queue) (c ∷ name) (d ∷ queue_name) s o)) fits free

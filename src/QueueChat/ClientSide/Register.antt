-- ===== src/QueueChat/ClientSide/Register.antt =====
-- Registration: from the name that the user types to the number that the server gives.
use eltex_school.Base.{
  ℕ, zero, suc, ◌≡◌, ◌≢◌, ◌<◌, ◌≤◌, ◌+◌, refl, ◌∙◌, ap, subst, true, false, Option, some, List, [],
  ◌∷◌, ◌++◌, ◌&&◌, ◌==◌, arith, length, set, Bool-cases, inl, inr, get_or-set,
}
use mathlib.Core.List.{append-nil}
use eltex_school.Base.Int.{ℤ, pos, eq_ℤ}
use eltex_school.Text.{
  Text, codes, show_int, show_nat, fgets, take_line, cut_at, scan_int, starts_with,
}
use eltex_school.Text.Decimal.{scan_int-show_int}
use eltex_school.QueueChat.{
  Client, no_client, Server, Sent, sent, Junk, handle, find_client_by_id, find_free_slot,
  register_at, int_or,
}
use eltex_school.QueueChat.Roster.{find_free_slot-some, at, IsServer}
use eltex_school.QueueChat.ClientSide.{
  Session, Sizes, receive, showing, read_name, nonempty, queue_name, reg_message,
}
use eltex_school.Text.Tokens.{Lacks, Lacks-append}
use eltex_school.QueueChat.ClientSide.Fields.{
  is_bar, is_newline, handle_body, show_nat-Lacks, dispatch-register,
}

cut_at-Lacks : (s : Text) → Lacks is_newline (cut_at b'\n' s)
unfolding cut_at
cut_at-Lacks [] = tt
cut_at-Lacks (d ∷ s) = elim (Bool-cases (d == b'\n')) [
  | inl e ↦ rw e tt
  | inr e ↦ rw e (e, cut_at-Lacks s)
]

cut_at-length : (s : Text) → length (cut_at b'\n' s) ≤ length s
unfolding cut_at
cut_at-length [] = omega arith
cut_at-length (d ∷ s) = ground (arith, cut_at-length s)

take_line-length : (n : ℕ) (s : Text) → length (take_line n s).0 ≤ n
unfolding take_line
take_line-length zero s = omega arith
take_line-length (suc n) [] = omega arith
take_line-length (suc n) (c ∷ s) = ground (arith, take_line-length n s)

cut_line-length : (n : ℕ) (s : Text) → length (cut_at b'\n' (take_line n s).0) ≤ n
cut_line-length n s = omega (arith, cut_at-length (take_line n s).0, take_line-length n s)

lt_32 : (m : ℕ) → m ≤ 31 → m < 32
lt_32 m h = omega arith

-- What `main` takes for a name.
pub record IsName (name : Text) : Type 0 where
  pub filled : 0 < length name
  pub fits : length name < 32
  pub plain : Lacks is_newline name

nonempty-some : (s name : Text) → nonempty s ≡ some name → (s ≡ name) × (0 < length name)
unfolding nonempty
nonempty-some [] name e = absurd (ground (arith, e))
nonempty-some (c ∷ s) name e =
    let same : c ∷ s ≡ name = ground (arith, e) in
    (same, subst (λ t. 0 < length t) same (omega arith))

read_name-IsName : (typed name : Text) → read_name typed ≡ some name → IsName name
unfolding read_name fgets
read_name-IsName [] name e = absurd (ground (arith, e))
read_name-IsName (c ∷ typed) name e =
    let line = (take_line 31 (c ∷ typed)).0 in
    let (same, filled) = nonempty-some (cut_at b'\n' line) name e in
    record {
      filled = filled;
      fits =
          subst (λ t. length t < 32) same
            (lt_32 (length (cut_at b'\n' line)) (cut_line-length 31 (c ∷ typed)));
      plain = subst (λ t. Lacks is_newline t) same (cut_at-Lacks line);
    }

-- A client that is put into a free slot with a number that no active one has is found by it.
find_client_by_id-set :
    (i d n : ℕ) (cs : List Client) (c : Client)
    → d < length cs
    → c.active ≡ true
    → c.id ≡ n
    → ((k : ℕ) → (at k cs).active ≡ true → (at k cs).id ≢ n)
    → find_client_by_id (pos n) i (set cs d c) ≡ some (i + d)
unfolding find_client_by_id
find_client_by_id-set i d n [] c h on e apart = elim h [ ]
find_client_by_id-set i zero n (x ∷ cs) c h on e apart = ground (arith, on, e)
find_client_by_id-set i (suc d) n (x ∷ cs) c h on e apart =
    let other : x.active && eq_ℤ (pos x.id) (pos n) ≡ false =
      elim (Bool-cases (x.active && (x.id == n))) [
        | inl both ↦ absurd (apart 0 (ground (arith, both)) (ground (arith, both)))
        | inr miss ↦ miss
      ] in
    rw other (
      find_client_by_id-set (i + 1) d n cs c (omega (arith, h)) on e (λ k. apart (suc k))
      ∙ ap some (omega arith))

receive-ok :
    (w : Sizes) (n : ℕ) (c : Session)
    → (receive w (codes "OK|" ++ show_int (pos n)) c).session.client_id ≡ pos n
unfolding receive starts_with showing
receive-ok w n c =
    ap (λ (p : Option ℤ × Text). int_or c.client_id p.0)
      (subst (λ t. scan_int t ≡ (some (pos n), [])) (append-nil (show_int (pos n)))
        (scan_int-show_int (pos n) [] tt))

queue_name-Lacks : (pid : ℕ) → Lacks is_newline (queue_name pid)
unfolding queue_name
queue_name-Lacks pid =
    Lacks-append is_newline (codes "/chat_client_") (show_nat pid)
      (
        refl,
        (
          refl,
          (
            refl,
            (refl, (refl, (refl, (refl, (refl, (refl, (refl, (refl, (refl, (refl, tt)))))))))),
          ),
        ),
      )
      (show_nat-Lacks pid)

-- A name that the user types, if it holds no bar, arrives: a server with a free slot that can open
-- the queue of the client puts the client there under this name and a number that finds it, and
-- first sends this number to the queue; when the client takes that message, it has the number.
pub registered :
    (typed name : Text) (pid queue slot : ℕ) (j : Junk) (s : Server) (w : Sizes) (c : Session)
    → IsServer s
    → read_name typed ≡ some name
    → Lacks is_bar name
    → length (queue_name pid) < 64
    → find_free_slot 0 s.clients ≡ some slot
    → (s' : Server) × (ok : Text) × (rest : List Sent) × (handle
          (some queue)
          j
          (reg_message name (queue_name pid))
          s
        ≡ some (s', sent (some queue) ok ∷ rest))
      × (find_client_by_id (pos s.next_id) 0 s'.clients ≡ some slot)
      × ((at slot s'.clients).name ≡ name)
      × ((receive w ok c).session.client_id ≡ pos s.next_id)
unfolding register_at reg_message queue_name
registered typed [] pid queue slot j s w c v read bars short free =
    absurd (omega (arith, (read_name-IsName typed [] read).filled))
registered typed (x ∷ name) pid queue slot j s w c v read bars short free =
    let g = read_name-IsName typed (x ∷ name) read in
    let (d, q, h, off) = find_free_slot-some 0 slot s.clients free in
    let within : slot < length s.clients = omega (arith, q, h) in
    let new : Client = record {
      name = x ∷ name;
      queue_name = queue_name pid;
      queue = some queue;
      active = true;
      id = s.next_id;
    } in
    (
      record { clients = set s.clients slot new; next_id = s.next_id + 1 },
      codes "OK|" ++ show_int (pos s.next_id),
      _,
      handle_body (some queue) j b'R' (codes "EG") ((x ∷ name) ++ b'|' ∷ queue_name pid) s
            (refl, (refl, (refl, tt)))
            (Lacks-append is_newline (x ∷ name) (b'|' ∷ queue_name pid) g.plain
              (refl, queue_name-Lacks pid))
            (omega arith) (omega arith)
          ∙ dispatch-register queue j x b'/' slot name (codes "chat_client_" ++ show_nat pid) s bars
              (queue_name-Lacks pid) g.fits short free,
      find_client_by_id-set 0 slot s.next_id s.clients new within refl refl
            (λ k on e. absurd (omega (arith, v.below k on, e)))
          ∙ ap some (omega arith),
      ap (λ (k : Client). k.name) (get_or-set s.clients slot new no_client within),
      receive-ok w s.next_id c,
    )

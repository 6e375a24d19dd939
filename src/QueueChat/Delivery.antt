-- ===== src/QueueChat/Delivery.antt =====
-- Who gets a message.
use eltex_school.Base.{
  ℕ, zero, suc, ◌≡◌, ◌≢◌, ◌↔◌, refl, sym, ap, subst, ◌⊎◌, true, Option, none, some, get_elem?, Bool,
  List, [], ◌∷◌, false, arith, Bool-cases, inl, inr, ◌&&◌, ◌||◌, not, if◌then◌else◌,
}
use eltex_school.Base.Int.{ℤ, pos, eq_ℤ}
use eltex_school.Text.{Text}
use eltex_school.QueueChat.{Client, Sent, sent, unlinked, send_to_all}

abbrev pub Holds : Sent → List Sent → Type 0
Holds x [] = x ≢ x
Holds x (y ∷ ys) = (x ≡ y) ⊎ Holds x ys

-- A client that a message is for.
pub record Recipient (sender_id : ℤ) (include_sender : Bool) (cs : List Client) (q : Option ℕ)
    : Type 0 where
  pub slot : ℕ
  pub client : Client
  pub held : get_elem? cs slot ≡ some client
  pub active : client.active ≡ true
  pub other : (include_sender || not (eq_ℤ (pos client.id) sender_id)) ≡ true
  pub reached : client.queue ≡ q

abbrev is_for : ℤ → Bool → Client → Bool
is_for sender_id include_sender c = c.active && (include_sender || not (eq_ℤ (pos c.id) sender_id))

abbrev queue_of : Sent → Option ℕ
queue_of (sent q t) = q
queue_of (unlinked t) = none

Recipient-cons :
    {sender_id : ℤ} {incl : Bool} {q : Option ℕ} (c : Client) (cs : List Client)
    → Recipient sender_id incl cs q
    → Recipient sender_id incl (c ∷ cs) q
Recipient-cons c cs r = record {
  slot = suc r.slot;
  client = r.client;
  held = r.held;
  active = r.active;
  other = r.other;
  reached = r.reached;
}

module _ (msg : Text) (sender_id : ℤ) (incl : Bool) (q : Option ℕ) where
  sound :
      (cs : List Client)
      → Holds (sent q msg) (send_to_all msg sender_id incl cs)
      → Recipient sender_id incl cs q
  unfolding send_to_all
  sound [] h = absurd (h refl)
  sound (c ∷ cs) h =
      let rest = send_to_all msg sender_id incl cs in
      elim (Bool-cases (is_for sender_id incl c)) [
        | inl hit ↦
            let h' =
              subst (λ b. Holds (sent q msg) (if b then sent c.queue msg ∷ rest else rest)) hit h in
            elim h' [
              | inl e ↦ record {
                slot = 0;
                client = c;
                held = refl;
                active = ground (arith, hit);
                other = ground (arith, hit);
                reached = ap queue_of (sym e);
              }
              | inr l ↦ Recipient-cons c cs (sound cs l)
            ]
        | inr miss ↦
            let h' =
              subst (λ b. Holds (sent q msg) (if b then sent c.queue msg ∷ rest else rest)) miss
                h in
            Recipient-cons c cs (sound cs h')
      ]

  complete :
      (cs : List Client) (k : ℕ) (c : Client)
      → get_elem? cs k ≡ some c
      → is_for sender_id incl c ≡ true
      → c.queue ≡ q
      → Holds (sent q msg) (send_to_all msg sender_id incl cs)
  unfolding send_to_all
  complete [] k c e h r = absurd (ground (arith, e))
  complete (x ∷ cs) zero c e h r =
      let same : x ≡ c = ground (arith, e) in
      let hit : is_for sender_id incl x ≡ true = ground (arith, same, h) in
      rw hit (inl (cc (same, r)))
  complete (x ∷ cs) (suc k) c e h r =
      let later = complete cs k c e h r in
      elim (Bool-cases (is_for sender_id incl x)) [
        | inl hit ↦ rw hit (inr later)
        | inr miss ↦ rw miss later
      ]

-- A message is sent to a queue exactly if it is the queue of an active client that it is for: any
-- but the sender, or any at all if the sender is included.
pub send_to_all_lem :
    (msg : Text) (sender_id : ℤ) (incl : Bool) (cs : List Client) (q : Option ℕ)
    → Holds (sent q msg) (send_to_all msg sender_id incl cs) ↔ Recipient sender_id incl cs q
send_to_all_lem msg sender_id incl cs q = (
  sound msg sender_id incl q cs,
  λ r.
      complete msg sender_id incl q cs r.slot r.client r.held (ground (arith, r.active, r.other))
        r.reached,
)

-- Messages with this text, and nothing else.
abbrev pub AllSay : Text → List Sent → Type 0
AllSay msg [] = Unit {0}
AllSay msg (sent q t ∷ xs) = (t ≡ msg) × AllSay msg xs
AllSay msg (unlinked t ∷ xs) = t ≢ t

send_to_all-AllSay :
    (msg : Text) (sender_id : ℤ) (incl : Bool) (cs : List Client)
    → AllSay msg (send_to_all msg sender_id incl cs)
unfolding send_to_all
send_to_all-AllSay msg sender_id incl [] = tt
send_to_all-AllSay msg sender_id incl (c ∷ cs) =
    let rest = send_to_all-AllSay msg sender_id incl cs in
    elim (Bool-cases (is_for sender_id incl c)) [
      | inl hit ↦ rw hit (refl, rest)
      | inr miss ↦ rw miss rest
    ]

-- A message with the text to the queue of each active client whose number is not the sender's, and
-- nothing else.
pub record Delivered (msg : Text) (sender_id : ℤ) (cs : List Client) (told : List Sent)
    : Type 0 where
  pub reached : (q : Option ℕ) → Holds (sent q msg) told ↔ Recipient sender_id false cs q
  pub only : AllSay msg told

pub send_to_all-Delivered :
    (msg : Text) (sender_id : ℤ) (cs : List Client)
    → Delivered msg sender_id cs (send_to_all msg sender_id false cs)
send_to_all-Delivered msg sender_id cs = record {
  reached = send_to_all_lem msg sender_id false cs;
  only = send_to_all-AllSay msg sender_id false cs;
}

-- ===== src/QueueChat/Roster.antt =====
-- lab13/chat_server.c: the slots and the numbers of the clients.
use eltex_school.Base.{
  ℕ, suc, ◌+◌, ◌<◌, ◌≡◌, refl, ◌∙◌, true, false, Option, none, some, List, [], ◌∷◌, ◌++◌, ◌&&◌,
  ◌||◌, arith, length, set, get_or, leb, ◌==◌, Bool, Bool-cases, Option-cases, inl, inr, length-set,
  get_or-set, get_or-set_ne, subst, if◌then◌else◌,
}
use eltex_school.Base.Int.{ℤ, pos, eq_ℤ}
use eltex_school.Text.{Text, codes, str_eq, scan_int}
use eltex_school.QueueChat.{
  max_clients, Client, no_client, Server, Result, Junk, guarded, send_to_all, find_free_slot,
  find_client_by_id, register_at, message_from, quit_at, dispatch, handle, two_fields,
  number_and_text, int_or,
}

abbrev pub at : ℕ → List Client → Client
at k cs = get_or cs k no_client

-- Ten slots, numbers below `next_id`, and no number twice among the active clients.
pub record IsServer (s : Server) : Type 0 where
  pub ten : length s.clients ≡ max_clients
  pub below : (k : ℕ) → (at k s.clients).active ≡ true → (at k s.clients).id < s.next_id
  pub distinct :
      (j k : ℕ)
      → (at j s.clients).active ≡ true
      → (at k s.clients).active ≡ true
      → (at j s.clients).id ≡ (at k s.clients).id
      → j ≡ k

at-set :
    (cs : List Client) (i k : ℕ) (c : Client)
    → i < length cs
    → at k (set cs i c) ≡ (if k == i then c else at k cs)
at-set cs i k c h = elim (Bool-cases (k == i)) [
  | inl e ↦
      let same : i ≡ k = ground (arith, e) in
      rw e (subst (λ j. at j (set cs i c) ≡ c) same (get_or-set cs i c no_client h))
  | inr e ↦ rw (e, get_or-set_ne cs i k c no_client (λ q. ground (arith, e, q))) refl
]

pub find_free_slot-some :
    (i k : ℕ) (cs : List Client)
    → find_free_slot i cs ≡ some k
    → (d : ℕ) × (k ≡ i + d) × (d < length cs) × ((at d cs).active ≡ false)
unfolding find_free_slot
find_free_slot-some i k [] e = absurd (ground (arith, e))
find_free_slot-some i k (c ∷ cs) e = elim (Bool-cases c.active) [
  | inl on ↦
      let later : find_free_slot (i + 1) cs ≡ some k = ground (arith, e, on) in
      let (d, q, h, off) = find_free_slot-some (i + 1) k cs later in
      (suc d, omega (arith, q), omega (arith, h), off)
  | inr off ↦ (0, ground (arith, e, off), omega arith, off)
]

pub find_client_by_id-some :
    (id : ℤ) (i k : ℕ) (cs : List Client)
    → find_client_by_id id i cs ≡ some k
    → (d : ℕ) × (k ≡ i + d) × (d < length cs)
unfolding find_client_by_id
find_client_by_id-some id i k [] e = absurd (ground (arith, e))
find_client_by_id-some id i k (c ∷ cs) e = elim (Bool-cases (c.active && eq_ℤ (pos c.id) id)) [
  | inr other ↦
      let later : find_client_by_id id (i + 1) cs ≡ some k = ground (arith, e, other) in
      let (d, q, h) = find_client_by_id-some id (i + 1) k cs later in
      (suc d, omega (arith, q), omega (arith, h))
  | inl hit ↦ (0, ground (arith, e, hit), omega arith)
]

-- A slot is given to a client with the next number, or to one that is not active.
set-IsServer :
    (s : Server) (i : ℕ) (c : Client)
    → IsServer s
    → i < length s.clients
    → c.id ≡ s.next_id
    → IsServer (record { clients = set s.clients i c; next_id = s.next_id + 1 })
set-IsServer s i c v h q = record {
  ten = length-set s.clients i c ∙ v.ten;
  below = λ k. rw (at-set s.clients i k c h) (elim (Bool-cases (k == i)) [
    | inl e ↦ rw e (λ on. omega (arith, q))
    | inr e ↦ rw e (λ on. omega (arith, v.below k on))
  ]);
  distinct = λ j k.
      rw (at-set s.clients i j c h, at-set s.clients i k c h)
        (elim (Bool-cases (j == i)) [
          | inl e ↦ elim (Bool-cases (k == i)) [
            | inl e' ↦ rw (e, e') (λ a b r. ground (arith, e, e'))
            | inr e' ↦ rw (e, e') (λ a b r. absurd (omega (arith, v.below k b, r, q)))
          ]
          | inr e ↦ elim (Bool-cases (k == i)) [
            | inl e' ↦ rw (e, e') (λ a b r. absurd (omega (arith, v.below j a, r, q)))
            | inr e' ↦ rw (e, e') (λ a b r. v.distinct j k a b r)
          ]
        ]);
}

quit-IsServer :
    (s : Server) (i : ℕ) (c : Client)
    → IsServer s
    → i < length s.clients
    → c.active ≡ false
    → IsServer (record s { clients = set s.clients i c })
quit-IsServer s i c v h q = record {
  ten = length-set s.clients i c ∙ v.ten;
  below = λ k. rw (at-set s.clients i k c h) (elim (Bool-cases (k == i)) [
    | inl e ↦ rw e (λ on. absurd (ground (arith, on, q)))
    | inr e ↦ rw e (v.below k)
  ]);
  distinct = λ j k.
      rw (at-set s.clients i j c h, at-set s.clients i k c h)
        (elim (Bool-cases (j == i)) [
          | inl e ↦ rw e (λ a. absurd (ground (arith, a, q)))
          | inr e ↦ elim (Bool-cases (k == i)) [
            | inl e' ↦ rw (e, e') (λ a b. absurd (ground (arith, b, q)))
            | inr e' ↦ rw (e, e') (v.distinct j k)
          ]
        ]);
}

abbrev pub ResultIsServer : Result → Type 0
ResultIsServer none = Unit {0}
ResultIsServer (some r) = IsServer r.0

guarded-ResultIsServer : (b : Bool) (r : Result) → ResultIsServer r → ResultIsServer (guarded b r)
guarded-ResultIsServer true r v = tt
guarded-ResultIsServer false r v = v

register_at-IsServer :
    (opened : Option ℕ) (name queue_name : Text) (s : Server)
    → IsServer s
    → ResultIsServer (register_at opened name queue_name s (find_free_slot 0 s.clients))
unfolding register_at
register_at-IsServer opened name queue_name s v = elim (Option-cases (find_free_slot 0 s.clients)) [
  | inl q ↦ rw q v
  | inr (slot, q) ↦
      let (d, e, h, off) = find_free_slot-some 0 slot s.clients q in
      let within : slot < length s.clients = omega (arith, e, h) in
      rw q (elim (Option-cases opened) [
        | inl o ↦ rw o (set-IsServer s slot _ v within refl)
        | inr (queue, o) ↦ rw o (set-IsServer s slot _ v within refl)
      ])
]

message_from-IsServer :
    (sender_id : ℤ) (msg : Text) (s : Server) (o : Option ℕ)
    → IsServer s
    → ResultIsServer (message_from sender_id msg s o)
unfolding message_from
message_from-IsServer sender_id msg s none v = v
message_from-IsServer sender_id msg s (some slot) v =
    let temp = codes "[" ++ (get_or s.clients slot no_client).name ++ codes "] " ++ msg in
    guarded-ResultIsServer (leb 512 (length temp))
      (some (s, send_to_all temp sender_id false s.clients)) v

quit_at-IsServer :
    (slot_id : ℤ) (s : Server)
    → IsServer s
    → ResultIsServer (quit_at slot_id s (find_client_by_id slot_id 0 s.clients))
unfolding quit_at
quit_at-IsServer slot_id s v = elim (Option-cases (find_client_by_id slot_id 0 s.clients)) [
  | inl q ↦ rw q v
  | inr (slot, q) ↦
      let (d, e, h) = find_client_by_id-some slot_id 0 slot s.clients q in
      rw q (quit-IsServer s slot _ v (omega (arith, e, h)) refl)
]

dispatch-IsServer :
    (opened : Option ℕ) (j : Junk) (cmd body : Text) (s : Server)
    → IsServer s
    → ResultIsServer (dispatch opened j cmd body s)
unfolding dispatch
dispatch-IsServer opened j cmd body s v = elim (Bool-cases (str_eq cmd (codes "REG"))) [
  | inl reg ↦
      let fields = two_fields body j.name_queue in
      rw reg (
        guarded-ResultIsServer (leb 32 (length fields.0) || leb 64 (length fields.1))
          (register_at opened fields.0 fields.1 s (find_free_slot 0 s.clients))
          (register_at-IsServer opened fields.0 fields.1 s v))
  | inr reg ↦ elim (Bool-cases (str_eq cmd (codes "MSG"))) [
    | inl msg ↦
        let m = number_and_text j body in
        rw (reg, msg) (message_from-IsServer m.0 m.1 s (find_client_by_id m.0 0 s.clients) v)
    | inr msg ↦ elim (Bool-cases (str_eq cmd (codes "QUIT"))) [
      | inl quit ↦ rw (reg, msg, quit) (quit_at-IsServer (int_or j.number (scan_int body).0) s v)
      | inr quit ↦ rw (reg, msg, quit) v
    ]
  ]
]

-- No request, whatever its bytes, makes a valid server lose count: unless it writes outside its
-- arrays, there are ten slots, and no two active clients have the same number.
pub handle-ResultIsServer :
    (opened : Option ℕ) (j : Junk) (buffer : Text) (s : Server)
    → IsServer s
    → ResultIsServer (handle opened j buffer s)
unfolding handle
handle-ResultIsServer opened j buffer s v =
    let fields = two_fields buffer j.cmd_data in
    guarded-ResultIsServer (leb 10 (length fields.0)) (dispatch opened j fields.0 fields.1 s)
      (dispatch-IsServer opened j fields.0 fields.1 s v)

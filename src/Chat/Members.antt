-- ===== src/Chat/Members.antt =====
-- Who is in the chat: the slots of the clients and `client_count`.
pub mod Run
use eltex_school.Base.{
  ℕ, zero, suc, ◌+◌, ◌%◌, ◌≤◌, ◌<◌, ◌≡◌, refl, ◌∙◌, Bool, true, false, ◌&&◌, Option, none, some,
  List, [], ◌∷◌, ◌++◌, arith, length, set, get_or, length-set, length-replicate, ◌==◌, Bool-cases,
  inl, inr, replicate, Option-cases, if◌then◌else◌,
}
use eltex_school.Base.Int.{ℤ, pos, negsuc, ltb_ℤ, eq_ℤ, ◌+ℤ◌, ◌-ℤ◌}
use eltex_school.Text.{Text, codes, str_eq}
use eltex_school.Text.Scan.{str_eq_iff}
use eltex_school.Chat.{
  max_messages, max_clients, Client, no_client, ChatShared, clipped, init, post, enter, register,
  register_at, free_slot, already_exists, say, leave, leave_at, find_active, Action, joins, says,
  leaves, act, run,
}

-- How many clients are active.
unfoldable pub active_count : List Client → ℕ
active_count [] = 0
active_count (c ∷ cs) = (if c.active then 1 else 0) + active_count cs

-- No two active clients have the same name.
unfoldable pub AllDistinct : List Client → Type 0
AllDistinct [] = Unit {0}
AllDistinct (c ∷ cs) = (c.active ≡ true → already_exists c.name cs ≡ false) × AllDistinct cs

pub record IsRoster (s : ChatShared) : Type 0 where
  pub slots : length s.clients ≡ max_clients
  pub counted : s.client_count ≡ pos (active_count s.clients)
  pub distinct : AllDistinct s.clients

pub active_count-le : (cs : List Client) → active_count cs ≤ length cs
unfolding active_count
active_count-le [] = omega arith
active_count-le (c ∷ cs) = ground (arith, active_count-le cs)

pub active_count-set :
    (cs : List Client) (i : ℕ) (v : Client)
    → i < length cs
    → active_count (set cs i v) + (if (get_or cs i no_client).active then 1 else 0)
      ≡ active_count cs + (if v.active then 1 else 0)
unfolding active_count
active_count-set [] i v h = elim h [ ]
active_count-set (c ∷ cs) zero v h = omega arith
active_count-set (c ∷ cs) (suc i) v h = omega (arith, active_count-set cs i v (omega (arith, h)))

-- What `free_slot` and `find_active` find, counted from the start of the list.
pub free_slot-some :
    (i k : ℕ) (cs : List Client)
    → free_slot i cs ≡ some k
    → (d : ℕ) × (k ≡ i + d) × (d < length cs) × ((get_or cs d no_client).active ≡ false)
unfolding free_slot
free_slot-some i k [] e = absurd (ground (arith, e))
free_slot-some i k (c ∷ cs) e = elim (Bool-cases c.active) [
  | inl on ↦
      let later : free_slot (i + 1) cs ≡ some k = ground (arith, e, on) in
      let (d, q, h, off) = free_slot-some (i + 1) k cs later in
      (suc d, omega (arith, q), omega (arith, h), off)
  | inr off ↦ (0, ground (arith, e, off), omega arith, off)
]

pub find_active-some :
    (client_id : ℤ) (i k : ℕ) (cs : List Client)
    → find_active client_id i cs ≡ some k
    → (d : ℕ) × (k ≡ i + d) × (d < length cs) × ((get_or cs d no_client).active ≡ true)
unfolding find_active
find_active-some client_id i k [] e = absurd (ground (arith, e))
find_active-some client_id i k (c ∷ cs) e = elim (Bool-cases (c.active && eq_ℤ c.id client_id)) [
  | inr other ↦
      let later : find_active client_id (i + 1) cs ≡ some k = ground (arith, e, other) in
      let (d, q, h, on) = find_active-some client_id (i + 1) k cs later in
      (suc d, omega (arith, q), omega (arith, h), on)
  | inl hit ↦ (0, ground (arith, e, hit), omega arith, ground (arith, hit))
]

already_exists-set :
    (w : Text) (cs : List Client) (i : ℕ) (v : Client)
    → already_exists w cs ≡ false
    → (v.active && str_eq v.name w) ≡ false
    → already_exists w (set cs i v) ≡ false
unfolding already_exists
already_exists-set w [] i v e h = refl
already_exists-set w (c ∷ cs) zero v e h = ground (arith, e, h)
already_exists-set w (c ∷ cs) (suc i) v e h =
    let later : already_exists w cs ≡ false = ground (arith, e) in
    ground (arith, e, already_exists-set w cs i v later h)

pub AllDistinct-enter :
    (cs : List Client) (i : ℕ) (v : Client)
    → AllDistinct cs
    → already_exists v.name cs ≡ false
    → AllDistinct (set cs i v)
unfolding AllDistinct already_exists
AllDistinct-enter [] i v a e = tt
AllDistinct-enter (c ∷ cs) zero v a e = (λ on. ground (arith, e), a.1)
AllDistinct-enter (c ∷ cs) (suc i) v a e =
    let later : already_exists v.name cs ≡ false = ground (arith, e) in
    (
      λ on.
          already_exists-set c.name cs i v (a.0 on)
            (ground (arith, e, on, str_eq_iff c.name v.name, str_eq_iff v.name c.name)),
      AllDistinct-enter cs i v a.1 later,
    )

pub AllDistinct-leave :
    (cs : List Client) (i : ℕ) (v : Client)
    → AllDistinct cs
    → v.active ≡ false
    → AllDistinct (set cs i v)
unfolding AllDistinct
AllDistinct-leave [] i v a e = tt
AllDistinct-leave (c ∷ cs) zero v a e = (λ on. absurd (ground (arith, e, on)), a.1)
AllDistinct-leave (c ∷ cs) (suc i) v a e = (
  λ on. already_exists-set c.name cs i v (a.0 on) (ground (arith, e)),
  AllDistinct-leave cs i v a.1 e,
)

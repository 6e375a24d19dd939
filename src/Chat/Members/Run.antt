-- ===== src/Chat/Members/Run.antt =====
-- What the clients do to the slots.
use eltex_school.Base.{ℕ, zero, suc, ◌≡◌, refl, arith, length-replicate, replicate}
use eltex_school.Text.{Text}
use eltex_school.Chat.{max_clients, no_client, init}
use eltex_school.Chat.Members.{active_count, AllDistinct, IsRoster}

idle : (n : ℕ) → (active_count (replicate n no_client) ≡ 0) × AllDistinct (replicate n no_client)
unfolding active_count AllDistinct
idle zero = (refl, tt)
idle (suc n) = (omega (arith, (idle n).0), (λ on. absurd (ground (arith, on)), (idle n).1))

pub init-IsRoster : IsRoster init
unfolding init
init-IsRoster = record {
  slots = length-replicate max_clients no_client;
  counted = rw ((idle max_clients).0) refl;
  distinct = (idle max_clients).1;
}

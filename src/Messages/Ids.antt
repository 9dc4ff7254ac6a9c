-- ===== src/Messages/Ids.antt =====
-- The ids of `user_id: number` in web/src/types/websocket.ts and web/src/types/lobby.ts. The server gives
-- users ids from 1 on, and bots -1, -2 and so on. The page compares ids, and has them as keys; a
-- natural number stands for each: of a user the id itself, of a bot one that no user has.
mod Tests
use dot_and_boxes.Prelude.{ℕ, ◌+◌, ◌<◌, ◌≡◌, ap, arith}
use dot_and_boxes.Prelude.Int.{ℤ, pos, negsuc, pos_part, neg_part}

-- Whole numbers are exact in JavaScript up to here.
abbrev pub id_bound : ℕ
id_bound = 9007199254740992

unfoldable pub id_of : ℤ → ℕ
id_of (pos n) = n
id_of (negsuc n) = id_bound + n

-- Different ids stand as different numbers.
id_of-injective :
    (i j : ℤ) → pos_part i < id_bound → pos_part j < id_bound → id_of i ≡ id_of j → i ≡ j
unfolding id_of
id_of-injective (pos m) (pos n) b c h = ap pos h
id_of-injective (pos m) (negsuc n) b c h = absurd (omega (arith, b, h))
id_of-injective (negsuc m) (pos n) b c h = absurd (omega (arith, c, h))
id_of-injective (negsuc m) (negsuc n) b c h = ap negsuc (omega (arith, h))

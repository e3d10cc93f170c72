-- ===== src/GroupBuy/Examples.antt =====
-- Concrete runs of repo/internal/service/groupbuy.go and repo/internal/repository/groupbuy.go.
use task.Base.{none, false, ℕ, ◌+◌, ◌≤◌, ◌≡◌, refl, inl, [], ◌∷◌, some, arith, fetch}
use task.Base.Int.{pos}
use task.Domain.Models.{User}
use task.Domain.GroupBuys.{GroupBuy, Participant, open_, is_running}
use task.GroupBuy.Table.{Db, join_read, join_write, decremented}
use task.GroupBuy.System.{
  Held, System, reads, writes, Reach, here, after, group_key, joined, committed, RowFair, IsFair,
}
use task.GroupBuy.Interleaving.{no_oversell}

abbrev fresh : GroupBuy
fresh = record {
  id = 1;
  resource_id = 2;
  organizer_id = some 3;
  title = "sail";
  description = "";
  threshold = 2;
  capacity = 3;
  remaining_slots = 3;
  starts_at = 100;
  ends_at = 200;
  deadline = 50;
  status = open_;
  version = 0;
  created_at = 0;
  updated_at = 0;
}

abbrev sailor : User
sailor = record {
  id = 7;
  username = "ann";
  password_hash = "";
  is_blacklisted = false;
  blacklist_reason = "";
  is_admin = false;
  must_rotate_password = false;
  anonymized_at = none;
  failed_attempts = 0;
  locked_until = none;
  last_login_at = none;
  created_at = 0;
  updated_at = 0;
}

abbrev rows : Db
rows = record {
  users = sailor ∷ [];
  resources = [];
  group_buys = fresh ∷ [];
  participants = [];
  notifications = [];
}

abbrev start : System
start = record { db = rows; held = []; queue = [] }

start-row : (id : ℕ) (g : GroupBuy) → fetch group_key id (fresh ∷ []) ≡ some g → RowFair start g
unfolding joined
start-row id g h = record {
  balanced = ground arith;
  within = ground arith;
  guarded = λ k m e. absurd m;
  unfailed = λ q m e. absurd m;
}

start-IsFair : IsFair start
start-IsFair = record { distinct = (refl, tt); queue_distinct = tt; rows = start-row }

abbrev waiting : Held
waiting = record { gb_id = 1; user_id = 7; qty = 2; version = 0 }

abbrev seven : Participant
seven = record { id = 9; group_buy_id = 1; user_id = 7; quantity = 2; joined_at = 10 }

abbrev rows_joined : Db
rows_joined = record rows { group_buys = decremented 10 2 fresh ∷ []; participants = seven ∷ [] }

abbrev reading : System
reading = record start { held = waiting ∷ [] }

abbrev written : System
written = record reading { db = rows_joined }

joins : Reach start written
unfolding join_read join_write is_running
joins = after (after here (reads 5 1 7 (pos 2) {g = fresh} refl)) (
    writes 9 10 10 waiting {g = decremented 10 2 fresh} {p = seven} {db' = rows_joined} (inl refl)
      refl)

no_oversell_example :
    (joined 1 (seven ∷ []) ≤ 3)
    × ((decremented 10 2 fresh).remaining_slots + committed (decremented 10 2 fresh) (seven ∷ [])
        ≡ 3)
unfolding decremented
no_oversell_example =
    no_oversell {s = start} {t = written} 1 (decremented 10 2 fresh) start-IsFair joins refl

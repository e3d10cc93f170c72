-- ===== src/Domain/GroupBuys.antt =====
-- Group buys: repo/internal/domain/groupbuy.go. The counts are columns that the database keeps from
-- going below 0.
use task.Base.{ℕ, ◌-◌, ◌≡◌, refl, Bool, true, false, not, String, str_eq, Option, ltb, leb, ◌==◌}
use task.Domain.Errors.{Result, ok, invalid_input, ◌>>◌, fail_if}

pub data GroupBuyStatus : Type 0 where
  open_ met expired canceled finalized failed : GroupBuyStatus

unfoldable pub is_terminal : GroupBuyStatus → Bool
is_terminal expired = true
is_terminal canceled = true
is_terminal finalized = true
is_terminal failed = true
is_terminal _ = false

-- `status IN ('open','met')`, and the negation of the first guard of `JoinAtomic`.
unfoldable pub is_running : GroupBuyStatus → Bool
is_running open_ = true
is_running met = true
is_running _ = false

-- A running group buy is exactly one that is not terminal.
running_or_terminal : (s : GroupBuyStatus) → is_running s ≡ not (is_terminal s)
unfolding is_running is_terminal
running_or_terminal open_ = refl
running_or_terminal _ = refl

pub record GroupBuy : Type 0 where
  pub id : ℕ
  pub resource_id : ℕ
  pub organizer_id : Option ℕ
  pub title : String
  pub description : String
  pub threshold : ℕ
  pub capacity : ℕ
  pub remaining_slots : ℕ
  pub starts_at : ℕ
  pub ends_at : ℕ
  pub deadline : ℕ
  pub status : GroupBuyStatus
  pub version : ℕ
  pub created_at : ℕ
  pub updated_at : ℕ

-- The slots that remain are never more than the capacity (proved of every reachable state), so the
-- truncated difference is the source's.
unfoldable pub confirmed : GroupBuy → ℕ
confirmed g = g.capacity - g.remaining_slots

unfoldable pub threshold_met : GroupBuy → Bool
unfolding confirmed
threshold_met g = leb g.threshold (confirmed g)

-- `(*GroupBuy).Validate`
unfoldable pub validate_group_buy : ℕ → GroupBuy → Result (Unit {0})
validate_group_buy now g = do
  fail_if (str_eq g.title "") invalid_input
  fail_if (g.threshold == 0) invalid_input
  fail_if (g.capacity == 0) invalid_input
  fail_if (ltb g.capacity g.threshold) invalid_input
  fail_if (not (ltb g.starts_at g.ends_at)) invalid_input
  fail_if (not (ltb now g.deadline)) invalid_input
  fail_if (ltb g.starts_at g.deadline) invalid_input
  ok tt

pub record Participant : Type 0 where
  pub id : ℕ
  pub group_buy_id : ℕ
  pub user_id : ℕ
  pub quantity : ℕ
  pub joined_at : ℕ

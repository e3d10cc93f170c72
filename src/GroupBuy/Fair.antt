-- ===== src/GroupBuy/Fair.antt =====
-- Every step of repo/internal/service/groupbuy.go and repo/internal/repository/groupbuy.go keeps the
-- seats of a group buy balanced.
use task.Base.{
  ℕ, ◌≤◌, ◌≡◌, refl, sym, inl, inr, [], ◌∷◌, ◌++◌, fetch, arith, Option-cases, fetch-key,
}
use task.Domain.Errors.{ok}
use task.Domain.GroupBuys.{GroupBuy, Participant}
use task.GroupBuy.Table.{Db, join_write, decremented}
use task.GroupBuy.System.{Held, In, System, group_key, RowFair, IsFair}
use task.GroupBuy.Change.{joined-append, change-IsFair}

decremented_key : (stamp qty : ℕ) (g : GroupBuy) → group_key (decremented stamp qty g) ≡ group_key g
unfolding decremented
decremented_key stamp qty g = refl

module _ (s : System) (stamp : ℕ) (h : Held) (m : In h s.held) (b : GroupBuy) (p : Participant)
    (db' : Db) where
  decremented_row :
      RowFair s b
      → b.id ≡ h.gb_id
      → b.version ≡ h.version
      → h.qty ≤ b.remaining_slots
      → p.group_buy_id ≡ h.gb_id
      → p.quantity ≡ h.qty
      → db'.participants ≡ s.db.participants ++ p ∷ []
      → RowFair (record s { db = db' }) (decremented stamp h.qty b)
  unfolding decremented
  decremented_row r same version room of size parts =
      let older = r.guarded h m (sym same) in
      let grown = joined-append b.id s.db.participants p in
      record {
        balanced = ground (arith, r.balanced, older, grown);
        within = ground (arith, r.balanced, older, grown);
        guarded = λ k i e. ground (arith, r.guarded k i e, older);
        unfailed = λ q i e. ground (arith, r.unfailed q i e);
      }

-- A write decrements the slots by what the new participant takes.
pub writes-IsFair :
    (s : System) (new_id now stamp : ℕ) (h : Held) {g : GroupBuy} {p : Participant} {db' : Db}
    → In h s.held
    → join_write new_id now stamp h.gb_id h.user_id h.qty h.version s.db ≡ ok (g, p, db')
    → IsFair s
    → IsFair (record s { db = db' })
unfolding join_write
writes-IsFair s new_id now stamp h {g} {p} {db'} m e v =
    elim (Option-cases (fetch group_key h.gb_id s.db.group_buys)) [
      | inl absent ↦ absurd (ground arith)
      | inr (b, found) ↦
          change-IsFair s h.gb_id (decremented stamp h.qty) (decremented_key stamp h.qty) db'
            s.queue (ground arith) (λ j ne. ground (arith, joined-append j s.db.participants p, ne))
            (λ q i. i) v.queue_distinct
            (λ k found'.
              decremented_row s stamp h m k p db' (v.rows h.gb_id k found')
                (fetch-key group_key h.gb_id s.db.group_buys {a = k} found') (ground arith)
                (ground arith) (ground arith) (ground arith) (ground arith))
            v
    ]

-- ===== src/GroupBuy/Late.antt =====
-- A join that has read its row before the sweep job closes the group buy, and writes after it:
-- `JoinAtomic` and `UpdateStatus` of repo/internal/repository/groupbuy.go.
use task.Domain.GroupBuys.{GroupBuy}

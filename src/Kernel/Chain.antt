-- ===== src/Kernel/Chain.antt =====
-- The audit calls of kernel/node_core.c and kernel/proposal.c keep the hash chain.
use vita_os.Prelude.{ℕ, some, List, ◌≡◌, length}
use vita_os.Text.{Bytes}
use vita_os.Audit.Rows.{EventRow}
use vita_os.Audit.Sqlite.{Sqlite}
use vita_os.Audit.State.{Call}
use vita_os.Audit.State.Chain.{IsChained}
use vita_os.Audit.State.Persist.{emit-IsChained, response-IsChained, peer-IsChained}
use vita_os.Kernel.{Kernel, emit, respond, upsert_node}

module _ (sql : Sqlite) (clock : ℕ → Call) (base : List EventRow)
    (frames : (i : ℕ) → length (clock i).stack ≡ 64) where
  -- the rows of the audit log are a hash chain behind those of `base`
  abbrev pub Keeps : Kernel sql.Db → Type 0
  Keeps k = IsChained sql base k.audit

  pub emit-Keeps :
      (event_type summary : Bytes) (k : Kernel sql.Db)
      → Keeps k
      → Keeps (emit sql clock event_type summary k)
  unfolding emit
  emit-Keeps event_type summary k inv =
      emit-IsChained sql base k.audit inv (some event_type) (some summary) (clock k.ticks)
        (frames k.ticks)

  pub respond-Keeps :
      (id answer : Bytes) (k : Kernel sql.Db) → Keeps k → Keeps (respond sql clock id answer k)
  unfolding respond
  respond-Keeps id answer k inv =
      response-IsChained sql base k.audit inv (some id) (some answer) (clock k.ticks)

  pub upsert_node-Keeps : (k : Kernel sql.Db) → Keeps k → Keeps (upsert_node sql clock k)
  unfolding upsert_node
  upsert_node-Keeps k inv = peer-IsChained sql base k.audit inv (some k.node.peer)

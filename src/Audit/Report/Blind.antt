-- ===== src/Audit/Report/Blind.antt =====
-- What the chain verification does not look at.
use vita_os.Prelude.{ℕ, ◌<◌, Option, ◌≡◌, refl, true, arith}
use vita_os.Text.{Bytes}
use vita_os.Audit.State.{AuditState}
use vita_os.Audit.Report.{audit_verify_current_chain}

-- Once the backend is ready and the buffer has a byte, `audit verify` reports success, with the
-- same text, whatever database stands in place of the one that is open and whatever the previous
-- hash is: the report does not depend on the rows that the database holds.
pub audit_verify_current_chain_blind :
    {Db : Type 0} (s : AuditState Db) (other : Option Db) (hash out : Bytes) (cap : ℕ)
    → s.persistent_ready ≡ true
    → 0 < cap
    → ((audit_verify_current_chain (record s { db = other; prev_hash = hash }) out cap).0 ≡ true)
      × (audit_verify_current_chain (record s { db = other; prev_hash = hash }) out cap
          ≡ audit_verify_current_chain s out cap)
unfolding audit_verify_current_chain
audit_verify_current_chain_blind s other hash out cap ready room = (ground arith, refl)

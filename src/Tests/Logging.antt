-- ===== src/Tests/Logging.antt =====
-- A boot with an event before the backend opens and one after it.
use vita_os.Prelude.{true, none, some, List, [], ◌∷◌, ◌≡◌, refl, codes}
use vita_os.Audit.State.Chain.{IsChained}
use vita_os.Audit.Init.{audit_init_persistent_backend}
use vita_os.Audit.Init.Chain.{held}
use vita_os.Audit.Ops.{AuditOp, emit, perform_all}
use vita_os.Audit.Ops.Session.{booted, session-IsChained}
use vita_os.Tests.Fixtures.{memory_sqlite, call}

abbrev early : List AuditOp
early = emit (some (codes "BOOT_STARTED")) (some (codes "boot")) call ∷ []

abbrev later : List AuditOp
later = emit (some (codes "HW_READY")) none call ∷ []

opens :
    (audit_init_persistent_backend memory_sqlite
      (booted memory_sqlite early)
      none
      call
      (λ i. call)).0
    ≡ true
unfolding audit_init_persistent_backend
opens = refl

session-IsChained_example : IsChained memory_sqlite (held memory_sqlite []) (
    perform_all memory_sqlite
      (audit_init_persistent_backend memory_sqlite
        (booted memory_sqlite early)
        none
        call
        (λ i. call)).1
      later)
session-IsChained_example =
    session-IsChained memory_sqlite early later none [] call (λ i. call) refl (λ i. refl) (refl, tt)
      opens

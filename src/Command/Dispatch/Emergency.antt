-- ===== src/Command/Dispatch/Emergency.antt =====
-- A storage command that fails is not taken, and so reaches the end of the dispatch.
use vita_os.Prelude.{Bool, false, List, ◌++◌, ◌≡◌, refl, ap, ◌∙◌, codes, if◌then◌else◌}
use vita_os.Text.{text_or, Bytes, str_eq, starts_with, skip_spaces}
use vita_os.Shell.StorageCommands.{storage_handle_command}
use vita_os.Shell.JournalCommands.{session_journal_handle_command}
use vita_os.Editor.Notes.{editor_handle_command}
use vita_os.Kernel.{Kernel, emit}
use vita_os.AiGateway.{ai_gateway_handle_command}
use vita_os.Command.{Platform, Here, Do, on_site, say_all, emit_event}
use vita_os.Command.Status.{show_emergency}
use vita_os.Command.Dispatch.{handle_exports, offer_modules, handle_guided, dispatch}
use vita_os.Command.Steps.{
  CommandResult, command_continue, one_of, Line, when◌run◌else◌, goes_on, offer, run_editor,
}

module _ (platform : Platform) where
  open platform use {sql, clock, terminal, host}

  -- the kernel behind a command
  abbrev after : CommandResult × Here platform → Kernel sql.Db
  after r = r.1.kernel

  offer-refused :
      (handler : Do platform Bool) (rest : Line platform) (m : Here platform)
      → (handler m).0 ≡ false
      → offer platform handler rest m ≡ rest (handler m).1
  unfolding offer
  offer-refused handler rest m refused =
      ap (λ (taken : Bool). choose taken (λ s. (command_continue, s)) rest (handler m).1) refused
    where
      choose : Bool → Line platform → Line platform → Line platform
      choose b f g = if b then f else g

  -- what is asked behind the storage
  behind_storage : Bytes → List Bytes → Line platform
  behind_storage cmd typed = offer platform (run_editor platform cmd typed) (
      offer platform (on_site platform (session_journal_handle_command terminal host cmd))
        (handle_exports platform cmd))

  reaches_storage :
      (path : Bytes) (typed : List Bytes) (m : Here platform)
      → let cmd = codes "storage read " ++ path in
        dispatch platform cmd typed m
        ≡ offer platform
            (on_site platform (storage_handle_command terminal host cmd))
            (behind_storage cmd typed)
            m
  unfolding dispatch one_of when◌run◌else◌ str_eq handle_guided starts_with offer_modules offer
      ai_gateway_handle_command skip_spaces behind_storage
  reaches_storage path typed m = refl

  reaches_emergency :
      (path : Bytes) (typed : List Bytes) (m : Here platform)
      → let cmd = codes "storage read " ++ path in
        (behind_storage cmd typed m).1.kernel
        ≡ emit sql clock (codes "EMERGENCY_FLOW_SHOWN") cmd m.kernel
  unfolding behind_storage offer run_editor editor_handle_command session_journal_handle_command
      str_eq starts_with handle_exports one_of when◌run◌else◌ on_site goes_on show_emergency say_all
      emit_event text_or
  reaches_emergency path typed m = refl

  -- A "storage read" that fails is taken for a description of an emergency: the command, whatever
  -- its path, is recorded in the audit log as the text of EMERGENCY_FLOW_SHOWN, and nothing else is.
  pub storage_read_emergency :
      (path : Bytes) (typed : List Bytes) (m : Here platform)
      → (storage_handle_command terminal host (codes "storage read " ++ path) m.site).0 ≡ false
      → (dispatch platform (codes "storage read " ++ path) typed m).1.kernel
        ≡ emit sql clock (codes "EMERGENCY_FLOW_SHOWN") (codes "storage read " ++ path) m.kernel
  unfolding on_site
  storage_read_emergency path typed m failed =
      let cmd = codes "storage read " ++ path in
      let storage = on_site platform (storage_handle_command terminal host cmd) in
      ap after (reaches_storage path typed m)
      ∙ ap after (offer-refused storage (behind_storage cmd typed) m failed)
      ∙ reaches_emergency path typed (storage m).1

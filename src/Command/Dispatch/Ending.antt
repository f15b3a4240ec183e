-- ===== src/Command/Dispatch/Ending.antt =====
-- Which lines end a command session.
use vita_os.Prelude.{
  Bool, true, false, List, [], ◌∷◌, ◌≡◌, refl, ap, ◌∙◌, codes, if_elim, if◌then◌else◌, ◌||◌, ◌⊎◌,
  inl, inr, ◌↔◌,
}
use vita_os.Text.{Bytes, str_eq, starts_with, skip_spaces}
use vita_os.Text.Laws.{str_eq_iff}
use vita_os.Shell.StorageCommands.{storage_handle_command}
use vita_os.Shell.JournalCommands.{session_journal_handle_command}
use vita_os.Editor.Notes.{editor_handle_command}
use vita_os.AiGateway.{ai_gateway_handle_command}
use vita_os.Command.{Platform, Here, Do, on_site}
use vita_os.Command.Dispatch.{
  handle_exports, offer_modules, handle_guided, dispatch, enter, recorded, command_handle_line,
}
use vita_os.Command.Steps.{
  command_continue, command_shutdown, one_of, Line, goes_on, audited, offer, shut_down, run_editor,
  when◌run◌else◌, command_of,
}

-- the two commands that end a session
pub Ends : Bytes → Type 0
Ends cmd = (cmd ≡ codes "shutdown") ⊎ (cmd ≡ codes "exit")

or_true : (a b : Bool) → (a || b) ≡ true → (a ≡ true) ⊎ (b ≡ true)
or_true true b h = inl refl
or_true false b h = inr h

one_of-Ends : (cmd : Bytes) → one_of cmd (codes "shutdown" ∷ codes "exit" ∷ []) ≡ true → Ends cmd
unfolding one_of Ends
one_of-Ends cmd h = elim (or_true (str_eq cmd (codes "shutdown")) _ h) [
  | inl e ↦ inl ((str_eq_iff cmd (codes "shutdown")).0 e)
  | inr rest ↦ elim (or_true (str_eq cmd (codes "exit")) false rest) [
    | inl e ↦ inr ((str_eq_iff cmd (codes "exit")).0 e)
    | inr off ↦ absurd (cc off)
  ]
]

module _ (platform : Platform) (cmd : Bytes) where
  -- a step that ends the session only for one of the two commands
  Shuts : Line platform → Type 0
  Shuts f = (m : Here platform) → (f m).0 ≡ command_shutdown → Ends cmd

  steps :
      (b : Bool) (step : Do platform Unit) (rest : Line platform)
      → Shuts rest
      → Shuts (when b run goes_on platform step else rest)
  unfolding when◌run◌else◌ goes_on Shuts
  steps true step rest h m e = cc
  steps false step rest h m e = h m e

  audits :
      (b : Bool) (event_type summary : Bytes) (step : Do platform Unit) (rest : Line platform)
      → Shuts rest
      → Shuts (when b run audited platform event_type summary step else rest)
  unfolding when◌run◌else◌ audited Shuts
  audits true event_type summary step rest h m e = cc
  audits false event_type summary step rest h m e = h m e

  offers :
      (handler : Do platform Bool) (rest : Line platform)
      → Shuts rest
      → Shuts (offer platform handler rest)
  unfolding offer Shuts
  offers handler rest h m =
      if_elim (λ (f : Line platform). (f (handler m).1).0 ≡ command_shutdown → Ends cmd)
        (handler m).0 (λ m'. (command_continue, m')) rest (λ _ e. cc) (λ _. h (handler m).1)

  last :
      (b : Bool) (step : Do platform Unit)
      → (b ≡ true → Ends cmd)
      → Shuts (when b run shut_down platform else goes_on platform step)
  unfolding when◌run◌else◌ goes_on Shuts
  last true step h m e = h refl
  last false step h m e = cc

  handle_exports-Shuts : Shuts (handle_exports platform cmd)
  unfolding handle_exports
  handle_exports-Shuts = steps _ _ _ (
      steps _ _ _ (
        steps _ _ _ (
          steps _ _ _ (
            steps _ _ _
              (steps _ _ _ (steps _ _ _ (audits _ _ _ _ _ (last _ _ (one_of-Ends cmd)))))))))

  offer_modules-Shuts : (typed : List Bytes) → Shuts (offer_modules platform cmd typed)
  unfolding offer_modules
  offer_modules-Shuts typed =
      offers _ _ (steps _ _ _ (offers _ _ (offers _ _ (offers _ _ handle_exports-Shuts))))

  handle_guided-Shuts : (typed : List Bytes) → Shuts (handle_guided platform cmd typed)
  unfolding handle_guided
  handle_guided-Shuts typed = audits _ _ _ _ _ (
      audits _ _ _ _ _ (
        steps _ _ _
          (audits _ _ _ _ _ (audits _ _ _ _ _ (steps _ _ _ (offer_modules-Shuts typed))))))

  dispatch-Shuts : (typed : List Bytes) → Shuts (dispatch platform cmd typed)
  unfolding dispatch
  dispatch-Shuts typed = audits _ _ _ _ _ (
      audits _ _ _ _ _ (
        audits _ _ _ _ _ (
          steps _ _ _
            (steps _ _ _ (steps _ _ _ (steps _ _ _ (steps _ _ _ (handle_guided-Shuts typed))))))))

module _ (platform : Platform) where
  shutdown-shuts :
      (typed : List Bytes) (m : Here platform)
      → (dispatch platform (codes "shutdown") typed m).0 ≡ command_shutdown
  unfolding dispatch one_of when◌run◌else◌ str_eq handle_guided starts_with offer_modules offer
      ai_gateway_handle_command skip_spaces storage_handle_command run_editor editor_handle_command
      session_journal_handle_command handle_exports shut_down on_site
  shutdown-shuts typed m = refl

  exit-shuts :
      (typed : List Bytes) (m : Here platform)
      → (dispatch platform (codes "exit") typed m).0 ≡ command_shutdown
  unfolding dispatch one_of when◌run◌else◌ str_eq handle_guided starts_with offer_modules offer
      ai_gateway_handle_command skip_spaces storage_handle_command run_editor editor_handle_command
      session_journal_handle_command handle_exports shut_down on_site
  exit-shuts typed m = refl

  recorded-Ends :
      (cmd : Bytes) (typed : List Bytes) (m : Here platform)
      → ((recorded platform cmd typed m).0 ≡ command_shutdown) ↔ Ends cmd
  unfolding recorded Ends Shuts
  recorded-Ends [] typed m = (λ e. cc, λ ends. elim ends [ inl e ↦ cc | inr e ↦ cc ])
  recorded-Ends (c ∷ cmd) typed m = (
    dispatch-Shuts platform (c ∷ cmd) typed (enter platform (c ∷ cmd) m).1,
    λ ends. elim ends [
      | inl e ↦
          ap (λ l. (dispatch platform l typed (enter platform (c ∷ cmd) m).1).0) e
          ∙ shutdown-shuts typed (enter platform (c ∷ cmd) m).1
      | inr e ↦
          ap (λ l. (dispatch platform l typed (enter platform (c ∷ cmd) m).1).0) e
          ∙ exit-shuts typed (enter platform (c ∷ cmd) m).1
    ],
  )

  -- A line ends the session exactly where its first 127 characters, without the spaces around
  -- them, are "shutdown" or "exit": no other command does, none of the modules that are asked
  -- before takes one of the two, and the state does not matter.
  pub command_handle_line-Ends :
      (line : Bytes) (typed : List Bytes) (m : Here platform)
      → ((command_handle_line platform line typed m).0 ≡ command_shutdown) ↔ Ends (command_of line)
  unfolding command_handle_line
  command_handle_line-Ends line typed m = recorded-Ends (command_of line) typed m

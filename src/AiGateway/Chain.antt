-- ===== src/AiGateway/Chain.antt =====
-- The commands of the AI gateway keep the hash chain of the audit log.
use vita_os.Prelude.{
  ℕ, Bool, false, ◌||◌, Option, none, some, List, [], ◌∷◌, ◌≡◌, codes, drop, length, if_elim, ◌>>◌,
}
use vita_os.Text.{Bytes, str_eq, starts_with, skip_spaces}
use vita_os.Audit.Rows.{EventRow}
use vita_os.Command.{Platform, Do, on_site, say, say_all, emit_event}
use vita_os.Command.Chain.{Safe, emit-Safe, Sound, sound, Sound-Safe}
use vita_os.AiGateway.{
  set_ai, say_about, status_lines, help_lines, parse_host_port, store_endpoint,
  ai_gateway_disconnect, ask, handled, gateway_command, ai_gateway_handle_command,
}

module _ (platform : Platform) (base : List EventRow)
    (frames : (i : ℕ) → length (platform.clock i).stack ≡ 64) where
  abbrev Good : {A : Type 0} → Do platform A → Type 0
  Good f = Safe platform base frames f

  store_endpoint-Safe : (parsed : Option (Bytes × ℕ)) → Good (store_endpoint platform parsed)
  unfolding store_endpoint say_about say_all on_site set_ai
  store_endpoint-Safe none m inv = inv
  store_endpoint-Safe (some (host, port)) m inv = emit-Safe platform base frames _ host _ inv

  disconnect-Safe : Good (ai_gateway_disconnect platform)
  unfolding ai_gateway_disconnect say on_site set_ai
  disconnect-Safe m inv = emit-Safe platform base frames _ _ _ inv

  ask-Safe : (prompt : Bytes) → Good (ask platform prompt)
  unfolding ask say say_about say_all on_site
  ask-Safe [] m inv = inv
  ask-Safe (c ∷ prompt) m inv = emit-Safe platform base frames _ (c ∷ prompt) m inv

  handled-Safe : (step : Do platform Unit) → Good step → Good (handled platform step)
  unfolding handled
  handled-Safe step h m inv = h m inv

  abbrev Fine : Do platform Bool → Type 0
  Fine f = Sound platform base frames f

  status-Safe : Good (do
    emit_event platform (codes "COMMAND_AI_STATUS") (codes "ai status")
    say_about platform status_lines)
  unfolding say_about say_all on_site
  status-Safe m inv = emit-Safe platform base frames _ _ m inv

  help-Safe : Good (do
    emit_event platform (codes "COMMAND_AI_HELP") (codes "ai help")
    say_all platform help_lines)
  unfolding say_all on_site
  help-Safe m inv = emit-Safe platform base frames _ _ m inv

  no_command-Safe : Good {A = Bool} (λ m. (false, m))
  no_command-Safe m inv = inv

  branch : (step : Do platform Unit) → Good step → Fine (handled platform step)
  branch step h = sound platform base frames (handled platform step) (handled-Safe step h)

  gateway_command-Sound : (cmd : Bytes) → Fine (gateway_command platform cmd)
  unfolding gateway_command
  gateway_command-Sound cmd =
      if_elim Fine (str_eq cmd (codes "ai") || str_eq cmd (codes "ai status")) _ _
        (λ _. branch _ status-Safe)
        λ _.
          if_elim Fine (str_eq cmd (codes "ai help")) _ _ (λ _. branch _ help-Safe)
            λ _.
              if_elim Fine (starts_with cmd (codes "ai connect ")) _ _
                (λ _. branch _ (store_endpoint-Safe (parse_host_port (drop 11 cmd))))
                λ _.
                  if_elim Fine (str_eq cmd (codes "ai disconnect")) _ _
                    (λ _. branch _ disconnect-Safe)
                    λ _.
                      if_elim Fine (starts_with cmd (codes "ai ask ")) _ _
                        (λ _. branch _ (ask-Safe (skip_spaces (drop 7 cmd))))
                        λ _. sound platform base frames _ no_command-Safe

  pub gateway-Safe : (line : Bytes) → Good (ai_gateway_handle_command platform line)
  unfolding ai_gateway_handle_command
  gateway-Safe line =
      Sound-Safe platform base frames (gateway_command platform (skip_spaces line))
        (gateway_command-Sound (skip_spaces line))

-- ===== src/AiGateway/Endpoint.antt =====
-- What the AI gateway of kernel/ai_gateway.c keeps as its endpoint.
use vita_os.Prelude.{
  ℕ, zero, suc, ◌+◌, ◌-◌, ◌*◌, ◌≤◌, ◌<◌, Bool, true, false, ◌||◌, Option, none, some, [], ◌∷◌, ◌≡◌,
  refl, codes, All, drop, length, ltb, ltb→le, ◌==◌, ==_iff, if_elim, if◌then◌else◌, arith, ◌⊎◌,
  inl, inr,
}
use vita_os.Text.{Bytes, str_eq, starts_with, is_space_char, skip_spaces}
use vita_os.Command.{AiGateway, Platform, Here, Do, say, say_all, emit_event}
use vita_os.AiGateway.{
  port_digits, parse_uint_port, split_word, goes_on, with_port, host_port, parse_host_port, set_ai,
  say_about, store_endpoint, ai_gateway_disconnect, ask, handled, gateway_command,
  ai_gateway_handle_command,
}

-- A number that an optional number is, if it is one, is a port.
abbrev IsPort : Option ℕ → Type 0
IsPort none = Unit
IsPort (some port) = (0 < port) × (port ≤ 65535)

nonzero-IsPort :
    (value digits : ℕ)
    → value ≤ 65535
    → IsPort (if digits == 0 || value == 0 then none else some value)
nonzero-IsPort value digits small =
    if_elim IsPort (digits == 0 || value == 0) none (some value) (λ _. tt)
      λ other. ground (arith, other, small, (==_iff value 0).1)

port_digits-IsPort :
    (value digits : ℕ) (s : Bytes) → value ≤ 65535 → IsPort (port_digits value digits s)
unfolding port_digits
port_digits-IsPort value digits [] small = nonzero-IsPort value digits small
port_digits-IsPort value digits (c ∷ s) small =
    let next = value * 10 + (c - b'0') in
    if_elim IsPort (is_space_char c) (if digits == 0 || value == 0 then none else some value) _
      (λ _. nonzero-IsPort value digits small)
      λ _.
        if_elim IsPort (ltb c b'0' || ltb b'9' c) none _ (λ _. tt)
          λ _.
            if_elim IsPort (ltb 65535 next) none (port_digits next (digits + 1) s) (λ _. tt)
              λ fits. port_digits-IsPort next (digits + 1) s (ltb→le 65535 next fits)

-- A host that is a word of at most 63 characters, with a port.
pub record IsEndpoint (host : Bytes) (port : ℕ) : Type 0 where
  pub word : All (λ c. is_space_char c ≡ false) host
  pub some_host : 0 < length host
  pub room : length host ≤ 63
  pub port_set : 0 < port
  pub port_max : port ≤ 65535

-- what a split of a text has in front
record IsWord (room : ℕ) (word : Bytes) : Type 0 where
  spaceless : All (λ c. is_space_char c ≡ false) word
  fits : length word ≤ room

split_word-IsWord : (room : ℕ) (s : Bytes) → IsWord room (split_word room s).0
unfolding split_word
split_word-IsWord zero s = record { spaceless = tt; fits = omega arith }
split_word-IsWord (suc room) [] = record { spaceless = tt; fits = omega arith }
split_word-IsWord (suc room) (c ∷ s) =
    if_elim (λ (r : Bytes × Bytes). IsWord (suc room) r.0) (is_space_char c) ([], c ∷ s)
      (c ∷ (split_word room s).0, (split_word room s).1)
      (λ _. record { spaceless = tt; fits = omega arith })
      λ plain.
        let w = split_word-IsWord room s in
        record { spaceless = (plain, w.spaceless); fits = omega (arith, w.fits) }

-- an endpoint, if there is one
abbrev Parsed : Option (Bytes × ℕ) → Type 0
Parsed none = Unit
Parsed (some (host, port)) = IsEndpoint host port

with_port-Parsed :
    (c : ℕ) (host : Bytes) (port : Option ℕ)
    → IsWord 63 (c ∷ host)
    → IsPort port
    → Parsed (with_port (c ∷ host) port)
unfolding with_port
with_port-Parsed c host none w p = tt
with_port-Parsed c host (some port) w p = record {
  word = w.spaceless;
  some_host = omega arith;
  room = w.fits;
  port_set = p.0;
  port_max = p.1;
}

host_port-Parsed : (word rest : Bytes) → IsWord 63 word → Parsed (host_port (word, rest))
unfolding host_port parse_uint_port
host_port-Parsed [] rest w = tt
host_port-Parsed (c ∷ host) rest w =
    if_elim Parsed (goes_on rest) none _ (λ _. tt)
      λ _.
        with_port-Parsed c host (parse_uint_port (skip_spaces rest)) w
          (port_digits-IsPort 0 0 (skip_spaces (skip_spaces rest)) (omega arith))

parse_host_port-Parsed : (args : Bytes) → Parsed (parse_host_port args)
unfolding parse_host_port
parse_host_port-Parsed args =
    let split = split_word 63 (skip_spaces args) in
    host_port-Parsed split.0 split.1 (split_word-IsWord 63 (skip_spaces args))

-- The gateway has no endpoint, or one that is well formed.
unfoldable pub IsGateway : AiGateway → Type 0
IsGateway ai =
    ((ai.endpoint_configured ≡ false) × (ai.host ≡ []) × (ai.port ≡ 0))
    ⊎ ((ai.endpoint_configured ≡ true) × IsEndpoint ai.host ai.port)

module _ (platform : Platform) (m : Here platform) (ok : IsGateway m.ai) where
  -- a result whose state has a good gateway
  abbrev Good : Bool × Here platform → Type 0
  Good r = IsGateway r.1.ai

  store_endpoint-IsGateway :
      (parsed : Option (Bytes × ℕ))
      → Parsed parsed
      → IsGateway (store_endpoint platform parsed m).1.ai
  unfolding store_endpoint IsGateway set_ai say_about say_all emit_event
  store_endpoint-IsGateway none p = ok
  store_endpoint-IsGateway (some (host, port)) p = inr (refl, p)

  ask-IsGateway : (prompt : Bytes) → IsGateway (ask platform prompt m).1.ai
  unfolding ask say_about say_all say emit_event
  ask-IsGateway [] = ok
  ask-IsGateway (c ∷ prompt) = ok

  gateway_command-IsGateway : (cmd : Bytes) → Good (gateway_command platform cmd m)
  unfolding gateway_command handled say_about say_all say emit_event ai_gateway_disconnect set_ai
      IsGateway
  gateway_command-IsGateway cmd =
      if_elim P (str_eq cmd (codes "ai") || str_eq cmd (codes "ai status")) _ _ (λ _. ok)
        λ _.
          if_elim P (str_eq cmd (codes "ai help")) _ _ (λ _. ok)
            λ _.
              if_elim P (starts_with cmd (codes "ai connect ")) _ _
                (λ _.
                  store_endpoint-IsGateway (parse_host_port (drop 11 cmd))
                    (parse_host_port-Parsed (drop 11 cmd)))
                λ _.
                  if_elim P (str_eq cmd (codes "ai disconnect")) _ _ (λ _. inl (refl, refl, refl))
                    λ _.
                      if_elim P (starts_with cmd (codes "ai ask ")) _ _
                        (λ _. ask-IsGateway (skip_spaces (drop 7 cmd))) (λ _. ok)
    where
      P : Do platform Bool → Type 0
      P f = Good (f m)

-- Whatever the line, a command leaves the AI gateway without an endpoint, or with one whose host is
-- a word of 1 to 63 characters and whose port is between 1 and 65535, if that was so before.
pub ai_gateway_handle_command-IsGateway :
    (platform : Platform) (m : Here platform) (line : Bytes)
    → IsGateway m.ai
    → IsGateway (ai_gateway_handle_command platform line m).1.ai
unfolding ai_gateway_handle_command
ai_gateway_handle_command-IsGateway platform m line ok =
    gateway_command-IsGateway platform m ok (skip_spaces line)

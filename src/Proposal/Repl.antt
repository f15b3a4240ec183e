-- ===== src/Proposal/Repl.antt =====
-- proposal_hosted_repl of kernel/proposal.c: the loop over the standard input.
pub mod Stops
use vita_os.Prelude.{ℕ, Bool, ◌||◌, List, [], ◌∷◌, codes, ◌==◌, if_elim, if◌then◌else◌}
use vita_os.Text.{Bytes, str_eq}
use vita_os.Audit.Sqlite.{Sqlite}
use vita_os.Audit.State.{Call}
use vita_os.Kernel.{write_line}
use vita_os.Node.Endpoint.{Network}
use vita_os.Proposal.{World, proposal_handle_command}
use vita_os.Proposal.Slots.{IsTable}
use vita_os.Proposal.Table.{proposal_handle_command-HasTable}

is_line_end : ℕ → Bool
is_line_end c = c == b'\n' || c == b'\r'

-- a character in front of what is kept of the rest of a line
keep : ℕ → Bytes → Bytes
unfolding is_line_end
keep c [] = if is_line_end c then [] else c ∷ []
keep c (d ∷ rest) = c ∷ d ∷ rest

-- a line without the ends of line behind it
chomp : Bytes → Bytes
unfolding keep
chomp [] = []
chomp (c ∷ line) = keep c (chomp line)

is_exit : Bytes → Bool
is_exit line = str_eq line (codes "exit") || str_eq line (codes "shutdown")

module _ (sql : Sqlite) (net : Network) (clock : ℕ → Call) where
  -- a line that does not end the loop
  repl_line : Bool → Bytes → World sql net clock → World sql net clock
  repl_line socket_open line w =
      let (known, w') = proposal_handle_command sql net clock socket_open line w in
      if known then w' else write_line (codes "unknown command") w'

  -- The loop, over what `fgets` gives: each at most 127 characters.
  repl : Bool → List Bytes → World sql net clock → World sql net clock
  unfolding chomp is_exit repl_line
  repl socket_open [] w = w
  repl socket_open (line ∷ lines) w =
      let rest = repl socket_open lines (repl_line socket_open (chomp line) w) in
      if is_exit (chomp line) then write_line (codes "bye") w else rest

  pub proposal_hosted_repl : Bool → List Bytes → World sql net clock → World sql net clock
  unfolding repl
  proposal_hosted_repl socket_open lines w = repl socket_open lines (
      write_line
        (codes "AI console ready. type: proposals | approve <id> | reject <id> | helpme | exit") w)

  repl_line-HasTable :
      (socket_open : Bool) (line : Bytes) (w : World sql net clock)
      → IsTable w.proposals
      → IsTable (repl_line socket_open line w).proposals
  unfolding repl_line write_line
  repl_line-HasTable socket_open line w t =
      let r = proposal_handle_command sql net clock socket_open line w in
      let kept = proposal_handle_command-HasTable sql net clock socket_open line w t in
      if_elim (λ (w' : World sql net clock). IsTable w'.proposals) r.0 r.1 _ (λ _. kept) (λ _. kept)

  repl-HasTable :
      (socket_open : Bool) (lines : List Bytes) (w : World sql net clock)
      → IsTable w.proposals
      → IsTable (repl socket_open lines w).proposals
  unfolding repl write_line
  repl-HasTable socket_open [] w t = t
  repl-HasTable socket_open (line ∷ lines) w t =
      if_elim (λ (w' : World sql net clock). IsTable w'.proposals) (is_exit (chomp line)) _ _
        (λ _. t)
        λ _.
          repl-HasTable socket_open lines (repl_line socket_open (chomp line) w)
            (repl_line-HasTable socket_open (chomp line) w t)

  -- Whatever is typed in the proposal console, for as many lines as one likes, at most eight
  -- proposals numbered from P-1 on are such proposals at its end.
  pub proposal_hosted_repl-HasTable :
      (socket_open : Bool) (lines : List Bytes) (w : World sql net clock)
      → IsTable w.proposals
      → IsTable (proposal_hosted_repl socket_open lines w).proposals
  unfolding proposal_hosted_repl write_line
  proposal_hosted_repl-HasTable socket_open lines w t =
      repl-HasTable socket_open lines
        (write_line
          (codes "AI console ready. type: proposals | approve <id> | reject <id> | helpme | exit")
          w)
        t

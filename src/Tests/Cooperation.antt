-- ===== src/Tests/Cooperation.antt =====
-- A peer, and the proposals, at concrete inputs.
use vita_os.Prelude.{
  ℕ, true, false, Option, none, some, List, [], ◌∷◌, ◌≡◌, refl, codes, arith, if◌then◌else◌, ◌==◌,
  inl, inr, ap, Bool, ◌||◌, ◌++◌, All,
}
use vita_os.Text.{Bytes, str_eq}
use vita_os.Node.Link.{IsSound, IsUnlinked, link_of}
use vita_os.Node.Start.{NodeOp, start, answer, show_peers, node_ops, node_core_handle_link_response}
use vita_os.Node.Start.Runs.{IsAnswered, node_ops-IsSound, node_ops-IsUnlinked, response_once}
use vita_os.Kernel.{write_line}
use vita_os.Proposal.{id_from_index, rejection, answer_proposal, new_slot}
use vita_os.Proposal.Repl.{proposal_hosted_repl}
use vita_os.Proposal.Repl.Stops.{AreEnds, Leaves, all_answered, proposal_hosted_repl-Leaves}
use vita_os.Proposal.Slots.{IsTable, status_at}
use vita_os.Proposal.Table.{answer_proposal-status}
use vita_os.Tests.Fixtures.{memory_sqlite, network, clock, asked}

-- The peer greets, and sends nothing else.
abbrev greeting : ℕ → Option Bytes
greeting i = if i == 0 then some (codes "HELLO node-b") else none

abbrev quiet_run : List NodeOp
quiet_run = answer true (codes "N-1") false ∷ show_peers ∷ start none true (λ i. none) ∷ []

node_ops-IsSound_example : IsSound (
    link_of
      (node_ops memory_sqlite network clock (start none true greeting ∷ quiet_run) asked).node)
unfolding link_of
node_ops-IsSound_example =
    node_ops-IsSound memory_sqlite network clock (start none true greeting ∷ quiet_run) asked
      (inl refl)

asked-IsUnlinked : IsUnlinked (link_of asked.node)
unfolding link_of
asked-IsUnlinked e = cc

node_ops-IsUnlinked_example :
    IsUnlinked (link_of (node_ops memory_sqlite network clock quiet_run asked).node)
node_ops-IsUnlinked_example =
    node_ops-IsUnlinked memory_sqlite network clock quiet_run asked
      (refl, (tt, ((λ i msg e. cc), tt))) asked-IsUnlinked

takes :
    (node_core_handle_link_response memory_sqlite network clock true (codes "N-1") true asked).0
    ≡ true
unfolding node_core_handle_link_response str_eq
takes = refl

response_once_example :
    IsAnswered memory_sqlite network clock
      (codes "N-1")
      true
      (node_core_handle_link_response memory_sqlite network clock true (codes "N-1") true asked).1
    × (node_core_handle_link_response memory_sqlite network clock true
          (codes "N-1")
          false
          (node_core_handle_link_response memory_sqlite network clock true
            (codes "N-1")
            true
            asked).1
        ≡ (
          false,
          (node_core_handle_link_response memory_sqlite network clock true
              (codes "N-1")
              true
              asked).1,
        ))
response_once_example =
    response_once memory_sqlite network clock true (codes "N-1") true asked true (codes "N-1") false
      takes

two-IsTable : IsTable asked.proposals
unfolding new_slot
two-IsTable = record { room = omega arith; numbered = (refl, (refl, tt)) }

answer_proposal-status_example :
    (status_at
        (answer_proposal memory_sqlite network clock true rejection
          (id_from_index 1)
          asked).proposals
        0
      ≡ (if 0 == 1 then some rejection.new_status else status_at asked.proposals 0))
    × ((answer_proposal memory_sqlite network clock true rejection (id_from_index 1) asked).node
        ≡ asked.node)
answer_proposal-status_example =
    answer_proposal-status memory_sqlite network clock true rejection 1 0 asked two-IsTable
      (omega arith)

abbrev typed_lines : List Bytes
typed_lines = codes "approve P-2\n" ∷ codes "reboot\n" ∷ []

-- A line that begins with neither of the two letters does not leave.
not-Leaves : (c : ℕ) (line : Bytes) → (c == b'e' || c == b's') ≡ false → Leaves (c ∷ line) → ⊥
unfolding Leaves
not-Leaves c line h (ends, are, e) = elim e [
  | inl word ↦
      let at : (c == b'e' || c == b's') ≡ true = ap (λ (s : Bytes). leads s) word in
      absurd (cc (at, h))
  | inr word ↦
      let at : (c == b'e' || c == b's') ≡ true = ap (λ (s : Bytes). leads s) word in
      absurd (cc (at, h))
]
  where
    leads : Bytes → Bool
    leads [] = false
    leads (d ∷ s) = d == b'e' || d == b's'

stay : All (λ line. Leaves line → ⊥) typed_lines
stay = (not-Leaves b'a' _ refl, (not-Leaves b'r' _ refl, tt))

proposal_hosted_repl-Leaves_example :
    let greeted =
      write_line
        (codes "AI console ready. type: proposals | approve <id> | reject <id> | helpme | exit")
        asked in
    (proposal_hosted_repl memory_sqlite network clock true
        (typed_lines ++ codes "exit\r\n" ∷ codes "reject P-1\n" ∷ [])
        asked
      ≡ write_line
          (codes "bye")
          (all_answered memory_sqlite network clock true typed_lines greeted))
    × (proposal_hosted_repl memory_sqlite network clock true typed_lines asked
        ≡ all_answered memory_sqlite network clock true typed_lines greeted)
unfolding Leaves AreEnds
proposal_hosted_repl-Leaves_example =
    proposal_hosted_repl-Leaves memory_sqlite network clock true typed_lines
      (codes "reject P-1\n" ∷ []) (codes "exit\r\n") asked stay
      (codes "\r\n", (inr refl, (inl refl, tt)), inl refl)

-- ===== src/Proposal/Repl/Stops.antt =====
-- Where the proposal console stops reading.
use vita_os.Prelude.{
  ℕ, Bool, true, false, List, [], ◌∷◌, ◌++◌, ◌≡◌, refl, sym, ap, ◌∙◌, codes, All, Bool-cases, ◌⊎◌,
  inl, inr, ◌↔◌, arith, append-nil,
}
use vita_os.Text.{Bytes, str_eq}
use vita_os.Text.Laws.{str_eq_iff}
use vita_os.Audit.Sqlite.{Sqlite}
use vita_os.Audit.State.{Call}
use vita_os.Kernel.{write_line}
use vita_os.Node.Endpoint.{Network}
use vita_os.Proposal.{World}
use vita_os.Proposal.Repl.{is_line_end, keep, chomp, is_exit, repl_line, repl, proposal_hosted_repl}

-- any number of line feeds and carriage returns
unfoldable pub AreEnds : Bytes → Type 0
AreEnds s = All (λ c. (c ≡ b'\n') ⊎ (c ≡ b'\r')) s

-- "exit" or "shutdown", with ends of line behind it
unfoldable pub Leaves : Bytes → Type 0
Leaves line =
    (ends : Bytes) × AreEnds ends
    × ((line ≡ codes "exit" ++ ends) ⊎ (line ≡ codes "shutdown" ++ ends))

is_line_end_iff : (c : ℕ) → (is_line_end c ≡ true) ↔ ((c ≡ b'\n') ⊎ (c ≡ b'\r'))
unfolding is_line_end
is_line_end_iff c = ground arith

chomp_ends : (ends : Bytes) → AreEnds ends → chomp ends ≡ []
unfolding chomp AreEnds keep
chomp_ends [] h = refl
chomp_ends (c ∷ ends) h = rw (chomp_ends ends h.1, (is_line_end_iff c).1 h.0) refl

-- the ends of line that are taken off
keep_ends :
    (c : ℕ) (kept line ends : Bytes)
    → AreEnds ends
    → line ≡ kept ++ ends
    → (taken : Bytes) × AreEnds taken × (c ∷ line ≡ keep c kept ++ taken)
unfolding keep AreEnds
keep_ends c [] line ends h e = elim (Bool-cases (is_line_end c)) [
  | inl end ↦ rw end (c ∷ ends, ((is_line_end_iff c).0 end, h), ap (◌∷◌ c) e)
  | inr plain ↦ rw plain (ends, h, ap (◌∷◌ c) e)
]
keep_ends c (d ∷ kept) line ends h e = (ends, h, ap (◌∷◌ c) e)

chomped_ends : (line : Bytes) → (taken : Bytes) × AreEnds taken × (line ≡ chomp line ++ taken)
unfolding chomp AreEnds
chomped_ends [] = ([], tt, refl)
chomped_ends (c ∷ line) =
    let (ends, h, e) = chomped_ends line in keep_ends c (chomp line) line ends h e

is_exit-Leaves : (line : Bytes) → Leaves line → is_exit (chomp line) ≡ true
unfolding Leaves is_exit chomp keep is_line_end str_eq
is_exit-Leaves line (ends, h, e) = elim e [
  | inl word ↦ rw (word, chomp_ends ends h) refl
  | inr word ↦ rw (word, chomp_ends ends h) refl
]

Leaves-is_exit : (line : Bytes) → is_exit (chomp line) ≡ true → Leaves line
unfolding Leaves is_exit
Leaves-is_exit line h =
    let (ends, are, e) = chomped_ends line in
    elim (Bool-cases (str_eq (chomp line) (codes "exit"))) [
      | inl word ↦ (
        ends,
        are,
        inl (e ∙ ap (λ (s : Bytes). s ++ ends) ((str_eq_iff (chomp line) (codes "exit")).0 word)),
      )
      | inr other ↦
          let word : str_eq (chomp line) (codes "shutdown") ≡ true = ground (arith, h, other) in
          (
            ends,
            are,
            inr (
                e
                ∙ ap (λ (s : Bytes). s ++ ends)
                    ((str_eq_iff (chomp line) (codes "shutdown")).0 word)),
          )
    ]

stays : (line : Bytes) → (Leaves line → ⊥) → is_exit (chomp line) ≡ false
stays line h = elim (Bool-cases (is_exit (chomp line))) [
  | inl exits ↦ absurd (h (Leaves-is_exit line exits))
  | inr e ↦ e
]

module _ (sql : Sqlite) (net : Network) (clock : ℕ → Call) (socket_open : Bool) where
  -- the lines, each answered behind the one before it
  pub all_answered : List Bytes → World sql net clock → World sql net clock
  all_answered [] w = w
  all_answered (line ∷ lines) w =
      all_answered lines (repl_line sql net clock socket_open (chomp line) w)

  repl-all_answered :
      (lines rest : List Bytes) (w : World sql net clock)
      → All (λ line. Leaves line → ⊥) lines
      → repl sql net clock socket_open (lines ++ rest) w
        ≡ repl sql net clock socket_open rest (all_answered lines w)
  unfolding repl all_answered
  repl-all_answered [] rest w h = refl
  repl-all_answered (line ∷ lines) rest w h =
      rw (stays line h.0)
        (repl-all_answered lines rest (repl_line sql net clock socket_open (chomp line) w) h.1)

  -- The proposal console greets, answers the lines in their order up to the first that is "exit" or
  -- "shutdown" with any ends of line behind it, says "bye" there, and reads no line behind that one;
  -- where there is no such line it answers all.
  pub proposal_hosted_repl-Leaves :
      (lines after : List Bytes) (stop : Bytes) (w : World sql net clock)
      → All (λ line. Leaves line → ⊥) lines
      → Leaves stop
      → let greeted =
          write_line
            (codes "AI console ready. type: proposals | approve <id> | reject <id> | helpme | exit")
            w in
        (proposal_hosted_repl sql net clock socket_open (lines ++ stop ∷ after) w
          ≡ write_line (codes "bye") (all_answered lines greeted))
        × (proposal_hosted_repl sql net clock socket_open lines w ≡ all_answered lines greeted)
  unfolding proposal_hosted_repl repl
  proposal_hosted_repl-Leaves lines after stop w stay leave =
      let greeted =
        write_line
          (codes "AI console ready. type: proposals | approve <id> | reject <id> | helpme | exit")
          w in
      (
        repl-all_answered lines (stop ∷ after) greeted stay ∙ rw (is_exit-Leaves stop leave) refl,
        ap (λ (l : List Bytes). repl sql net clock socket_open l greeted) (sym (append-nil lines))
            ∙ repl-all_answered lines [] greeted stay,
      )

-- ===== src/Audit/Report/Block.antt =====
-- The block of recent events fits its buffer, and holds the lines of the newest events, newest first.
use vita_os.Prelude.{
  ℕ, ◌+◌, ◌≤◌, ◌<◌, Bool, true, false, List, [], ◌∷◌, ◌++◌, ◌≡◌, refl, sym, ap, ◌∙◌, inl, inr, some,
  ltb, Bool-cases, append-nil, append_assoc, length, length-append, leb, leb→gt, gt→leb, All, arith,
}
use vita_os.Text.{Bytes}
use vita_os.Audit.Rows.{EventRow}
use vita_os.Audit.Sqlite.{Sqlite}
use vita_os.Audit.State.{AuditState}
use vita_os.Audit.Report.{
  block_line, block_loop, recent, export_block, audit_export_recent_event_block,
}

-- the lines of some rows, each behind a semicolon but the first
abbrev pub block_lines : Bool → List EventRow → Bytes
block_lines first [] = []
block_lines first (r ∷ rows) = block_line first r ++ block_lines false rows

pub record IsBlock (cap : ℕ) (out : Bytes) (first : Bool) (rows : List EventRow) (result : Bytes)
    : Type 0 where
  pub shown : List EventRow
  pub hidden : List EventRow
  pub splits : rows ≡ shown ++ hidden
  pub text : result ≡ out ++ block_lines first shown
  pub fits : length result + 1 < cap

-- The loop stops with what it has.
IsBlock-stop :
    (cap : ℕ) (out : Bytes) (first : Bool) (rows : List EventRow)
    → length out + 1 < cap
    → IsBlock cap out first rows out
IsBlock-stop cap out first rows h = record {
  shown = [];
  hidden = rows;
  splits = refl;
  text = sym (append-nil out);
  fits = h;
}

IsBlock-line :
    (cap : ℕ) (out : Bytes) (first : Bool) (r : EventRow) (rows : List EventRow) (result : Bytes)
    → IsBlock cap (out ++ block_line first r) false rows result
    → IsBlock cap out first (r ∷ rows) result
IsBlock-line cap out first r rows result b = record {
  shown = r ∷ b.shown;
  hidden = b.hidden;
  splits = ap (◌∷◌ r) b.splits;
  text = b.text ∙ append_assoc out (block_line first r) (block_lines false b.shown);
  fits = b.fits;
}

-- Whatever the loop over the rows returns, it leaves in `out` what was there and then the whole
-- lines of a prefix of the rows, and that fits the buffer with its NUL.
pub block_loop-IsBlock :
    (cap : ℕ) (out : Bytes) (first : Bool) (rows : List EventRow)
    → length out + 1 < cap
    → IsBlock cap out first rows (block_loop cap out first rows).1
unfolding block_loop
block_loop-IsBlock cap out first [] h = IsBlock-stop cap out first [] h
block_loop-IsBlock cap out first (r ∷ rows) h =
    let line = block_line first r in
    elim (Bool-cases (leb 192 (length line))) [
      | inl long ↦ rw (long, block_loop) (IsBlock-stop cap out first (r ∷ rows) h)
      | inr short ↦ elim (Bool-cases (leb cap (length out + length line + 1))) [
        | inl full ↦ rw (short, full, block_loop) (IsBlock-stop cap out first (r ∷ rows) h)
        | inr room ↦
            rw (short, room, block_loop)
              (IsBlock-line cap out first r rows _ (
                block_loop-IsBlock cap (out ++ line) false rows
                  (omega (arith, length-append out line, leb→gt cap _ room))))
      ]
    ]

length-block_line :
    (first : Bool) (r : EventRow) → length (block_line first r) ≤ length (block_line false r)
unfolding block_line
length-block_line true r = omega arith
length-block_line false r = omega arith

-- Where every line is shorter than 192 bytes and all of them fit, the block is all of them.
pub block_loop_whole :
    (cap : ℕ) (out : Bytes) (first : Bool) (rows : List EventRow)
    → All (λ r. length (block_line false r) < 192) rows
    → length out + length (block_lines first rows) + 1 < cap
    → (block_loop cap out first rows).1 ≡ out ++ block_lines first rows
unfolding block_loop
block_loop_whole cap out first [] short fits = sym (append-nil out)
block_loop_whole cap out first (r ∷ rows) short fits =
    let line = block_line first r in
    let more = block_lines false rows in
    let ok : leb 192 (length line) ≡ false =
      gt→leb 192 (length line) (omega (arith, length-block_line first r, short.0)) in
    let room : leb cap (length out + length line + 1) ≡ false =
      gt→leb cap _ (omega (arith, length-append line more)) in
    rw (ok, room, block_loop)
      (block_loop_whole cap (out ++ line) false rows short.1
          (omega (arith, length-append out line, length-append line more))
        ∙ append_assoc out line more)

-- With an open backend and a buffer of at least two bytes, the exported block is the whole lines of
-- the newest events, newest first, from at most eight of them, and fits the buffer with its NUL.
pub audit_export_recent_event_block-IsBlock :
    (sql : Sqlite) (s : AuditState sql.Db) (db : sql.Db) (out : Bytes) (cap : ℕ)
    → s.db ≡ some db
    → s.persistent_ready ≡ true
    → 2 ≤ cap
    → IsBlock cap [] true (recent (sql.events db)) (audit_export_recent_event_block sql s out cap).1
unfolding audit_export_recent_event_block export_block
audit_export_recent_event_block-IsBlock sql s db out cap opened ready room =
    let wide : ltb cap 2 ≡ false = ground arith in
    rw (wide, opened, ready) (block_loop-IsBlock cap [] true (recent (sql.events db)) (omega arith))

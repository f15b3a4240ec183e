-- ===== src/Command/Reports/Lengths.antt =====
-- How long the texts of kernel/command_core.c become in their buffers.
use vita_os.Prelude.{
  ℕ, suc, ◌+◌, ◌-◌, ◌≤◌, ◌<◌, min, Bool, true, false, List, [], ◌∷◌, ◌++◌, codes, length, ltb, ◌==◌,
  ==_iff, if_elim, arith, ltb→lt, ltb→le, length-append,
}
use vita_os.Text.{text_or, Bytes, str_len, copy_from}
use vita_os.Text.Laws.{str_len_lem}
use vita_os.VitaIr.{
  Tri, tri_no, tri_unknown, tri_yes, Severity, severity_info, severity_warn, severity_error,
  severity_critical, Claim, vita_tri_to_json_number, vita_ir_severity_to_string,
}
use vita_os.VitaIr.{text_for}
use vita_os.Command.Claims.{append_text, append_texts}
use vita_os.Command.ReportTexts.{state_jsonl, json_pieces, named, or_unknown_text, append_claims}

copy_from-reaches :
    (cap i : ℕ) (s : Bytes) → min (length s) (cap - 1 - i) ≤ length (copy_from cap i s)
unfolding copy_from
copy_from-reaches cap i [] = omega arith
copy_from-reaches cap i (c ∷ s) =
    if_elim (λ (r : Bytes). min (suc (length s)) (cap - 1 - i) ≤ length r) (ltb (i + 1) cap)
      (c ∷ copy_from cap (i + 1) s) []
      (λ room. omega (arith, ltb→lt (i + 1) cap room, copy_from-reaches cap (i + 1) s))
      (λ full. omega (arith, ltb→le (i + 1) cap full))

-- What is appended in a buffer of `cap` bytes reaches every length below `cap` that it could.
append_text-reaches :
    (cap n : ℕ) (dst src : Bytes)
    → n < cap
    → min n (length dst + length src) ≤ length (append_text cap dst src)
unfolding append_text
append_text-reaches cap n dst src below =
    if_elim (λ (r : Bytes). min n (length dst + length src) ≤ length r) (cap == 0) dst
      (dst ++ copy_from cap (str_len dst) src) (λ zero. omega (arith, below, (==_iff cap 0).0 zero))
      λ _. omega (
        arith,
        below,
        str_len_lem dst,
        length-append dst (copy_from cap (str_len dst) src),
        copy_from-reaches cap (str_len dst) src,
      )

total : List Bytes → ℕ
total [] = 0
total (text ∷ texts) = length text + total texts

append_texts-reaches :
    (cap n : ℕ) (dst : Bytes) (texts : List Bytes)
    → n < cap
    → min n (length dst + total texts) ≤ length (append_texts cap dst texts)
unfolding append_texts total
append_texts-reaches cap n dst [] below = omega (arith, below)
append_texts-reaches cap n dst (src ∷ texts) below = omega (
  arith,
  append_text-reaches cap n dst src below,
  append_texts-reaches cap n (append_text cap dst src) texts below,
)

length-text_or : (text fallback : Bytes) → length text ≤ length (text_or text fallback)
unfolding text_or
length-text_or [] fallback = omega arith
length-text_or (c ∷ text) fallback = omega arith

length-json_number : (t : Tri) → 1 ≤ length (vita_tri_to_json_number t)
unfolding vita_tri_to_json_number
length-json_number tri_yes = omega arith
length-json_number tri_unknown = omega arith
length-json_number tri_no = omega arith

length-severity : (s : Severity) → 4 ≤ length (vita_ir_severity_to_string s)
unfolding vita_ir_severity_to_string
length-severity severity_info = omega arith
length-severity severity_warn = omega arith
length-severity severity_error = omega arith
length-severity severity_critical = omega arith

-- the characters of a claim's own texts
unfoldable pub own : Claim → ℕ
own c = length c.claim + length c.actor + length c.target + length c.meaning + length c.effect

-- A line reaches every length below 384 that the claim's texts and 141 more characters do.
state_jsonl-reaches : (n : ℕ) (c : Claim) → n < 384 → n ≤ 141 + own c → n ≤ length (state_jsonl c)
unfolding state_jsonl own total json_pieces named or_unknown_text
state_jsonl-reaches n c below small = omega (
  arith,
  below,
  small,
  append_texts-reaches 384 n []
      (json_pieces c
        ++ (codes "\",\"actor\":\""
            ∷ or_unknown_text c.actor
            ∷ codes "\",\"target\":\""
            ∷ or_unknown_text c.target
            ∷ codes "\",\"meaning\":\""
            ∷ or_unknown_text c.meaning
            ∷ codes "\",\"effect\":\""
            ∷ or_unknown_text c.effect
            ∷ codes "\"}\n"
            ∷ []))
      below,
  length-text_or c.claim (codes "unknown.claim"),
  length-text_or c.actor (codes "unknown"),
  length-text_or c.target (codes "unknown"),
  length-text_or c.meaning (codes "unknown"),
  length-text_or c.effect (codes "unknown"),
  length-json_number c.state,
  length-severity c.severity,
)

-- the characters of the claims' texts, and 141 for each claim
unfoldable pub weight : List Claim → ℕ
weight [] = 0
weight (c ∷ claims) = 141 + own c + weight claims

-- every claim has room in its line
unfoldable pub Fit : List Claim → Type 0
Fit [] = Unit
Fit (c ∷ claims) = (141 + own c < 384) × Fit claims

pub append_claims-reaches :
    (n : ℕ) (txt : Bytes) (claims : List Claim)
    → n < 4096
    → Fit claims
    → min n (length txt + weight claims) ≤ length (append_claims state_jsonl txt claims)
unfolding append_claims weight Fit
append_claims-reaches n txt [] below fit = omega (arith, below)
append_claims-reaches n txt (c ∷ claims) below (room, fit) = omega (
  arith,
  state_jsonl-reaches (141 + own c) c room (omega arith),
  append_text-reaches 4096 n txt (state_jsonl c) below,
  append_claims-reaches n (append_text 4096 txt (state_jsonl c)) claims below fit,
)

-- one of two texts has no more characters than the longer of them, and no fewer than the other
pub length-text_for :
    (on : Bool) (a b : Bytes)
    → (min (length a) (length b) ≤ length (text_for on a b))
      × (length (text_for on a b) ≤ length a + length b)
unfolding text_for
length-text_for true a b = (omega arith, omega arith)
length-text_for false a b = (omega arith, omega arith)

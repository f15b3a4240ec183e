-- ===== src/VitaIr/Claims.antt =====
-- What the claims of kernel/vitair_audit.c say, for arrays of every size.
use vita_os.Prelude.{
  ℕ, zero, suc, ◌≤◌, ◌<◌, Bool, true, false, List, [], ◌∷◌, ◌++◌, ◌≡◌, refl, sym, ap, ◌∙◌, codes,
  length, take, map, ltb, if_elim, arith, ltb→lt, ltb→le, length-take, length-append, append-nil,
  append_assoc, ◌==◌, ==_iff, take_all, take-append_le,
}
use vita_os.Text.{Bytes}
use vita_os.VitaIr.{
  Tri, tri_no, tri_unknown, tri_yes, Severity, severity_info, severity_warn, Status, status_unknown,
  status_ok, status_warn, status_fail, status_unavailable, Claim, RuntimeStatus, append_claim,
  map_status_to_claim, flag, entry, storage_claim, journal_txt_claim, journal_jsonl_claim,
  transcript_txt_claim, transcript_jsonl_claim, sqlite_claim, restricted_claim, full_claim,
  vita_ir_claims_from_audit_runtime,
}

-- what a status and a flag are worth
verdict : Status → Tri
verdict status_ok = tri_yes
verdict status_fail = tri_no
verdict status_unavailable = tri_no
verdict status_warn = tri_unknown
verdict status_unknown = tri_unknown

answer : Bool → Tri
answer true = tri_yes
answer false = tri_no

opposite : Tri → Tri
opposite tri_yes = tri_no
opposite tri_unknown = tri_unknown
opposite tri_no = tri_yes

map_status_verdict : (s : Status) → (map_status_to_claim s).0 ≡ verdict s
unfolding map_status_to_claim verdict
map_status_verdict status_ok = refl
map_status_verdict status_fail = refl
map_status_verdict status_unavailable = refl
map_status_verdict status_warn = refl
map_status_verdict status_unknown = refl

-- what is claimed of a runtime status
unfoldable pub verdicts : RuntimeStatus → List (Bytes × Tri)
unfolding verdict answer opposite
verdicts rt =
    (codes "storage.persistent.writable", answer rt.persistent_storage_writable)
    ∷ (codes "audit.journal_txt.available", verdict rt.journal_txt_status)
    ∷ (codes "audit.journal_jsonl.available", verdict rt.journal_jsonl_status)
    ∷ (codes "audit.transcript_txt.available", verdict rt.transcript_txt_status)
    ∷ (codes "audit.transcript_jsonl.available", verdict rt.transcript_jsonl_status)
    ∷ (codes "audit.sqlite.available", verdict rt.sqlite_status)
    ∷ (codes "operational.restricted", answer rt.restricted_mode)
    ∷ (codes "operational.full", opposite (answer rt.restricted_mode))
    ∷ []

pub stated : Claim → Bytes × Tri
stated c = (c.claim, c.state)

flag-answer : (on : Bool) (a b : Severity) → (flag on (tri_yes, a) (tri_no, b)).0 ≡ answer on
unfolding flag answer
flag-answer true a b = refl
flag-answer false a b = refl

flag-opposite :
    (on : Bool) (a b : Severity) → (flag on (tri_no, a) (tri_yes, b)).0 ≡ opposite (answer on)
unfolding flag answer opposite
flag-opposite true a b = refl
flag-opposite false a b = refl

-- all the claims, in their order
unfoldable pub all_claims : RuntimeStatus → List Claim
all_claims rt =
    storage_claim rt
    ∷ journal_txt_claim rt
    ∷ journal_jsonl_claim rt
    ∷ transcript_txt_claim rt
    ∷ transcript_jsonl_claim rt
    ∷ sqlite_claim rt
    ∷ restricted_claim rt
    ∷ full_claim rt
    ∷ []

-- the names, with the states as the code finds them
unfoldable found : RuntimeStatus → List (Bytes × Tri)
unfolding all_claims
found rt = map stated (all_claims rt)

found-verdicts : (rt : RuntimeStatus) → found rt ≡ verdicts rt
unfolding found all_claims entry stated verdicts storage_claim journal_txt_claim journal_jsonl_claim
    transcript_txt_claim transcript_jsonl_claim sqlite_claim restricted_claim full_claim
found-verdicts rt = cc (
  map_status_verdict rt.journal_txt_status,
  map_status_verdict rt.journal_jsonl_status,
  map_status_verdict rt.transcript_txt_status,
  map_status_verdict rt.transcript_jsonl_status,
  map_status_verdict rt.sqlite_status,
  flag-answer rt.persistent_storage_writable severity_info severity_warn,
  flag-answer rt.restricted_mode severity_info severity_info,
  flag-opposite rt.restricted_mode severity_warn severity_info,
)

-- An array that holds the first claims of a list still does so when one more is appended.
append_claim-take :
    (max : ℕ) (c : Claim) (cs claims : List Claim)
    → claims ≡ take max cs
    → append_claim max c claims ≡ take max (cs ++ c ∷ [])
unfolding append_claim
append_claim-take max c cs claims e =
    if_elim (λ (l : List Claim). l ≡ take max (cs ++ c ∷ [])) (ltb (length claims) max)
      (claims ++ c ∷ []) claims
      (λ room.
        let few : length cs < max =
          omega (arith, ap length e, length-take max cs, ltb→lt (length claims) max room) in
        ap (λ l. l ++ c ∷ []) (e ∙ take_all max cs (omega (arith, few)))
        ∙ sym (take_all max (cs ++ c ∷ []) (omega (arith, few, length-append cs (c ∷ [])))))
      λ full.
        let many : max ≤ length cs =
          omega (arith, ap length e, length-take max cs, ltb→le (length claims) max full) in
        e ∙ sym (take-append_le max cs (c ∷ []) many)

append_all : ℕ → List Claim → List Claim → List Claim
append_all max [] claims = claims
append_all max (c ∷ cs) claims = append_all max cs (append_claim max c claims)

append_all-take :
    (max : ℕ) (cs before claims : List Claim)
    → claims ≡ take max before
    → append_all max cs claims ≡ take max (before ++ cs)
unfolding append_all
append_all-take max [] before claims e = e ∙ ap (take max) (sym (append-nil before))
append_all-take max (c ∷ cs) before claims e =
    append_all-take max cs (before ++ c ∷ []) (append_claim max c claims)
      (append_claim-take max c before claims e)
    ∙ ap (take max) (append_assoc before (c ∷ []) cs)

take_nil : {A : Type 0} (n : ℕ) → take {A = A} n [] ≡ []
take_nil zero = refl
take_nil (suc n) = refl

pub claims-take :
    (rt : RuntimeStatus) (max : ℕ)
    → vita_ir_claims_from_audit_runtime rt max ≡ take max (all_claims rt)
unfolding vita_ir_claims_from_audit_runtime append_all all_claims
claims-take rt max =
    if_elim (λ (l : List Claim). l ≡ take max (all_claims rt)) (max == 0) []
      (append_all max (all_claims rt) [])
      (λ zero. ap (λ n. take n (all_claims rt)) (sym ((==_iff max 0).0 zero)))
      (λ _. append_all-take max (all_claims rt) [] [] (sym (take_nil max)))

map-take : {A B : Type 0} (f : A → B) (n : ℕ) (xs : List A) → map f (take n xs) ≡ take n (map f xs)
map-take f zero xs = refl
map-take f (suc n) [] = refl
map-take f (suc n) (x ∷ xs) = ap (λ l. f x ∷ l) (map-take f n xs)

-- Whatever the runtime status, an array of any size holds the first of eight claims, as many as
-- fit: each has the state that its status or its flag is worth, and the last two are opposite.
pub claims-verdicts :
    (rt : RuntimeStatus) (max : ℕ)
    → map stated (vita_ir_claims_from_audit_runtime rt max) ≡ take max (verdicts rt)
unfolding found
claims-verdicts rt max =
    ap (map stated) (claims-take rt max)
    ∙ map-take stated max (all_claims rt)
    ∙ ap (take max) (found-verdicts rt)

-- ===== src/Proposal/Slots.antt =====
-- The table of proposals: at most eight, numbered from P-1 on; an identifier finds its slot.
use vita_os.Prelude.{
  ℕ, zero, suc, ◌+◌, ◌≤◌, ◌<◌, Bool, true, false, Option, none, some, List, [], ◌∷◌, ◌++◌, ◌≡◌, ◌≢◌,
  refl, sym, ap, ◌∙◌, length, codes, ◌==◌, if◌then◌else◌, arith,
}
use vita_os.Text.{Bytes, str_eq}
use vita_os.Text.Laws.{str_eq_iff}
use vita_os.Kernel.{ProposalSlot}
use vita_os.Node.{link_proposal_id}
use vita_os.Proposal.{id_from_index, find_by_id, set_status}

abbrev pub IsNumbered : ℕ → List ProposalSlot → Type 0
IsNumbered k [] = Unit
IsNumbered k (p ∷ slots) = (p.proposal_id ≡ id_from_index k) × IsNumbered (suc k) slots

pub record IsTable (slots : List ProposalSlot) : Type 0 where
  pub room : length slots ≤ 8
  pub numbered : IsNumbered 0 slots

pub status_at : List ProposalSlot → ℕ → Option Bytes
status_at [] i = none
status_at (p ∷ slots) zero = some p.status
status_at (p ∷ slots) (suc i) = status_at slots i

pub length-set_status :
    (slots : List ProposalSlot) (i : ℕ) (status : Bytes)
    → length (set_status slots i status) ≡ length slots
unfolding set_status
length-set_status [] i status = refl
length-set_status (p ∷ slots) zero status = refl
length-set_status (p ∷ slots) (suc i) status = ap suc (length-set_status slots i status)

set_status-IsNumbered :
    (k : ℕ) (slots : List ProposalSlot) (i : ℕ) (status : Bytes)
    → IsNumbered k slots
    → IsNumbered k (set_status slots i status)
unfolding set_status
set_status-IsNumbered k [] i status h = tt
set_status-IsNumbered k (p ∷ slots) zero status h = h
set_status-IsNumbered k (p ∷ slots) (suc i) status h =
    (h.0, set_status-IsNumbered (suc k) slots i status h.1)

pub set_status-IsTable :
    (slots : List ProposalSlot) (i : ℕ) (status : Bytes)
    → IsTable slots
    → IsTable (set_status slots i status)
set_status-IsTable slots i status t = record {
  room = omega (arith, length-set_status slots i status, t.room);
  numbered = set_status-IsNumbered 0 slots i status t.numbered;
}

pub append-IsNumbered :
    (k : ℕ) (slots : List ProposalSlot) (p : ProposalSlot)
    → IsNumbered k slots
    → p.proposal_id ≡ id_from_index (k + length slots)
    → IsNumbered k (slots ++ p ∷ [])
append-IsNumbered k [] p h e = (e ∙ ap id_from_index (omega arith), tt)
append-IsNumbered k (q ∷ slots) p h e =
    (h.0, append-IsNumbered (suc k) slots p h.1 (e ∙ ap id_from_index (omega arith)))

-- below ten the identifier has one digit
id_small : (i : ℕ) → i < 8 → id_from_index i ≡ codes "P-" ++ ((b'1' + i) ∷ [])
unfolding id_from_index
id_small i h = ground arith

pub id_other :
    (i j : ℕ) → i < 8 → j < 8 → i ≢ j → str_eq (id_from_index i) (id_from_index j) ≡ false
unfolding str_eq
id_other i j hi hj ne = rw (id_small i hi, id_small j hj) (ground arith)

pub id_not_link : (i : ℕ) → i < 8 → str_eq (id_from_index i) link_proposal_id ≡ false
unfolding str_eq
id_not_link i h = rw (id_small i h) refl

found_rest :
    (b : Bool) (r : Option ℕ) (i : ℕ)
    → b ≡ false
    → r ≡ some i
    → (if b then some 0 else elim r [ none ↦ none | some n ↦ some (suc n) ]) ≡ some (suc i)
found_rest true r i e h = cc
found_rest false none i e h = cc
found_rest false (some n) i e h = ground arith

find_from :
    (k : ℕ) (slots : List ProposalSlot) (i : ℕ)
    → IsNumbered k slots
    → k + length slots ≤ 8
    → i < length slots
    → find_by_id slots (id_from_index (k + i)) ≡ some i
unfolding find_by_id
find_from k [] i h room lt = absurd (omega arith)
find_from k (p ∷ slots) zero h room lt =
    let same : str_eq p.proposal_id (id_from_index (k + 0)) ≡ true =
      (str_eq_iff _ _).1 (h.0 ∙ ap id_from_index (omega arith)) in
    rw same refl
find_from k (p ∷ slots) (suc i) h room lt =
    found_rest _ _ i
      (ap (λ x. str_eq x (id_from_index (k + suc i))) h.0
        ∙ id_other k (k + suc i) (omega arith) (omega arith) (omega arith))
      (ap (λ x. find_by_id slots (id_from_index x)) (omega arith)
        ∙ find_from (suc k) slots i h.1 (omega arith) (omega arith))

-- In a table each identifier finds the slot that has it.
pub find_by_id-table :
    (slots : List ProposalSlot) (i : ℕ)
    → IsTable slots
    → i < length slots
    → find_by_id slots (id_from_index i) ≡ some i
find_by_id-table slots i t lt =
    ap (λ x. find_by_id slots (id_from_index x)) (omega arith)
    ∙ find_from 0 slots i t.numbered (omega (arith, t.room)) lt

suc_same : (j i : ℕ) → (j == i) ≡ (suc j == suc i)
suc_same j i = ground arith

suc_other : (j : ℕ) → (suc j == 0) ≡ false
suc_other j = ground arith

other_suc : (i : ℕ) → (0 == suc i) ≡ false
other_suc i = ground arith

-- A status that is written is read back, and the others stay.
pub status_at-set_status :
    (slots : List ProposalSlot) (i j : ℕ) (status : Bytes)
    → i < length slots
    → status_at (set_status slots i status) j ≡ (if j == i then some status else status_at slots j)
unfolding set_status status_at
status_at-set_status [] i j status lt = absurd (omega arith)
status_at-set_status (p ∷ slots) zero zero status lt = refl
status_at-set_status (p ∷ slots) zero (suc j) status lt =
    ap (λ (b : Bool). if b then some status else status_at slots j) (sym (suc_other j))
status_at-set_status (p ∷ slots) (suc i) zero status lt =
    ap (λ (b : Bool). if b then some status else some p.status) (sym (other_suc i))
status_at-set_status (p ∷ slots) (suc i) (suc j) status lt =
    status_at-set_status slots i j status (omega arith)
    ∙ ap (λ (b : Bool). if b then some status else status_at slots j) (suc_same j i)

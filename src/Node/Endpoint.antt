-- ===== src/Node/Endpoint.antt =====
-- What kernel/node_core.c asks of the C library, and `parse_endpoint`.
use vita_os.Prelude.{ℕ, Option, none, some, [], ◌∷◌, leb, ltb, ◌==◌, if◌then◌else◌, take}
use vita_os.Text.{Bytes}

pub data ℤ : Type 0 where
  pos negsuc : ℕ → ℤ

-- `inet_aton` gives the address, and `atoi` the number.
pub record Network : Type 0 where
  pub inet_aton : Bytes → Option ℕ
  pub atoi : Bytes → ℤ

-- what stands before and behind the first colon
split_colon : Bytes → Option (Bytes × Bytes)
split_colon [] = none
split_colon (c ∷ s) =
    let rest = split_colon s in
    if c == b':'
    then some ([], s)
    else elim rest [ none ↦ none | some (before, after) ↦ some (c ∷ before, after) ]

-- `port <= 0 || port > 65535` is refused
port_number : ℤ → Option ℕ
port_number (pos n) = if leb n 0 then none else if ltb 65535 n then none else some n
port_number (negsuc n) = none

endpoint : Option ℕ → Option ℕ → Option (ℕ × ℕ)
endpoint (some port) (some address) = some (address, port)
endpoint _ _ = none

-- the address and the port
pub parse_endpoint : Network → Bytes → Option (ℕ × ℕ)
unfolding split_colon port_number endpoint
parse_endpoint net text = elim (split_colon text) [
  | none ↦ none
  | some (before, after) ↦ endpoint (port_number (net.atoi after)) (net.inet_aton (take 63 before))
]

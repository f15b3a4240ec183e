-- ===== src/Sha256/Reference.antt =====
-- SHA-256 of a whole message, as FIPS 180-4 describes it: pad the message to full blocks, then fold
-- the block transform over them. No buffer and no running length. The transform is the code's own.
use vita_os.Prelude.{
  ℕ, zero, suc, ◌-◌, ◌*◌, ◌/◌, ◌%◌, ◌^◌, [], ◌∷◌, ◌++◌, length, take, drop, replicate,
}
use vita_os.Text.{Bytes}
use vita_os.Sha256.{Words, initial_state, sha256_transform, digest_bytes}

-- a 64-bit number, the most significant byte first
unfoldable pub be64 : ℕ → Bytes
be64 n =
    n / 2 ^ 56 % 256
    ∷ n / 2 ^ 48 % 256
    ∷ n / 2 ^ 40 % 256
    ∷ n / 2 ^ 32 % 256
    ∷ n / 2 ^ 24 % 256
    ∷ n / 2 ^ 16 % 256
    ∷ n / 2 ^ 8 % 256
    ∷ n % 256
    ∷ []

-- The least number of zeros after which eight bytes complete a block.
abbrev pub pad_zeros : ℕ → ℕ
pad_zeros n = (119 - n % 64) % 64

abbrev pub pad : Bytes → Bytes
pad m = m ++ (0x80 ∷ (replicate (pad_zeros (length m)) 0 ++ be64 (8 * length m % 2 ^ 64)))

unfoldable pub fold_blocks : ℕ → Words → Bytes → Words
fold_blocks zero state m = state
fold_blocks (suc n) state m = fold_blocks n (sha256_transform state (take 64 m)) (drop 64 m)

unfoldable pub reference : Bytes → Bytes
unfolding fold_blocks
reference m = digest_bytes (fold_blocks (length (pad m) / 64) initial_state (pad m))

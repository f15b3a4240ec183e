-- ===== src/Sha256/Hex.antt =====
-- The hexadecimal digest.
use vita_os.Prelude.{◌*◌, ◌/◌, ◌≡◌, [], ◌∷◌, refl, ap, arith, length}
use vita_os.Text.{Bytes}
use vita_os.Sha256.{Words, initial_state, hex_bytes, hash_hex, digest_bytes}
use vita_os.Sha256.Reference.{reference, pad, fold_blocks}
use vita_os.Sha256.Final.{sha256-reference}

-- the hexadecimal digest of the reference
unfoldable pub reference_hex : Bytes → Bytes
unfolding hex_bytes
reference_hex message = hex_bytes (reference message)

length-hex_bytes : (s : Bytes) → length (hex_bytes s) ≡ 2 * length s
unfolding hex_bytes
length-hex_bytes [] = omega arith
length-hex_bytes (byte ∷ s) = omega (arith, length-hex_bytes s)

length-digest_bytes : (w : Words) → length (digest_bytes w) ≡ 32
unfolding digest_bytes
length-digest_bytes w = refl

pub length-reference_hex : (message : Bytes) → length (reference_hex message) ≡ 64
unfolding reference_hex reference
length-reference_hex message = omega (
  arith,
  length-hex_bytes (reference message),
  length-digest_bytes (fold_blocks (length (pad message) / 64) initial_state (pad message)),
)

-- With a buffer of 64 bytes of any content, the streaming `hash_hex` is the hexadecimal text of the
-- digest of the whole payload: padded to full blocks at once, with the block transform folded over
-- them.
pub hash_hex-reference :
    (stale payload : Bytes) → length stale ≡ 64 → hash_hex stale payload ≡ reference_hex payload
unfolding hash_hex reference_hex
hash_hex-reference stale payload h = ap hex_bytes (sha256-reference stale payload h)

-- ===== src/Tests/Digest.antt =====
-- Known digests.
use vita_os.Prelude.{◌≡◌, refl, codes, replicate}
use vita_os.Sha256.{hash_hex}
use vita_os.Sha256.Hex.{reference_hex, hash_hex-reference}

abc_digest :
    hash_hex (replicate 64 7) (codes "abc")
    ≡ codes "ba7816bf8f01cfea414140de5dae2223b00361a396177a9cb410ff61f20015ad"
unfolding hash_hex
abc_digest = refl

-- a message whose padding takes a block of its own
two_block_digest :
    hash_hex (replicate 64 1) (codes "abcdbcdecdefdefgefghfghighijhijkijkljklmklmnlmnomnopnopq")
    ≡ codes "248d6a61d20638b8e5c026930c3e6039a33ce45964ff2167f6ecedd419db06c1"
unfolding hash_hex
two_block_digest = refl

hash_hex-reference_example : hash_hex (replicate 64 7) (codes "abc") ≡ reference_hex (codes "abc")
hash_hex-reference_example = hash_hex-reference (replicate 64 7) (codes "abc") refl

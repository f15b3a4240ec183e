-- ===== src/Sha256.antt =====
-- SHA-256 as kernel/audit_core.c computes it for the audit hash chain: the block transform, and the
-- incremental context with its 64-byte buffer.
pub mod Reference
pub mod Stream
pub mod Final
pub mod Hex
use vita_os.Prelude.{
  ℕ, zero, suc, ◌+◌, ◌-◌, ◌*◌, ◌/◌, ◌%◌, ◌^◌, bit_and, bit_or, bit_xor, List, [], ◌∷◌, ◌++◌, codes,
  get_or, set, ltb, ◌==◌, if◌then◌else◌,
}
use vita_os.Text.{Bytes}

-- the eight words of `state`, also the variables `a` to `h` of the rounds
pub record Words : Type 0 where
  pub a : ℕ
  pub b : ℕ
  pub c : ℕ
  pub d : ℕ
  pub e : ℕ
  pub f : ℕ
  pub g : ℕ
  pub h : ℕ

-- `sha256_ctx_t`; `data` is `buffer` here
pub record Sha256Ctx : Type 0 where
  pub buffer : Bytes
  pub datalen : ℕ
  pub bitlen : ℕ
  pub state : Words

abbrev u32 : ℕ → ℕ
u32 x = x % 2 ^ 32

abbrev shr : ℕ → ℕ → ℕ
shr x n = x / 2 ^ n

rotr : ℕ → ℕ → ℕ
rotr x n = bit_or (shr x n) (u32 (x * 2 ^ (32 - n)))

-- `~x` on 32 bits
complement : ℕ → ℕ
complement x = 2 ^ 32 - 1 - x

ch : ℕ → ℕ → ℕ → ℕ
unfolding complement
ch x y z = bit_xor (bit_and x y) (bit_and (complement x) z)

maj : ℕ → ℕ → ℕ → ℕ
maj x y z = bit_xor (bit_xor (bit_and x y) (bit_and x z)) (bit_and y z)

ep0 : ℕ → ℕ
unfolding rotr
ep0 x = bit_xor (bit_xor (rotr x 2) (rotr x 13)) (rotr x 22)

ep1 : ℕ → ℕ
unfolding rotr
ep1 x = bit_xor (bit_xor (rotr x 6) (rotr x 11)) (rotr x 25)

sig0 : ℕ → ℕ
unfolding rotr
sig0 x = bit_xor (bit_xor (rotr x 7) (rotr x 18)) (shr x 3)

sig1 : ℕ → ℕ
unfolding rotr
sig1 x = bit_xor (bit_xor (rotr x 17) (rotr x 19)) (shr x 10)

ktab : List ℕ
ktab =
    0x428a2f98 ∷ 0x71374491 ∷ 0xb5c0fbcf ∷ 0xe9b5dba5 ∷ 0x3956c25b ∷ 0x59f111f1 ∷ 0x923f82a4
    ∷ 0xab1c5ed5 ∷ 0xd807aa98 ∷ 0x12835b01 ∷ 0x243185be ∷ 0x550c7dc3 ∷ 0x72be5d74 ∷ 0x80deb1fe
    ∷ 0x9bdc06a7 ∷ 0xc19bf174 ∷ 0xe49b69c1 ∷ 0xefbe4786 ∷ 0x0fc19dc6 ∷ 0x240ca1cc ∷ 0x2de92c6f
    ∷ 0x4a7484aa ∷ 0x5cb0a9dc ∷ 0x76f988da ∷ 0x983e5152 ∷ 0xa831c66d ∷ 0xb00327c8 ∷ 0xbf597fc7
    ∷ 0xc6e00bf3 ∷ 0xd5a79147 ∷ 0x06ca6351 ∷ 0x14292967 ∷ 0x27b70a85 ∷ 0x2e1b2138 ∷ 0x4d2c6dfc
    ∷ 0x53380d13 ∷ 0x650a7354 ∷ 0x766a0abb ∷ 0x81c2c92e ∷ 0x92722c85 ∷ 0xa2bfe8a1 ∷ 0xa81a664b
    ∷ 0xc24b8b70 ∷ 0xc76c51a3 ∷ 0xd192e819 ∷ 0xd6990624 ∷ 0xf40e3585 ∷ 0x106aa070 ∷ 0x19a4c116
    ∷ 0x1e376c08 ∷ 0x2748774c ∷ 0x34b0bcb5 ∷ 0x391c0cb3 ∷ 0x4ed8aa4a ∷ 0x5b9cca4f ∷ 0x682e6ff3
    ∷ 0x748f82ee ∷ 0x78a5636f ∷ 0x84c87814 ∷ 0x8cc70208 ∷ 0x90befffa ∷ 0xa4506ceb ∷ 0xbef9a3f7
    ∷ 0xc67178f2 ∷ []

-- `m[0]` to `m[15]`: big-endian words of the block, for the rounds left
load_words : ℕ → Bytes → List ℕ
load_words zero s = []
load_words (suc n) (b0 ∷ b1 ∷ b2 ∷ b3 ∷ s) =
    bit_or (bit_or (bit_or (u32 (b0 * 2 ^ 24)) (b1 * 2 ^ 16)) (b2 * 2 ^ 8)) b3 ∷ load_words n s
load_words (suc n) _ = []

-- `m[16]` to `m[63]`, each behind those before it
expand_words : ℕ → ℕ → List ℕ → List ℕ
unfolding sig0 sig1
expand_words zero i m = m
expand_words (suc n) i m =
    let w = u32 (
      sig1 (get_or m (i - 2) 0)
      + get_or m (i - 7) 0
      + sig0 (get_or m (i - 15) 0)
      + get_or m (i - 16) 0) in
    expand_words n (i + 1) (m ++ w ∷ [])

round : ℕ → ℕ → Words → Words
unfolding ep0 ep1 ch maj
round k m w =
    let t1 = u32 (w.h + ep1 w.e + ch w.e w.f w.g + k + m) in
    let t2 = u32 (ep0 w.a + maj w.a w.b w.c) in
    record {
      a = u32 (t1 + t2);
      b = w.a;
      c = w.b;
      d = w.c;
      e = u32 (w.d + t1);
      f = w.e;
      g = w.f;
      h = w.g;
    }

-- the loop over `ktab[i]` and `m[i]`
rounds : List ℕ → List ℕ → Words → Words
unfolding round
rounds (k ∷ ks) (m ∷ ms) w = rounds ks ms (round k m w)
rounds _ _ w = w

add_words : Words → Words → Words
add_words s w = record {
  a = u32 (s.a + w.a);
  b = u32 (s.b + w.b);
  c = u32 (s.c + w.c);
  d = u32 (s.d + w.d);
  e = u32 (s.e + w.e);
  f = u32 (s.f + w.f);
  g = u32 (s.g + w.g);
  h = u32 (s.h + w.h);
}

-- `sha256_transform`: the new `state`
pub sha256_transform : Words → Bytes → Words
unfolding ktab load_words expand_words rounds add_words
sha256_transform state block =
    add_words state (rounds ktab (expand_words 48 16 (load_words 16 block)) state)

abbrev pub initial_state : Words
initial_state = record {
  a = 0x6a09e667;
  b = 0xbb67ae85;
  c = 0x3c6ef372;
  d = 0xa54ff53a;
  e = 0x510e527f;
  f = 0x9b05688c;
  g = 0x1f83d9ab;
  h = 0x5be0cd19;
}

-- `sha256_init` leaves the buffer as the stack had it: that content is an argument.
pub sha256_init : Bytes → Sha256Ctx
sha256_init stale = record { buffer = stale; datalen = 0; bitlen = 0; state = initial_state }

-- `sha256_transform(ctx, ctx->data)`
abbrev transform_buffer : Sha256Ctx → Sha256Ctx
transform_buffer ctx = record ctx { state = sha256_transform ctx.state ctx.buffer }

update_byte : Sha256Ctx → ℕ → Sha256Ctx
update_byte ctx byte =
    let buffer' = set ctx.buffer ctx.datalen byte in
    if ctx.datalen + 1 == 64
    then record ctx {
      buffer = buffer';
      state = sha256_transform ctx.state buffer';
      bitlen = (ctx.bitlen + 512) % 2 ^ 64;
      datalen = 0;
    }
    else record ctx { buffer = buffer'; datalen = ctx.datalen + 1 }

pub sha256_update : Sha256Ctx → Bytes → Sha256Ctx
unfolding update_byte
sha256_update ctx [] = ctx
sha256_update ctx (byte ∷ rest) = sha256_update (update_byte ctx byte) rest

-- `while (i < end) data[i++] = 0x00`, for the rounds left
zero_fill : ℕ → ℕ → Bytes → Bytes
zero_fill zero i s = s
zero_fill (suc n) i s = zero_fill n (i + 1) (set s i 0)

-- the stores of `bitlen` into `data[63]` down to `data[56]`
store_bitlen : ℕ → Bytes → Bytes
store_bitlen n s =
    let s63 = set s 63 (n % 256) in
    let s62 = set s63 62 (n / 2 ^ 8 % 256) in
    let s61 = set s62 61 (n / 2 ^ 16 % 256) in
    let s60 = set s61 60 (n / 2 ^ 24 % 256) in
    let s59 = set s60 59 (n / 2 ^ 32 % 256) in
    let s58 = set s59 58 (n / 2 ^ 40 % 256) in
    let s57 = set s58 57 (n / 2 ^ 48 % 256) in set s57 56 (n / 2 ^ 56 % 256)

-- `sha256_final` up to the length: the padding, in one block or in two
pad_buffer : Sha256Ctx → Sha256Ctx
pad_buffer ctx =
    let marked = set ctx.buffer ctx.datalen 0x80 in
    if ltb ctx.datalen 56
    then record ctx { buffer = zero_fill (56 - (ctx.datalen + 1)) (ctx.datalen + 1) marked }
    else let full = zero_fill (64 - (ctx.datalen + 1)) (ctx.datalen + 1) marked in
      record ctx { buffer = zero_fill 56 0 full; state = sha256_transform ctx.state full }

-- the four bytes of one word of `state`
word_bytes : ℕ → Bytes
word_bytes s = s / 2 ^ 24 % 256 ∷ s / 2 ^ 16 % 256 ∷ s / 2 ^ 8 % 256 ∷ s % 256 ∷ []

pub digest_bytes : Words → Bytes
unfolding word_bytes
digest_bytes s =
    word_bytes s.a
    ++ (word_bytes s.b
        ++ (word_bytes s.c
            ++ (word_bytes s.d
                ++ (word_bytes s.e ++ (word_bytes s.f ++ (word_bytes s.g ++ word_bytes s.h))))))

pub sha256_final : Sha256Ctx → Bytes
sha256_final ctx =
    let padded = pad_buffer ctx in
    let bits = (ctx.bitlen + ctx.datalen * 8) % 2 ^ 64 in
    digest_bytes (sha256_transform padded.state (store_bitlen bits padded.buffer))

-- the three calls that `hash_hex` makes, over a buffer of unknown content
pub sha256 : Bytes → Bytes → Bytes
unfolding sha256_init sha256_update sha256_final
sha256 stale message = sha256_final (sha256_update (sha256_init stale) message)

-- `hex[n]`, in the table of `hash_hex`
hex_digit : ℕ → ℕ
hex_digit n = get_or (codes "0123456789abcdef") n 0

hex_bytes : Bytes → Bytes
unfolding hex_digit
hex_bytes [] = []
hex_bytes (byte ∷ rest) = hex_digit (byte / 16 % 16) ∷ hex_digit (byte % 16) ∷ hex_bytes rest

unfoldable pub hash_hex : Bytes → Bytes → Bytes
unfolding sha256 sha256_final hex_bytes pad_buffer store_bitlen zero_fill sha256_transform
    digest_bytes
hash_hex stale payload = hex_bytes (sha256 stale payload)

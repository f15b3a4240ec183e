-- ===== src/Sha256/Stream.antt =====
-- The incremental context computes the digest of the whole padded message.
use vita_os.Prelude.{
  ℕ, zero, suc, ◌+◌, ◌*◌, ◌%◌, ◌^◌, ◌≤◌, ◌<◌, ◌≡◌, refl, sym, ap, ◌∙◌, inl, inr, arith, [], ◌∷◌,
  ◌++◌, append_assoc, append-nil, length, drop, set, set-append, length-append, ◌==◌, ◌≢◌,
  Bool-cases, take_all, take-append_le, drop-append_le, length-drop, nil_of_length,
}
use vita_os.Text.{Bytes}
use vita_os.Sha256.{
  Words, Sha256Ctx, initial_state, sha256_transform, sha256_init, update_byte, sha256_update,
}
use vita_os.Sha256.Reference.{fold_blocks}

-- Blocks are folded from the left.
pub fold_blocks-append :
    (n k : ℕ) (state : Words) (a b : Bytes)
    → length a ≡ 64 * n
    → fold_blocks (n + k) state (a ++ b) ≡ fold_blocks k (fold_blocks n state a) b
unfolding fold_blocks
fold_blocks-append zero k state a b h =
    let e : 0 + k ≡ k = omega arith in rw (nil_of_length a (omega arith), e)
fold_blocks-append (suc n) k state a b h =
    let e : suc n + k ≡ suc (n + k) = omega arith in
    let long : 64 ≤ length a = omega arith in
    rw e (
      (λ i.
        fold_blocks (n + k) (sha256_transform state (take-append_le 64 a b long i))
          (drop-append_le 64 a b long i))
      ∙ fold_blocks-append n k _ (drop 64 a) b (omega (arith, length-drop 64 a)))

pub fold_one :
    (state : Words) (a : Bytes) → length a ≡ 64 → fold_blocks 1 state a ≡ sha256_transform state a
unfolding fold_blocks
fold_one state a h = rw (take_all 64 a (omega arith))

-- One more block.
pub fold_snoc :
    (n : ℕ) (state : Words) (a b : Bytes)
    → length a ≡ 64 * n
    → length b ≡ 64
    → fold_blocks (n + 1) state (a ++ b) ≡ sha256_transform (fold_blocks n state a) b
fold_snoc n state a b h k = fold_blocks-append n 1 state a b h ∙ fold_one _ b k

-- What the context holds after the bytes `m`: full blocks went into `state`, and the rest stands in
-- the buffer before stale bytes.
pub record Absorbed (m : Bytes) (ctx : Sha256Ctx) : Type 0 where
  pub blocks : ℕ
  pub consumed : Bytes
  pub rest : Bytes
  pub stale : Bytes
  pub splits : m ≡ consumed ++ rest
  pub whole : length consumed ≡ 64 * blocks
  pub buffer_is : ctx.buffer ≡ rest ++ stale
  pub size : length rest + length stale ≡ 64
  pub partial : length rest < 64
  pub datalen_is : ctx.datalen ≡ length rest
  pub bitlen_is : ctx.bitlen ≡ 512 * blocks % 2 ^ 64
  pub state_is : ctx.state ≡ fold_blocks blocks initial_state consumed

pub Absorbed-init : (s : Bytes) → length s ≡ 64 → Absorbed [] (sha256_init s)
unfolding sha256_init fold_blocks
Absorbed-init s h = record {
  blocks = 0;
  consumed = [];
  rest = [];
  stale = s;
  splits = refl;
  whole = omega arith;
  buffer_is = refl;
  size = omega arith;
  partial = omega arith;
  datalen_is = refl;
  bitlen_is = omega arith;
  state_is = refl;
}

-- A write at the end of the rest.
set_rest :
    (rest stale : Bytes) (byte : ℕ)
    → 0 < length stale
    → set (rest ++ stale) (length rest) byte ≡ (rest ++ byte ∷ []) ++ drop 1 stale
set_rest rest [] byte h = absurd (omega arith)
set_rest rest (s ∷ ss) byte h =
    set-append rest (s ∷ ss) (length rest) 0 byte (omega arith)
    ∙ sym (append_assoc rest (byte ∷ []) ss)

module _ (m : Bytes) (ctx : Sha256Ctx) (inv : Absorbed m ctx) (byte : ℕ) where
  open inv use {blocks, consumed, rest, stale}

  pub buffer_write : set ctx.buffer ctx.datalen byte ≡ (rest ++ byte ∷ []) ++ drop 1 stale
  buffer_write =
      rw (inv.buffer_is, inv.datalen_is)
        (set_rest rest stale byte (omega (arith, inv.size, inv.partial)))

  splits_more : m ++ byte ∷ [] ≡ consumed ++ (rest ++ byte ∷ [])
  splits_more = rw inv.splits (append_assoc consumed rest (byte ∷ []))

  Absorbed-full :
      ctx.datalen + 1 ≡ 64
      → Absorbed (m ++ byte ∷ []) (record ctx {
        buffer = set ctx.buffer ctx.datalen byte;
        state = sha256_transform ctx.state (set ctx.buffer ctx.datalen byte);
        bitlen = (ctx.bitlen + 512) % 2 ^ 64;
        datalen = 0;
      })
  Absorbed-full full =
      let block = rest ++ byte ∷ [] in
      let long : length block ≡ 64 =
        omega (arith, length-append rest (byte ∷ []), inv.datalen_is) in
      let none_left : drop 1 stale ≡ [] =
        nil_of_length (drop 1 stale)
          (omega (arith, length-drop 1 stale, inv.size, inv.datalen_is)) in
      let written : set ctx.buffer ctx.datalen byte ≡ block =
        buffer_write ∙ ap (λ (t : Bytes). block ++ t) none_left ∙ append-nil block in
      record {
        blocks = blocks + 1;
        consumed = consumed ++ block;
        rest = [];
        stale = block;
        splits = splits_more ∙ sym (append-nil (consumed ++ block));
        whole = omega (arith, length-append consumed block, inv.whole);
        buffer_is = written;
        size = omega arith;
        partial = omega arith;
        datalen_is = refl;
        bitlen_is = omega (arith, inv.bitlen_is);
        state_is =
            rw (written, inv.state_is)
              (sym (fold_snoc blocks initial_state consumed block inv.whole long));
      }

  Absorbed-part :
      ctx.datalen + 1 ≢ 64
      → Absorbed
          (m ++ byte ∷ [])
          (record ctx { buffer = set ctx.buffer ctx.datalen byte; datalen = ctx.datalen + 1 })
  Absorbed-part part = record {
    blocks = blocks;
    consumed = consumed;
    rest = rest ++ byte ∷ [];
    stale = drop 1 stale;
    splits = splits_more;
    whole = inv.whole;
    buffer_is = buffer_write;
    size =
        omega (arith, length-append rest (byte ∷ []), length-drop 1 stale, inv.size, inv.partial);
    partial = omega (arith, length-append rest (byte ∷ []), inv.partial, inv.datalen_is);
    datalen_is = omega (arith, length-append rest (byte ∷ []), inv.datalen_is);
    bitlen_is = inv.bitlen_is;
    state_is = inv.state_is;
  }

  Absorbed-update_byte : Absorbed (m ++ byte ∷ []) (update_byte ctx byte)
  unfolding update_byte
  Absorbed-update_byte = elim (Bool-cases (ctx.datalen + 1 == 64)) [
    | inl full ↦ rw (full, update_byte) (Absorbed-full (ground arith))
    | inr part ↦ rw (part, update_byte) (Absorbed-part (ground arith))
  ]

pub Absorbed-sha256_update :
    (m more : Bytes) (ctx : Sha256Ctx)
    → Absorbed m ctx
    → Absorbed (m ++ more) (sha256_update ctx more)
unfolding sha256_update
Absorbed-sha256_update m [] ctx inv = rw append-nil inv
Absorbed-sha256_update m (byte ∷ more) ctx inv = rw (append_assoc m (byte ∷ []) more) at (
    Absorbed-sha256_update (m ++ byte ∷ []) more (update_byte ctx byte)
      (Absorbed-update_byte m ctx inv byte))

-- ===== src/Sha256/Final.antt =====
-- The padding that `sha256_final` writes into the buffer is that of the reference, in one block or
-- in two, whatever the buffer held.
use vita_os.Prelude.{
  ℕ, zero, suc, ◌+◌, ◌-◌, ◌*◌, ◌/◌, ◌%◌, ◌^◌, ◌≤◌, ◌<◌, ◌≡◌, refl, sym, ap, ◌∙◌, inl, inr, arith,
  [], ◌∷◌, ◌++◌, append_assoc, append-nil, length, drop, replicate, set, set-append, length-append,
  length-replicate, replicate-add, length-drop, nil_of_length, ltb, ltb→lt, ltb→le, lt→ltb, le→ltb,
  Bool-cases,
}
use vita_os.Text.{Bytes}
use vita_os.Sha256.{
  Words, Sha256Ctx, initial_state, sha256_transform, digest_bytes, sha256_init, zero_fill,
  store_bitlen, pad_buffer, sha256_final, sha256_update, sha256,
}
use vita_os.Sha256.Reference.{be64, pad_zeros, pad, reference}
use vita_os.Sha256.Stream.{Absorbed, Absorbed-init, Absorbed-sha256_update, buffer_write, fold_snoc}

-- Zeros written behind a prefix.
zero_fill_lem :
    (n i : ℕ) (p t : Bytes)
    → length p ≡ i
    → n ≤ length t
    → zero_fill n i (p ++ t) ≡ p ++ (replicate n 0 ++ drop n t)
unfolding zero_fill
zero_fill_lem zero i p t h k = refl
zero_fill_lem (suc n) i p [] h k = absurd (omega arith)
zero_fill_lem (suc n) i p (x ∷ t) h k =
    ap (zero_fill n (i + 1))
      (set-append p (x ∷ t) i 0 0 (omega arith) ∙ sym (append_assoc p (0 ∷ []) t))
    ∙ zero_fill_lem n (i + 1) (p ++ 0 ∷ []) t (omega (arith, length-append p (0 ∷ [])))
        (omega arith)
    ∙ append_assoc p (0 ∷ []) (replicate n 0 ++ drop n t)

-- Eight writes fill eight bytes.
set_eight :
    (n : ℕ) (t : Bytes)
    → length t ≡ 8
    → set
        (set
          (set
            (set
              (set
                (set (set (set t 7 (n % 256)) 6 (n / 2 ^ 8 % 256)) 5 (n / 2 ^ 16 % 256))
                4
                (n / 2 ^ 24 % 256))
              3
              (n / 2 ^ 32 % 256))
            2
            (n / 2 ^ 40 % 256))
          1
          (n / 2 ^ 48 % 256))
        0
        (n / 2 ^ 56 % 256)
      ≡ be64 n
unfolding be64
set_eight n (t0 ∷ t1 ∷ t2 ∷ t3 ∷ t4 ∷ t5 ∷ t6 ∷ t7 ∷ []) k = refl
set_eight n _ k = absurd (omega arith)

-- The length takes the last eight bytes.
store_bitlen_lem :
    (n : ℕ) (p t : Bytes) → length p ≡ 56 → length t ≡ 8 → store_bitlen n (p ++ t) ≡ p ++ be64 n
unfolding store_bitlen
store_bitlen_lem n p t h k =
    under _ _ 0 (
      under _ _ 1
        (under _ _ 2 (under _ _ 3 (under _ _ 4 (under _ _ 5 (under _ _ 6 (under _ _ 7 refl)))))))
    ∙ ap (λ (s : Bytes). p ++ s) (set_eight n t k)
  where
    under : {s : Bytes} (u : Bytes) (v j : ℕ) → s ≡ p ++ u → set s (56 + j) v ≡ p ++ set u j v
    under {s} u v j e =
        ap (λ (w : Bytes). set w (56 + j) v) e ∙ set-append p u (56 + j) j v (omega arith)

length-be64 : (n : ℕ) → length (be64 n) ≡ 8
unfolding be64
length-be64 n = refl

regroup : (a b c d : Bytes) → (a ++ (b ++ c)) ++ d ≡ (a ++ b) ++ (c ++ d)
regroup a b c d = simp append_assoc

module _ (m : Bytes) (ctx : Sha256Ctx) (inv : Absorbed m ctx) where
  open inv use {blocks, consumed, rest, stale}

  abbrev bits : ℕ
  bits = (ctx.bitlen + ctx.datalen * 8) % 2 ^ 64

  length_m : length m ≡ 64 * blocks + ctx.datalen
  length_m =
      omega (arith, inv.datalen_is, inv.whole, ap length inv.splits, length-append consumed rest)

  bits_lem : bits ≡ 8 * length m % 2 ^ 64
  bits_lem = omega (arith, inv.bitlen_is, length_m)

  -- the bytes in use, with the mark behind them
  abbrev marked : Bytes
  marked = rest ++ 0x80 ∷ []

  length-marked : length marked ≡ ctx.datalen + 1
  length-marked = omega (arith, length-append rest (0x80 ∷ []), inv.datalen_is)

  -- Zeros behind the mark, up to `end`.
  fill_lem :
      (n : ℕ)
      → n + ctx.datalen < 64
      → zero_fill n (ctx.datalen + 1) (set ctx.buffer ctx.datalen 0x80)
        ≡ (marked ++ replicate n 0) ++ drop n (drop 1 stale)
  fill_lem n h =
      ap (zero_fill n (ctx.datalen + 1)) (buffer_write m ctx inv 0x80)
      ∙ zero_fill_lem n (ctx.datalen + 1) marked (drop 1 stale) length-marked
          (omega (arith, length-drop 1 stale, inv.size, inv.datalen_is))
      ∙ sym (append_assoc marked (replicate n 0) (drop n (drop 1 stale)))

  pad_split :
      (z : ℕ)
      → z ≡ pad_zeros (length m)
      → pad m ≡ consumed ++ ((marked ++ replicate z 0) ++ be64 bits)
  pad_split z h =
      let e = sym h in
      let b = sym bits_lem in
      (λ i. inv.splits i ++ (0x80 ∷ (replicate (e i) 0 ++ be64 (b i)))) ∙ simp append_assoc

  reference_one :
      (block : Bytes)
      → pad m ≡ consumed ++ block
      → length block ≡ 64
      → reference m ≡ digest_bytes (sha256_transform ctx.state block)
  unfolding reference
  reference_one block e k =
      let n : length (pad m) / 64 ≡ blocks + 1 =
        omega (arith, ap length e, length-append consumed block, inv.whole) in
      rw (n, e, inv.state_is)
        (ap digest_bytes (fold_snoc blocks initial_state consumed block inv.whole k))

  reference_two :
      (block last : Bytes)
      → pad m ≡ consumed ++ (block ++ last)
      → length block ≡ 64
      → length last ≡ 64
      → reference m ≡ digest_bytes (sha256_transform (sha256_transform ctx.state block) last)
  unfolding reference
  reference_two block last e k l =
      let n : length (pad m) / 64 ≡ blocks + 1 + 1 = omega (
        arith,
        ap length e,
        length-append consumed (block ++ last),
        length-append block last,
        inv.whole,
      ) in
      let whole' : length (consumed ++ block) ≡ 64 * (blocks + 1) =
        omega (arith, length-append consumed block, inv.whole) in
      rw (n, e, ← append_assoc consumed block last, inv.state_is)
        (ap digest_bytes (
          fold_snoc (blocks + 1) initial_state (consumed ++ block) last whole' l
          ∙ ap (λ (w : Words). sha256_transform w last)
              (fold_snoc blocks initial_state consumed block inv.whole k)))

  -- The length fits behind the rest.
  final_one : ctx.datalen < 56 → sha256_final ctx ≡ reference m
  unfolding sha256_final pad_buffer
  final_one h =
      let n = 56 - (ctx.datalen + 1) in
      let body = marked ++ replicate n 0 in
      let long : length body ≡ 56 = omega (
        arith,
        length-append marked (replicate n 0),
        length-replicate {A = ℕ} n 0,
        length-marked,
      ) in
      let tail : length (drop n (drop 1 stale)) ≡ 8 =
        omega
          (arith, length-drop n (drop 1 stale), length-drop 1 stale, inv.size, inv.datalen_is) in
      let stored =
        ap (store_bitlen bits) (fill_lem n (omega arith))
        ∙ store_bitlen_lem bits body (drop n (drop 1 stale)) long tail in
      rw (lt→ltb _ _ h, pad_buffer)
        (ap (λ (s : Bytes). digest_bytes (sha256_transform ctx.state s)) stored
          ∙ sym (
              reference_one (body ++ be64 bits) (pad_split n (omega (arith, length_m)))
                (omega (arith, length-append body (be64 bits), length-be64 bits, long))))

  pad_two :
      56 ≤ ctx.datalen
      → pad m
        ≡ consumed
          ++ ((marked ++ replicate (64 - (ctx.datalen + 1)) 0) ++ (replicate 56 0 ++ be64 bits))
  pad_two h =
      let n = 64 - (ctx.datalen + 1) in
      pad_split (n + 56) (omega (arith, length_m, inv.partial, inv.datalen_is))
      ∙ ap (λ (z : Bytes). consumed ++ ((marked ++ z) ++ be64 bits)) (replicate-add n 56 0)
      ∙ ap (λ (t : Bytes). consumed ++ t)
          (regroup marked (replicate n 0) (replicate 56 0) (be64 bits))

  -- The length needs a block of its own.
  final_two : 56 ≤ ctx.datalen → sha256_final ctx ≡ reference m
  unfolding sha256_final pad_buffer
  final_two h =
      let n = 64 - (ctx.datalen + 1) in
      let body = marked ++ replicate n 0 in
      let last = replicate 56 0 ++ be64 bits in
      let long : length body ≡ 64 = omega (
        arith,
        length-append marked (replicate n 0),
        length-replicate {A = ℕ} n 0,
        length-marked,
        inv.partial,
        inv.datalen_is,
      ) in
      let full : zero_fill n (ctx.datalen + 1) (set ctx.buffer ctx.datalen 0x80) ≡ body =
        fill_lem n (omega (arith, inv.partial, inv.datalen_is))
        ∙ ap (λ (t : Bytes). body ++ t)
            (nil_of_length (drop n (drop 1 stale)) (
              omega (
                arith,
                length-drop n (drop 1 stale),
                length-drop 1 stale,
                inv.size,
                inv.datalen_is,
              )))
        ∙ append-nil body in
      let stored =
        ap (store_bitlen bits) (zero_fill_lem 56 0 [] body refl (omega (arith, long)))
        ∙ store_bitlen_lem bits (replicate 56 0) (drop 56 body) refl
            (omega (arith, length-drop 56 body, long)) in
      rw (le→ltb _ _ h, full)
        (ap (λ (s : Bytes). digest_bytes (sha256_transform (sha256_transform ctx.state body) s))
            stored
          ∙ sym (
              reference_two body last (pad_two h) long
                (omega (arith, length-append (replicate 56 0) (be64 bits), length-be64 bits))))

  sha256_final_lem : sha256_final ctx ≡ reference m
  sha256_final_lem = elim (Bool-cases (ltb ctx.datalen 56)) [
    | inl h ↦ final_one (ltb→lt _ _ h)
    | inr h ↦ final_two (ltb→le _ _ h)
  ]

-- The digest of the streaming code is the digest of the padded message, for any message and
-- whatever the buffer of the context held before.
pub sha256-reference :
    (stale message : Bytes) → length stale ≡ 64 → sha256 stale message ≡ reference message
unfolding sha256
sha256-reference stale message h =
    sha256_final_lem message (sha256_update (sha256_init stale) message)
      (Absorbed-sha256_update [] message (sha256_init stale) (Absorbed-init stale h))

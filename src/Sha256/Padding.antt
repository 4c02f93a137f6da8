-- ===== src/Sha256/Padding.antt =====
-- The padding that the last block of a digest in firmware/src/sha256_raw.c is given, as bytes fed to
-- the open block.
use rutgers_2026_e_ctf_desig.Prelude.{
  ℕ, zero, suc, ◌+◌, ◌-◌, ◌*◌, ◌%◌, ◌≤◌, ◌<◌, ◌≡◌, refl, sym, ap, ap₂, ◌∙◌, List, [], ◌∷◌, ◌++◌,
  append-nil, append_assoc, arith, Bytes, u64, ltb, inl, inr, Bool-cases, length, take, drop, set,
  replicate, splice, length-append, length-take, length-set, length-replicate, take_all, drop_all,
}
use rutgers_2026_e_ctf_desig.Sha256.{Ctx, ctx_final, zero_fill, digest_of, be64}
use rutgers_2026_e_ctf_desig.Sha256.Compress.{compress}
use rutgers_2026_e_ctf_desig.Sha256.Stream.{
  View, feed_all, view, IsOpen, feed_all-append, feed_all_block,
}

-- The zeros between the 0x80 byte and the length, behind a message of `n` bytes.
abbrev pub pad_zeros : ℕ → ℕ
pad_zeros n = (119 - n % 64) % 64

pub block_closed :
    (v : View) (t : Bytes)
    → length v.pending < 64
    → length v.pending + length t ≡ 64
    → feed_all v t ≡ record {
      chain = compress v.chain (v.pending ++ t);
      pending = [];
      bits = u64 (v.bits + 512);
    }
block_closed v t p e = ground (arith, feed_all_block v t, length-append v.pending t)

block_chain :
    (v : View) (t : Bytes)
    → length v.pending < 64
    → length v.pending + length t ≡ 64
    → (feed_all v t).chain ≡ compress v.chain (v.pending ++ t)
block_chain v t p e = ap (λ (w : View). w.chain) (block_closed v t p e)

take-set : (b : Bytes) (i x : ℕ) → i < length b → take (suc i) (set b i x) ≡ take i b ++ (x ∷ [])
take-set [] i x h = absurd (omega arith)
take-set (y ∷ ys) zero x h = refl
take-set (y ∷ ys) (suc i) x h = ap (λ r. y ∷ r) (take-set ys i x (omega arith))

-- One byte more of the open block, with whatever is put behind it.
take-push :
    (b : Bytes) (i x : ℕ) (more : Bytes)
    → i < length b
    → take (i + 1) (set b i x) ++ more ≡ take i b ++ (x ∷ more)
take-push b i x more h =
    ap (λ (n : ℕ). take n (set b i x) ++ more) {x = i + 1} {y = suc i} (omega arith)
    ∙ ap (λ (t : Bytes). t ++ more) (take-set b i x h)
    ∙ append_assoc (take i b) (x ∷ []) more

-- `zero_fill` writes zeros behind the open block.
record IsFilled (n : ℕ) (c r : Ctx) : Type 0 where
  chain : r.state ≡ c.state
  bits : r.length ≡ c.length
  ends : r.curlen ≡ c.curlen + n
  whole : length r.buf ≡ length c.buf
  filled : take (c.curlen + n) r.buf ≡ take c.curlen c.buf ++ replicate n 0

zero_fill-IsFilled : (n : ℕ) (c : Ctx) → c.curlen + n ≤ length c.buf → IsFilled n c (zero_fill n c)
unfolding zero_fill
zero_fill-IsFilled zero c h = record {
  chain = refl;
  bits = refl;
  ends = omega arith;
  whole = refl;
  filled =
      ap (λ (n : ℕ). take n c.buf) {x = c.curlen + 0} {y = c.curlen} (omega arith)
      ∙ sym (append-nil (take c.curlen c.buf));
}
zero_fill-IsFilled (suc n) c h =
    let c' : Ctx = record c { buf = set c.buf c.curlen 0; curlen = c.curlen + 1 } in
    let ih = zero_fill-IsFilled n c' (omega (arith, length-set c.buf c.curlen 0)) in
    record {
      chain = ih.chain;
      bits = ih.bits;
      ends = omega (arith, ih.ends);
      whole = ih.whole ∙ length-set c.buf c.curlen 0;
      filled =
          ap (λ (k : ℕ). take k (zero_fill n c').buf) {x = c.curlen + suc n} {y = c.curlen + 1 + n}
            (omega arith)
          ∙ ih.filled
          ∙ take-push c.buf c.curlen 0 (replicate n 0) (omega arith);
    }

pub be64-u64 : (n : ℕ) → be64 (u64 n) ≡ be64 n
be64-u64 n = ground arith

replicate-append : (n m : ℕ) (x : ℕ) → replicate n x ++ replicate m x ≡ replicate (n + m) x
replicate-append zero m x = ap (λ (k : ℕ). replicate k x) {x = m} {y = zero + m} (omega arith)
replicate-append (suc n) m x =
    ap (λ (r : Bytes). x ∷ r) (replicate-append n m x)
    ∙ ap (λ (k : ℕ). replicate k x) {x = suc (n + m)} {y = suc n + m} (omega arith)

-- What `ctx_final` feeds: the padding of the open block.
abbrev pub tail : ℕ → ℕ → Bytes
tail n bits = 0x80 ∷ (replicate (pad_zeros n) 0 ++ be64 bits)

-- The last block of `ctx_final`.
last_block :
    (c : Ctx)
    → length c.buf ≡ 64
    → c.curlen ≤ 56
    → let z = zero_fill (56 - c.curlen) c in
      compress z.state (splice z.buf 56 (be64 z.length))
      ≡ compress c.state (take c.curlen c.buf ++ (replicate (56 - c.curlen) 0 ++ be64 c.length))
last_block c w le =
    let f = zero_fill-IsFilled (56 - c.curlen) c (omega arith) in
    let z = zero_fill (56 - c.curlen) c in
    let zeros : Bytes = replicate (56 - c.curlen) 0 in
    ap₂ compress f.chain (
      ap (λ (k : ℕ). take k z.buf ++ (be64 z.length ++ drop 64 z.buf)) {x = 56}
        {y = c.curlen + (56 - c.curlen)} (omega arith)
      ∙ ap (λ (t : Bytes). t ++ (be64 z.length ++ drop 64 z.buf)) f.filled
      ∙ ap (λ (r : Bytes). (take c.curlen c.buf ++ zeros) ++ (be64 z.length ++ r))
          (drop_all 64 z.buf (omega (arith, f.whole)))
      ∙ ap (λ (n : ℕ). (take c.curlen c.buf ++ zeros) ++ be64 n) f.bits
      ∙ append_assoc (take c.curlen c.buf) zeros (be64 c.length))

-- The first bytes of the padding, written into the open block.
abbrev marked : Ctx → Ctx
marked c = record c {
  length = u64 (c.length + c.curlen * 8);
  buf = set c.buf c.curlen 0x80;
  curlen = c.curlen + 1;
}

abbrev digest_chain : Ctx → List ℕ
digest_chain c =
    let z = zero_fill (56 - c.curlen) c in compress z.state (splice z.buf 56 (be64 z.length))

unfoldable pub tail_chain : Ctx → List ℕ
tail_chain c = (feed_all (view c) (tail c.curlen (c.length + c.curlen * 8))).chain

-- The length fits behind the 0x80 byte.
short_pad : (c : Ctx) → IsOpen c → c.curlen < 56 → digest_chain (marked c) ≡ tail_chain c
unfolding tail_chain
short_pad c o h =
    last_block (marked c) (length-set c.buf c.curlen 0x80 ∙ o.whole) (omega arith)
    ∙ ap (λ (b : Bytes). compress c.state b)
        (take-push c.buf c.curlen 0x80
            (replicate (56 - (c.curlen + 1)) 0 ++ be64 (u64 (c.length + c.curlen * 8)))
            (omega (arith, o.whole))
          ∙ ap
              (λ (b : Bytes).
                take c.curlen c.buf ++ (0x80 ∷ (replicate (56 - (c.curlen + 1)) 0 ++ b)))
              (be64-u64 (c.length + c.curlen * 8))
          ∙ ap
              (λ (k : ℕ).
                take c.curlen c.buf ++ (0x80 ∷ (replicate k 0 ++ be64 (c.length + c.curlen * 8))))
              {x = 56 - (c.curlen + 1)} {y = pad_zeros c.curlen} (omega arith))
    ∙ sym (
        block_chain (view c) (tail c.curlen (c.length + c.curlen * 8))
          (omega (arith, length-take c.curlen c.buf))
          (omega (
            arith,
            length-take c.curlen c.buf,
            length-append (replicate (pad_zeros c.curlen) 0) (be64 (c.length + c.curlen * 8)),
            length-replicate {A = ℕ} (pad_zeros c.curlen) 0,
          )))

-- It does not, and a block of zeros holds it.
long_pad :
    (c : Ctx)
    → IsOpen c
    → 56 ≤ c.curlen
    → let f = zero_fill (64 - (c.curlen + 1)) (marked c) in
      digest_chain (record f { state = compress f.state f.buf; curlen = 0 }) ≡ tail_chain c
unfolding tail_chain
long_pad c o h =
    last_block (record z { state = compress z.state z.buf; curlen = 0 })
      (f.whole ∙ length-set c.buf c.curlen 0x80 ∙ o.whole) (omega arith)
    ∙ ap₂ (λ (s b : List ℕ). compress s (replicate 56 0 ++ b)) (ap₂ compress f.chain full)
        (ap be64 f.bits ∙ be64-u64 bits)
    ∙ sym (block_chain closed (replicate 56 0 ++ be64 bits) (omega arith) refl)
    ∙ ap (λ (v : View). (feed_all v (replicate 56 0 ++ be64 bits)).chain)
        (sym (
          block_closed (view c) (0x80 ∷ zeros) (omega (arith, length-take c.curlen c.buf)) (
            omega (
              arith,
              length-take c.curlen c.buf,
              length-replicate {A = ℕ} (64 - (c.curlen + 1)) 0,
              o.whole,
            ))))
    ∙ ap (λ (v : View). v.chain)
        (sym (feed_all-append (view c) (0x80 ∷ zeros) (replicate 56 0 ++ be64 bits)))
    ∙ ap (λ (t : Bytes). (feed_all (view c) (0x80 ∷ t)).chain) joined
  where
    z : Ctx
    z = zero_fill (64 - (c.curlen + 1)) (marked c)

    bits : ℕ
    bits = c.length + c.curlen * 8

    zeros : Bytes
    zeros = replicate (64 - (c.curlen + 1)) 0

    f : IsFilled (64 - (c.curlen + 1)) (marked c) z
    f =
        zero_fill-IsFilled (64 - (c.curlen + 1)) (marked c)
          (omega (arith, o.whole, o.room, length-set c.buf c.curlen 0x80))

    closed : View
    closed = record {
      chain = compress c.state (take c.curlen c.buf ++ (0x80 ∷ zeros));
      pending = [];
      bits = u64 (c.length + 512);
    }

    full : z.buf ≡ take c.curlen c.buf ++ (0x80 ∷ zeros)
    full =
        sym (take_all 64 z.buf (omega (arith, f.whole, length-set c.buf c.curlen 0x80, o.whole)))
        ∙ ap (λ (k : ℕ). take k z.buf) {x = 64} {y = c.curlen + 1 + (64 - (c.curlen + 1))}
            (omega (arith, o.room))
        ∙ f.filled
        ∙ take-push c.buf c.curlen 0x80 zeros (omega (arith, o.room, o.whole))

    joined : zeros ++ (replicate 56 0 ++ be64 bits) ≡ replicate (pad_zeros c.curlen) 0 ++ be64 bits
    joined =
        sym (append_assoc zeros (replicate 56 0) (be64 bits))
        ∙ ap (λ (r : Bytes). r ++ be64 bits) (replicate-append (64 - (c.curlen + 1)) 56 0)
        ∙ ap (λ (k : ℕ). replicate k 0 ++ be64 bits) {x = 64 - (c.curlen + 1) + 56}
            {y = pad_zeros c.curlen} (omega (arith, o.room, h))

pub ctx_final_lem : (c : Ctx) → IsOpen c → ctx_final c ≡ digest_of (tail_chain c)
unfolding ctx_final
ctx_final_lem c o = elim (Bool-cases (ltb 56 (c.curlen + 1))) [
  | inl long ↦ rw long (ap digest_of (long_pad c o (ground (arith, long))))
  | inr short ↦ rw short (ap digest_of (short_pad c o (ground (arith, short))))
]

-- ===== src/Sha256/Digest.antt =====
-- FIPS 180-4 padding as a function of the whole message, and the digest of firmware/src/sha256_raw.c
-- as that of the padded blocks.
use rutgers_2026_e_ctf_desig.Prelude.{
  ℕ, zero, suc, ◌+◌, ◌-◌, ◌*◌, ◌/◌, ◌%◌, ◌<◌, ◌≡◌, refl, sym, ap, ◌∙◌, List, [], ◌∷◌, ◌++◌, arith,
  Bytes, IsBytes, u64, length, take, drop, replicate, splice, length-append, length-take,
  length-drop, length-replicate, take-append-drop,
}
use rutgers_2026_e_ctf_desig.Sha256.{
  Ctx, ctx_init, ctx_update, ctx_final, open_pad, zero_fill, digest_of, be64, sha256_raw, blank,
}
use rutgers_2026_e_ctf_desig.Sha256.Compress.{compress, sha256_h0}
use rutgers_2026_e_ctf_desig.Sha256.Stream.{
  View, feed, feed_all, view, IsOpen, feed_all-append, feed_all_block, ctx_update_lem,
}
use rutgers_2026_e_ctf_desig.Sha256.Padding.{pad_zeros, tail, tail_chain, be64-u64, ctx_final_lem}

-- A message is followed by 0x80, so many zeros, and its length in bits.
abbrev pub pad_tail : Bytes → Bytes
pad_tail m = 0x80 ∷ (replicate (pad_zeros (length m)) 0 ++ be64 (length m * 8))

abbrev pub pad : Bytes → Bytes
pad m = m ++ pad_tail m

-- The padded message is a whole number of blocks.
length-pad : (m : Bytes) → length (pad m) ≡ length (pad m) / 64 * 64
length-pad m = omega (
  arith,
  length-append m (pad_tail m),
  length-append (replicate (pad_zeros (length m)) 0) (be64 (length m * 8)),
  length-replicate {A = ℕ} (pad_zeros (length m)) 0,
)

-- The chaining value behind `n` blocks.
unfoldable pub hash_blocks : ℕ → List ℕ → Bytes → List ℕ
hash_blocks zero s m = s
hash_blocks (suc n) s m = hash_blocks n (compress s (take 64 m)) (drop 64 m)

unfoldable pub sha256 : Bytes → Bytes
unfolding hash_blocks
sha256 m = digest_of (hash_blocks (length (pad m) / 64) sha256_h0 (pad m))

abbrev start : View
start = record { chain = sha256_h0; pending = []; bits = 0 }

block_fed :
    (v : View) (t : Bytes)
    → v.pending ≡ []
    → length t ≡ 64
    → feed_all v t ≡ record { chain = compress v.chain t; pending = []; bits = u64 (v.bits + 512) }
block_fed v t p e = ground (arith, feed_all_block v t)

-- Whole blocks, fed byte by byte.
feed_all_blocks :
    (n : ℕ) (v : View) (m : Bytes)
    → v.pending ≡ []
    → length m ≡ n * 64
    → ((feed_all v m).chain ≡ hash_blocks n v.chain m)
unfolding hash_blocks
feed_all_blocks zero v [] p e = unfold feed_all in refl
feed_all_blocks zero v (x ∷ xs) p e = absurd (omega arith)
feed_all_blocks (suc n) v m p e =
    ap (λ (x : Bytes). (feed_all v x).chain) (sym (take-append-drop 64 m))
    ∙ ap (λ (w : View). w.chain) (feed_all-append v (take 64 m) (drop 64 m))
    ∙ ap (λ (w : View). (feed_all w (drop 64 m)).chain)
        (block_fed v (take 64 m) p (omega (arith, length-take 64 m)))
    ∙ feed_all_blocks n next (drop 64 m) refl (omega (arith, length-drop 64 m))
  where
    next : View
    next = record { chain = compress v.chain (take 64 m); pending = []; bits = u64 (v.bits + 512) }

feed_bits :
    (v : View) (b : ℕ)
    → length v.pending < 64
    → (u64 ((feed v b).bits + length (feed v b).pending * 8)
        ≡ u64 (v.bits + length v.pending * 8 + 8))
      × (length (feed v b).pending ≡ (length v.pending + 1) % 64)
feed_bits v b h = ground (arith, length-append v.pending (b ∷ []))

-- The counter and the open block make up the length of what was fed.
bits_lem :
    (v : View) (m : Bytes)
    → length v.pending < 64
    → (u64 ((feed_all v m).bits + length (feed_all v m).pending * 8)
        ≡ u64 (v.bits + length v.pending * 8 + length m * 8))
      × (length (feed_all v m).pending ≡ (length v.pending + length m) % 64)
unfolding feed_all
bits_lem v [] h = (omega arith, omega arith)
bits_lem v (b ∷ bs) h =
    let v' : View = feed v b in
    let (counted, below) = feed_bits v b h in
    let ih = bits_lem v' bs (omega (arith, below)) in
    (omega (arith, ih.0, counted), omega (arith, ih.1, below))

-- The context of a message that was fed to a fresh one.
pub record Holds (c : Ctx) (m : Bytes) : Type 0 where
  pub opened : IsOpen c
  pub holds : view c ≡ feed_all start m

pub ctx_init-Holds : (c : Ctx) → length c.buf ≡ 64 → Holds (ctx_init c) []
unfolding ctx_init feed_all
ctx_init-Holds c h = record { opened = omega arith; holds = refl }

pub ctx_update-Holds : (c : Ctx) (m d : Bytes) → Holds c m → Holds (ctx_update c d) (m ++ d)
ctx_update-Holds c m d h = record {
  opened = (ctx_update_lem c d h.opened).0;
  holds =
      (ctx_update_lem c d h.opened).1
      ∙ ap (λ (v : View). feed_all v d) h.holds
      ∙ sym (feed_all-append start m d);
}

-- `ctx_final` returns the FIPS 180-4 digest of the message that the context holds.
pub ctx_final-Holds : (c : Ctx) (m : Bytes) → Holds c m → ctx_final c ≡ sha256 m
unfolding sha256 tail_chain
ctx_final-Holds c m h =
    ctx_final_lem c h.opened
    ∙ ap digest_of (
        ap (λ (t : Bytes). (feed_all (view c) t).chain) same_tail
        ∙ ap (λ (v : View). (feed_all v (pad_tail m)).chain) h.holds
        ∙ ap (λ (v : View). v.chain) (sym (feed_all-append start m (pad_tail m)))
        ∙ feed_all_blocks (length (pad m) / 64) start (pad m) refl (length-pad m))
  where
    sizes : (u64 (c.length + c.curlen * 8) ≡ u64 (length m * 8)) × (c.curlen ≡ length m % 64)
    sizes =
        let b = bits_lem start m (omega arith) in
        let e1 = ap (λ (v : View). v.bits) h.holds in
        let e2 = ap (λ (v : View). length v.pending) h.holds in
        let e3 = length-take c.curlen c.buf in
        (
          omega (arith, b.0, e1, e2, e3, h.opened.room, h.opened.whole),
          omega (arith, b.1, e2, e3, h.opened.room, h.opened.whole),
        )

    same_tail : tail c.curlen (c.length + c.curlen * 8) ≡ pad_tail m
    same_tail =
        ap (λ (n : ℕ). 0x80 ∷ (replicate n 0 ++ be64 (c.length + c.curlen * 8)))
          {x = pad_zeros c.curlen} {y = pad_zeros (length m)} (omega (arith, sizes.1))
        ∙ ap (λ (b : Bytes). 0x80 ∷ (replicate (pad_zeros (length m)) 0 ++ b))
            (sym (be64-u64 (c.length + c.curlen * 8)) ∙ ap be64 sizes.0 ∙ be64-u64 (length m * 8))

-- `sha256_raw` returns, for every message, the digest of FIPS 180-4 that is defined on the padded
-- message as a whole, block by block.
pub sha256_raw_lem : (m : Bytes) → sha256_raw m ≡ sha256 m
unfolding sha256_raw
sha256_raw_lem m =
    ctx_final-Holds (ctx_update (ctx_init blank) m) m
      (ctx_update-Holds (ctx_init blank) [] m (ctx_init-Holds blank refl))

length-compress : (s : List ℕ) (b : Bytes) → length (compress s b) ≡ 8
unfolding compress
length-compress s b = refl

length-hash_blocks :
    (n : ℕ) (s : List ℕ) (m : Bytes) → length s ≡ 8 → length (hash_blocks n s m) ≡ 8
unfolding hash_blocks
length-hash_blocks zero s m h = h
length-hash_blocks (suc n) s m h =
    length-hash_blocks n (compress s (take 64 m)) (drop 64 m) (length-compress s (take 64 m))

length-digest_of : (ws : List ℕ) → length (digest_of ws) ≡ length ws * 4
length-digest_of [] = refl
length-digest_of (w ∷ ws) = omega (arith, length-digest_of ws)

pub length-sha256 : (m : Bytes) → length (sha256 m) ≡ 32
unfolding sha256
length-sha256 m =
    length-digest_of _
    ∙ ap (λ (n : ℕ). n * 4) (length-hash_blocks (length (pad m) / 64) sha256_h0 (pad m) refl)

pub digest_of-IsBytes : (ws : List ℕ) → IsBytes (digest_of ws)
digest_of-IsBytes [] = tt
digest_of-IsBytes (w ∷ ws) =
    (omega arith, (omega arith, (omega arith, (omega arith, digest_of-IsBytes ws))))

pub ctx_final-IsBytes : (c : Ctx) → IsBytes (ctx_final c)
unfolding ctx_final
ctx_final-IsBytes c = digest_of-IsBytes _

pub length-ctx_final : (c : Ctx) → length (ctx_final c) ≡ 32
unfolding ctx_final
length-ctx_final c =
    let c1 = open_pad c in
    let z = zero_fill (56 - c1.curlen) c1 in
    let b = splice z.buf 56 (be64 z.length) in
    length-digest_of (compress z.state b) ∙ ap (λ (n : ℕ). n * 4) (length-compress z.state b)

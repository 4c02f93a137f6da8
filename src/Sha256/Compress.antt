-- ===== src/Sha256/Compress.antt =====
-- The block compression of firmware/src/sha256_raw.c: constants, message schedule and rounds.
use rutgers_2026_e_ctf_desig.Prelude.{
  ℕ, zero, suc, ◌+◌, ◌-◌, ◌*◌, ◌/◌, ◌^◌, bit_and, bit_or, bit_xor, List, [], ◌∷◌, ◌++◌, Bytes,
  byte_at, u32, get_or,
}

-- `ROTR32`
rotr32 : ℕ → ℕ → ℕ
rotr32 x n = bit_or (x / 2 ^ n) (u32 (x * 2 ^ (32 - n)))

abbrev pub sha256_h0 : List ℕ
sha256_h0 =
    0x6a09e667 ∷ 0xbb67ae85 ∷ 0x3c6ef372 ∷ 0xa54ff53a ∷ 0x510e527f ∷ 0x9b05688c ∷ 0x1f83d9ab
    ∷ 0x5be0cd19 ∷ []

abbrev sha256_k : List ℕ
sha256_k =
    0x428a2f98 ∷ 0x71374491 ∷ 0xb5c0fbcf ∷ 0xe9b5dba5 ∷ 0x3956c25b ∷ 0x59f111f1 ∷ 0x923f82a4
    ∷ 0xab1c5ed5 ∷ 0xd807aa98 ∷ 0x12835b01 ∷ 0x243185be ∷ 0x550c7dc3 ∷ 0x72be5d74 ∷ 0x80deb1fe
    ∷ 0x9bdc06a7 ∷ 0xc19bf174 ∷ 0xe49b69c1 ∷ 0xefbe4786 ∷ 0x0fc19dc6 ∷ 0x240ca1cc ∷ 0x2de92c6f
    ∷ 0x4a7484aa ∷ 0x5cb0a9dc ∷ 0x76f988da ∷ 0x983e5152 ∷ 0xa831c66d ∷ 0xb00327c8 ∷ 0xbf597fc7
    ∷ 0xc6e00bf3 ∷ 0xd5a79147 ∷ 0x06ca6351 ∷ 0x14292967 ∷ 0x27b70a85 ∷ 0x2e1b2138 ∷ 0x4d2c6dfc
    ∷ 0x53380d13 ∷ 0x650a7354 ∷ 0x766a0abb ∷ 0x81c2c92e ∷ 0x92722c85 ∷ 0xa2bfe8a1 ∷ 0xa81a664b
    ∷ 0xc24b8b70 ∷ 0xc76c51a3 ∷ 0xd192e819 ∷ 0xd6990624 ∷ 0xf40e3585 ∷ 0x106aa070 ∷ 0x19a4c116
    ∷ 0x1e376c08 ∷ 0x2748774c ∷ 0x34b0bcb5 ∷ 0x391c0cb3 ∷ 0x4ed8aa4a ∷ 0x5b9cca4f ∷ 0x682e6ff3
    ∷ 0x748f82ee ∷ 0x78a5636f ∷ 0x84c87814 ∷ 0x8cc70208 ∷ 0x90befffa ∷ 0xa4506ceb ∷ 0xbef9a3f7
    ∷ 0xc67178f2 ∷ []

-- `be32_load(block + i)`
be32_load : Bytes → ℕ → ℕ
be32_load b i =
    bit_or
      (bit_or (bit_or (byte_at b i * 2 ^ 24) (byte_at b (i + 1) * 2 ^ 16))
        (byte_at b (i + 2) * 2 ^ 8))
      (byte_at b (i + 3))

-- The first loop of the schedule: `W[0..16)`.
load_words : ℕ → ℕ → Bytes → List ℕ
load_words zero i block = []
load_words (suc n) i block = be32_load block (4 * i) ∷ load_words n (i + 1) block

-- The second loop, with `n` words left to append.
extend_words : ℕ → List ℕ → ℕ → List ℕ
extend_words zero w i = w
extend_words (suc n) w i =
    let w15 = get_or w (i - 15) 0 in
    let w2 = get_or w (i - 2) 0 in
    let s0 = bit_xor (bit_xor (rotr32 w15 7) (rotr32 w15 18)) (w15 / 2 ^ 3) in
    let s1 = bit_xor (bit_xor (rotr32 w2 17) (rotr32 w2 19)) (w2 / 2 ^ 10) in
    extend_words n (w ++ (u32 (get_or w (i - 16) 0 + s0 + get_or w (i - 7) 0 + s1) ∷ [])) (i + 1)

schedule : Bytes → List ℕ
schedule block = extend_words 48 (load_words 16 0 block) 16

-- The working variables `a` to `h`.
pub record Work : Type 0 where
  pub a : ℕ
  pub b : ℕ
  pub c : ℕ
  pub d : ℕ
  pub e : ℕ
  pub f : ℕ
  pub g : ℕ
  pub h : ℕ

round : ℕ → ℕ → Work → Work
round k w v =
    let s1 = bit_xor (bit_xor (rotr32 v.e 6) (rotr32 v.e 11)) (rotr32 v.e 25) in
    let ch = bit_xor (bit_and v.e v.f) (bit_and (2 ^ 32 - 1 - v.e) v.g) in
    let t1 = u32 (v.h + s1 + ch + k + w) in
    let s0 = bit_xor (bit_xor (rotr32 v.a 2) (rotr32 v.a 13)) (rotr32 v.a 22) in
    let maj = bit_xor (bit_xor (bit_and v.a v.b) (bit_and v.a v.c)) (bit_and v.b v.c) in
    let t2 = u32 (s0 + maj) in
    record {
      a = u32 (t1 + t2);
      b = v.a;
      c = v.b;
      d = v.c;
      e = u32 (v.d + t1);
      f = v.e;
      g = v.f;
      h = v.g;
    }

-- The 64 rounds, a constant and a schedule word each.
rounds : List ℕ → List ℕ → Work → Work
rounds [] ws v = v
rounds (k ∷ ks) [] v = v
rounds (k ∷ ks) (w ∷ ws) v = rounds ks ws (round k w v)

-- `sha256_compress` on the state words. The schedule is scratch memory that it clears again.
unfoldable pub compress : List ℕ → Bytes → List ℕ
unfolding rotr32 be32_load load_words extend_words schedule round rounds
compress s block =
    let v : Work = record {
      a = get_or s 0 0;
      b = get_or s 1 0;
      c = get_or s 2 0;
      d = get_or s 3 0;
      e = get_or s 4 0;
      f = get_or s 5 0;
      g = get_or s 6 0;
      h = get_or s 7 0;
    } in
    let r = rounds sha256_k (schedule block) v in
    u32 (v.a + r.a)
    ∷ u32 (v.b + r.b)
    ∷ u32 (v.c + r.c)
    ∷ u32 (v.d + r.d)
    ∷ u32 (v.e + r.e)
    ∷ u32 (v.f + r.f)
    ∷ u32 (v.g + r.g)
    ∷ u32 (v.h + r.h)
    ∷ []

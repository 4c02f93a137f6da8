-- ===== src/Sha256/Hmac.antt =====
-- HMAC-SHA-256 of firmware/src/sha256_raw.c, and RFC 2104.
use rutgers_2026_e_ctf_desig.Prelude.{
  ℕ, zero, suc, ◌-◌, ◌<◌, bit_xor, ◌≡◌, refl, ap, ap₂, ◌∙◌, Bool, true, false, [], ◌∷◌, ◌++◌, map,
  append-nil, append_assoc, arith, Bytes, IsBytes, ltb, ◌==◌, ==_iff, if◌then◌else◌, length,
  replicate, Bool-cases, inl, inr,
}
use rutgers_2026_e_ctf_desig.Sha256.{Ctx, ctx_init, ctx_update, ctx_final, blank, sha256_raw}
use rutgers_2026_e_ctf_desig.Sha256.Digest.{
  Holds, ctx_init-Holds, ctx_update-Holds, ctx_final-Holds, sha256, sha256_raw_lem, length-sha256,
  digest_of-IsBytes, ctx_final-IsBytes, length-ctx_final,
}

-- `hmac_sha256_raw_ctx_t`
pub record HmacCtx : Type 0 where
  pub inner : Ctx
  pub outer : Ctx

-- `g_hmac_pad` with the key in it: hashed if longer than a block, and zeros behind it.
key_block : Bytes → Bytes
unfolding sha256_raw
key_block key =
    if ltb 64 (length key)
    then sha256_raw key ++ replicate 32 0
    else key ++ replicate (64 - length key) 0

abbrev xor_all : ℕ → Bytes → Bytes
xor_all x = map (λ b. bit_xor b x)

-- `hmac_sha256_raw_init`. The second pad is made of the first: 0x36 ^ 0x5c is 0x6a.
unfoldable pub hmac_init : HmacCtx → Bytes → HmacCtx
unfolding key_block ctx_init ctx_update
hmac_init old key =
    let ipad = xor_all 0x36 (key_block key) in
    let opad = xor_all 0x6a ipad in
    record {
      inner = ctx_update (ctx_init old.inner) ipad;
      outer = ctx_update (ctx_init old.outer) opad;
    }

-- `hmac_sha256_raw_update`
unfoldable pub hmac_update : HmacCtx → Bytes → HmacCtx
unfolding ctx_update
hmac_update c d = record c { inner = ctx_update c.inner d }

-- `hmac_sha256_raw_final`
unfoldable pub hmac_final : HmacCtx → Bytes
unfolding ctx_update ctx_final
hmac_final c = ctx_final (ctx_update c.outer (ctx_final c.inner))

abbrev pub blank_hmac : HmacCtx
blank_hmac = record { inner = blank; outer = blank }

-- `hmac_sha256_raw`
unfoldable pub hmac_sha256_raw : Bytes → Bytes → Bytes
unfolding hmac_init hmac_update hmac_final
hmac_sha256_raw key msg = hmac_final (hmac_update (hmac_init blank_hmac key) msg)

-- RFC 2104: the key brought to the size of a block, and the two nested hashes.
unfoldable pub block_key : Bytes → Bytes
unfolding sha256
block_key key =
    if ltb 64 (length key)
    then sha256 key ++ replicate 32 0
    else key ++ replicate (64 - length key) 0

unfoldable pub hmac : Bytes → Bytes → Bytes
unfolding block_key sha256
hmac key msg = sha256 (xor_all 0x5c (block_key key) ++ sha256 (xor_all 0x36 (block_key key) ++ msg))

-- The two pads of a byte, by a table of the bytes below `top`.
pad_ok : ℕ → Bool
pad_ok b = bit_xor (bit_xor b 0x36) 0x6a == bit_xor b 0x5c

pad_table : ℕ → Bool
unfolding pad_ok
pad_table zero = true
pad_table (suc top) = let below = pad_table top in if pad_ok top then below else false

pad_table_lem : (b top : ℕ) → b < top → pad_table top ≡ true → pad_ok b ≡ true
unfolding pad_table
pad_table_lem b zero under full = absurd (omega arith)
pad_table_lem b (suc top) under full = ground (arith, full, pad_table_lem b top)

pad_table_full : pad_table 256 ≡ true
unfolding pad_table
pad_table_full = refl

pads_agree : (k : Bytes) → IsBytes k → xor_all 0x6a (xor_all 0x36 k) ≡ xor_all 0x5c k
unfolding pad_ok
pads_agree [] h = refl
pads_agree (b ∷ bs) h =
    ap₂ ◌∷◌ ((==_iff _ _).0 (pad_table_lem b 256 h.0 pad_table_full)) (pads_agree bs h.1)

pub IsBytes-append : (xs ys : Bytes) → IsBytes xs → IsBytes ys → IsBytes (xs ++ ys)
IsBytes-append [] ys hx hy = hy
IsBytes-append (x ∷ xs) ys hx hy = (hx.0, IsBytes-append xs ys hx.1 hy)

IsBytes-zeros : (n : ℕ) → IsBytes (replicate n 0)
IsBytes-zeros zero = tt
IsBytes-zeros (suc n) = (omega arith, IsBytes-zeros n)

pub sha256-IsBytes : (m : Bytes) → IsBytes (sha256 m)
unfolding sha256
sha256-IsBytes m = digest_of-IsBytes _

key_block_lem : (key : Bytes) → key_block key ≡ block_key key
unfolding key_block block_key
key_block_lem key =
    ap
      (λ (d : Bytes).
        if ltb 64 (length key) then d ++ replicate 32 0 else key ++ replicate (64 - length key) 0)
      (sha256_raw_lem key)

block_key-IsBytes : (key : Bytes) → IsBytes key → IsBytes (block_key key)
unfolding block_key
block_key-IsBytes key h = elim (Bool-cases (ltb 64 (length key))) [
  | inl long ↦ rw long (IsBytes-append (sha256 key) _ (sha256-IsBytes key) (IsBytes-zeros 32))
  | inr short ↦ rw short (IsBytes-append key _ h (IsBytes-zeros (64 - length key)))
]

-- What the two contexts hold.
pub record Keyed (c : HmacCtx) (key m : Bytes) : Type 0 where
  pub inner_holds : Holds c.inner (xor_all 0x36 (block_key key) ++ m)
  pub outer_holds : Holds c.outer (xor_all 0x5c (block_key key))

pub hmac_init-Keyed :
    (old : HmacCtx) (key : Bytes)
    → length old.inner.buf ≡ 64
    → length old.outer.buf ≡ 64
    → IsBytes key
    → Keyed (hmac_init old key) key []
unfolding hmac_init
hmac_init-Keyed old key hi ho bytes = record {
  inner_holds =
      rw (append-nil, ← key_block_lem key)
        (ctx_update-Holds (ctx_init old.inner) [] (xor_all 0x36 (key_block key))
          (ctx_init-Holds old.inner hi));
  outer_holds =
      rw (← pads_agree (block_key key) (block_key-IsBytes key bytes), ← key_block_lem key)
        (ctx_update-Holds (ctx_init old.outer) [] (xor_all 0x6a (xor_all 0x36 (key_block key)))
          (ctx_init-Holds old.outer ho));
}

pub hmac_update-Keyed :
    (c : HmacCtx) (key m d : Bytes) → Keyed c key m → Keyed (hmac_update c d) key (m ++ d)
unfolding hmac_update
hmac_update-Keyed c key m d k = record {
  inner_holds =
      rw (← append_assoc (xor_all 0x36 (block_key key)) m d)
        (ctx_update-Holds c.inner (xor_all 0x36 (block_key key) ++ m) d k.inner_holds);
  outer_holds = k.outer_holds;
}

pub hmac_final-Keyed : (c : HmacCtx) (key m : Bytes) → Keyed c key m → hmac_final c ≡ hmac key m
unfolding hmac_final hmac
hmac_final-Keyed c key m k =
    ctx_final-Holds _ (xor_all 0x5c (block_key key) ++ ctx_final c.inner)
      (ctx_update-Holds c.outer (xor_all 0x5c (block_key key)) (ctx_final c.inner) k.outer_holds)
    ∙ ap (λ (d : Bytes). sha256 (xor_all 0x5c (block_key key) ++ d))
        (ctx_final-Holds c.inner (xor_all 0x36 (block_key key) ++ m) k.inner_holds)

-- `hmac_sha256_raw` is the HMAC of RFC 2104, for a key of bytes of any length and every message.
pub hmac_sha256_raw_lem : (key msg : Bytes) → IsBytes key → hmac_sha256_raw key msg ≡ hmac key msg
unfolding hmac_sha256_raw
hmac_sha256_raw_lem key msg h =
    hmac_final-Keyed _ key msg
      (hmac_update-Keyed _ key [] msg (hmac_init-Keyed blank_hmac key refl refl h))

pub length-hmac : (key msg : Bytes) → length (hmac key msg) ≡ 32
unfolding hmac
length-hmac key msg =
    length-sha256 (xor_all 0x5c (block_key key) ++ sha256 (xor_all 0x36 (block_key key) ++ msg))

pub hmac-IsBytes : (key msg : Bytes) → IsBytes (hmac key msg)
unfolding hmac
hmac-IsBytes key msg =
    sha256-IsBytes (xor_all 0x5c (block_key key) ++ sha256 (xor_all 0x36 (block_key key) ++ msg))

pub length-hmac_sha256_raw : (key msg : Bytes) → length (hmac_sha256_raw key msg) ≡ 32
unfolding hmac_sha256_raw
length-hmac_sha256_raw key msg =
    let c = hmac_update (hmac_init blank_hmac key) msg in
    length-ctx_final (ctx_update c.outer (ctx_final c.inner))

pub hmac_sha256_raw-IsBytes : (key msg : Bytes) → IsBytes (hmac_sha256_raw key msg)
unfolding hmac_sha256_raw
hmac_sha256_raw-IsBytes key msg =
    let c = hmac_update (hmac_init blank_hmac key) msg in
    ctx_final-IsBytes (ctx_update c.outer (ctx_final c.inner))

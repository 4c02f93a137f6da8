-- ===== src/Sha256.antt =====
-- firmware/src/sha256_raw.c: the streaming context, the one-shot hash, HMAC and HKDF. Scratch
-- buffers that a function fills before it reads them, and clears at its end, are local values.
pub mod Compress
pub mod Stream
pub mod Padding
pub mod Digest
pub mod Hmac
pub mod Hkdf
use Compress.{compress, sha256_h0}
use rutgers_2026_e_ctf_desig.Prelude.{
  ℕ, zero, suc, ◌+◌, ◌-◌, ◌*◌, ◌/◌, ◌%◌, ◌^◌, bit_xor, ◌&&◌, List, [], ◌∷◌, ◌++◌, map, Bytes, u8,
  u64, ltb, leb, ◌==◌, if◌then◌else◌, length, take, drop, set, replicate, splice,
}

-- `sha256_raw_ctx_t`
pub record Ctx : Type 0 where
  pub state : List ℕ
  pub length : ℕ
  pub curlen : ℕ
  pub buf : Bytes

-- `sha256_raw_ctx_init`; `buf` keeps what it held.
unfoldable pub ctx_init : Ctx → Ctx
ctx_init old = record old { state = sha256_h0; length = 0; curlen = 0 }

abbrev close_block : Ctx → Ctx
close_block c =
    if c.curlen == 64
    then record c { state = compress c.state c.buf; length = u64 (c.length + 512); curlen = 0 }
    else c

-- One round of the loop of `sha256_raw_ctx_update`, with the data that it leaves.
update_step : Ctx → Bytes → Ctx × Bytes
update_step c data' =
    if c.curlen == 0 && leb 64 (length data')
    then (
      record c { state = compress c.state (take 64 data'); length = u64 (c.length + 512) },
      drop 64 data',
    )
    else let room = 64 - c.curlen in
      let n = if ltb (length data') room then length data' else room in
      (
        close_block
            (record c { buf = splice c.buf c.curlen (take n data'); curlen = c.curlen + n }),
        drop n data',
      )

-- The loop, on fuel: each round takes at least one byte.
update_loop : ℕ → Ctx → Bytes → Ctx
update_loop zero c data' = c
update_loop (suc fuel) c [] = c
update_loop (suc fuel) c (b ∷ bs) =
    let (c', rest) = update_step c (b ∷ bs) in update_loop fuel c' rest

-- `sha256_raw_ctx_update`
unfoldable pub ctx_update : Ctx → Bytes → Ctx
unfolding update_step update_loop
ctx_update c data' = update_loop (length data') c data'

-- `while (curlen < n) buf[curlen++] = 0`, with the rounds that are left.
zero_fill : ℕ → Ctx → Ctx
zero_fill zero c = c
zero_fill (suc n) c = zero_fill n (record c { buf = set c.buf c.curlen 0; curlen = c.curlen + 1 })

abbrev be64 : ℕ → Bytes
be64 n =
    u8 (n / 2 ^ 56)
    ∷ u8 (n / 2 ^ 48)
    ∷ u8 (n / 2 ^ 40)
    ∷ u8 (n / 2 ^ 32)
    ∷ u8 (n / 2 ^ 24)
    ∷ u8 (n / 2 ^ 16)
    ∷ u8 (n / 2 ^ 8)
    ∷ u8 n
    ∷ []

abbrev be32 : ℕ → Bytes
be32 w = u8 (w / 2 ^ 24) ∷ u8 (w / 2 ^ 16) ∷ u8 (w / 2 ^ 8) ∷ u8 w ∷ []

-- The digest bytes of the state words.
abbrev digest_of : List ℕ → Bytes
digest_of [] = []
digest_of (w ∷ ws) = be32 w ++ digest_of ws

-- The 0x80 byte, and a block of its own where the length does not fit behind it.
open_pad : Ctx → Ctx
unfolding zero_fill
open_pad c =
    let c1 : Ctx = record c {
      length = u64 (c.length + c.curlen * 8);
      buf = set c.buf c.curlen 0x80;
      curlen = c.curlen + 1;
    } in
    if ltb 56 c1.curlen
    then (let c2 = zero_fill (64 - c1.curlen) c1 in
        record c2 { state = compress c2.state c2.buf; curlen = 0 })
    else c1

-- `sha256_raw_ctx_final`: the digest. The context is cleared by it, and not used again.
unfoldable pub ctx_final : Ctx → Bytes
unfolding zero_fill open_pad
ctx_final c =
    let c1 = open_pad c in
    let c2 = zero_fill (56 - c1.curlen) c1 in
    digest_of (compress c2.state (splice c2.buf 56 (be64 c2.length)))

-- The static contexts start as zeros.
abbrev pub blank : Ctx
blank = record { state = replicate 8 0; length = 0; curlen = 0; buf = replicate 64 0 }

-- `sha256_raw`
unfoldable pub sha256_raw : Bytes → Bytes
unfolding ctx_init ctx_update ctx_final
sha256_raw msg = ctx_final (ctx_update (ctx_init blank) msg)

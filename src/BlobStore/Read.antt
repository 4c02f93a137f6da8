-- ===== src/BlobStore/Read.antt =====
-- The streaming read of firmware/src/secure_blob_store.c, and the reads of a whole blob on it.
use rutgers_2026_e_ctf_desig.Prelude.{
  ℕ, zero, suc, ◌+◌, ◌-◌, ◌*◌, ◌/◌, bit_and, Bool, true, Option, none, some, [], ◌++◌, Bytes,
  bytes_eq, u8, ltb, ◌==◌, if◌then◌else◌, replicate,
}
use rutgers_2026_e_ctf_desig.Sha256.{ctx_init, ctx_update, ctx_final}
use rutgers_2026_e_ctf_desig.Flash.{FlashCtl, read_flash}
use rutgers_2026_e_ctf_desig.Crypto.{
  Aes, aes_gcm_decrypt, crypto_hmac_sha256, gcm_tag_size, hmac_size,
}
use rutgers_2026_e_ctf_desig.SecureDesign.{get_root_secret}
use rutgers_2026_e_ctf_desig.BlobStore.{
  BlobStatus, after_ok_inner, blob_ok, invalid_argument, crypto_error, permission_denied, bad_len,
  BlobHeader, ReadState, Store, header_size, tags_offset, chunk_bytes, slot_size, flash_base,
  blob_slot_base, slot_is_valid, build_aad, derive_file_key, chunk_key, load_header,
}

-- Whose blobs a read may open: those of the PIN's owner, or every one (`require_pin_hash` false).
pub data Reader : Type 0 where
  owner : Bytes → Reader
  any_owner : Reader

-- `memcmp(pin_hash, header.owner_pin_hash, 32) == 0`, where the hash is required.
abbrev pub owner_ok : Reader → BlobHeader → Bool
owner_ok (owner pin_hash) h = bytes_eq pin_hash h.owner_pin_hash
owner_ok any_owner h = true

-- The bytes that a round of `blob_read_chunk` takes.
unfoldable pub read_size : ℕ → ℕ
read_size left = if ltb chunk_bytes left then chunk_bytes else left

-- A chunk in front of what the later rounds give.
unfoldable pub join_read :
    Bytes → (BlobStatus × Bytes) × ReadState → (BlobStatus × Bytes) × ReadState
join_read pt ((rc, out), r) = ((rc, pt ++ out), r)

-- What a read of a whole blob gives: the status, the plaintext where it is `blob_ok`, and
-- `*out_len`.
pub record WholeRead : Type 0 where
  pub status : BlobStatus
  pub out : Bytes
  pub out_len : ℕ

module _ {F : Type 0} where
  -- `blob_read_init_internal` behind the header: the state of the read that is opened.
  unfoldable pub open_read : Bytes → ℕ → BlobHeader → Store F → (BlobStatus × ℕ) × Store F
  open_read global_secrets slot h s = elim (get_root_secret global_secrets) [
    | none ↦ ((crypto_error, 0), s)
    | some root ↦ elim (derive_file_key root h.group_mask) [
      | none ↦ ((crypto_error, 0), s)
      | some master ↦ (
        (blob_ok, h.plaintext_len),
        record s {
          aad = build_aad h;
          reading = record {
            flash_addr = blob_slot_base slot + header_size;
            processed = 0;
            total_len = h.plaintext_len;
            nonce = h.nonce;
            master_key = master;
            expected_blob_tag = h.blob_tag;
            sha_ctx = ctx_init s.reading.sha_ctx;
          };
        },
      )
    ]
  ]

  -- `blob_read_finish`. The hash state is not used again before it is initialised.
  unfoldable pub blob_read_finish : Store F → BlobStatus × Store F
  blob_read_finish s =
      let r = s.reading in
      let s1 = record s { reading = record r { master_key = replicate 32 0 } } in
      elim (crypto_hmac_sha256 r.master_key (ctx_final r.sha_ctx) hmac_size) [
        | none ↦ (crypto_error, s1)
        | some tag ↦ if bytes_eq tag r.expected_blob_tag then (blob_ok, s1) else (crypto_error, s1)
      ]

module _ {F : Type 0} (c : FlashCtl F) where
  -- `blob_read_init_internal`: the status and the length of the plaintext.
  unfoldable pub blob_read_init_internal :
      Bytes → ℕ → Reader → ℕ → Store F → (BlobStatus × ℕ) × Store F
  blob_read_init_internal global_secrets slot reader group_mask s =
      let (rc, h) = load_header c slot s in
      let opened = open_read global_secrets slot h s in
      if slot_is_valid slot
      then after_ok_inner rc 0 s (
          if bit_and group_mask h.group_mask == 0
          then ((permission_denied, 0), s)
          else (if owner_ok reader h then opened else ((permission_denied, 0), s)))
      else ((invalid_argument, 0), s)

  -- `blob_read_init`
  unfoldable pub blob_read_init : Bytes → ℕ → Bytes → ℕ → Store F → (BlobStatus × ℕ) × Store F
  blob_read_init global_secrets slot pin_hash group_mask s =
      blob_read_init_internal global_secrets slot (owner pin_hash) group_mask s

module _ {F C : Type 0} (c : FlashCtl F) (aes : Aes C) where
  -- A round of the loop of `blob_read_chunk`, of `n` bytes; `none` is a tag that does not match.
  unfoldable pub read_chunk : ℕ → Bytes → F → ReadState → Option Bytes × ReadState
  read_chunk n aad f r =
      let idx = r.processed / chunk_bytes in
      let ct = read_flash c f (r.flash_addr + r.processed) n in
      let slot = u8 ((r.flash_addr - flash_base) / slot_size) in
      let tag =
        read_flash c f (blob_slot_base slot + tags_offset + idx * gcm_tag_size) gcm_tag_size in
      let ctx = ctx_update r.sha_ctx tag in
      elim (aes_gcm_decrypt aes (chunk_key r.master_key idx) r.nonce aad ct tag n) [
        | none ↦ (none, record r { sha_ctx = ctx })
        | some pt ↦ (some pt, record r { processed = r.processed + n; sha_ctx = ctx })
      ]

  -- The loop of `blob_read_chunk`, on fuel, with the bytes that are left.
  unfoldable pub read_chunks : ℕ → ℕ → Bytes → F → ReadState → (BlobStatus × Bytes) × ReadState
  read_chunks zero left aad f r = ((blob_ok, []), r)
  read_chunks (suc fuel) zero aad f r = ((blob_ok, []), r)
  read_chunks (suc fuel) (suc k) aad f r =
      let n = read_size (suc k) in
      let (chunk, r1) = read_chunk n aad f r in
      let rest = read_chunks fuel (suc k - n) aad f r1 in
      elim chunk [ none ↦ ((crypto_error, []), r1) | some pt ↦ join_read pt rest ]

  -- `blob_read_chunk`: the status and what it has decrypted.
  unfoldable pub blob_read_chunk : ℕ → Store F → (BlobStatus × Bytes) × Store F
  blob_read_chunk chunk_len s =
      let (result, r) = read_chunks chunk_len chunk_len s.aad s.flash s.reading in
      if ltb s.reading.total_len (s.reading.processed + chunk_len)
      then ((invalid_argument, []), s)
      else (result, record s { reading = r })

  -- `blob_read_all` and `blob_read_all_group_mask` behind their init, into a buffer of `room` bytes.
  unfoldable pub read_whole : ℕ → (BlobStatus × ℕ) × Store F → WholeRead × Store F
  read_whole room ((opened, len), s) =
      let ((read, out), s1) = blob_read_chunk len s in
      let (done, s2) = blob_read_finish (if ltb 0 len then s1 else s) in
      let pt : Bytes = if ltb 0 len then out else [] in
      let finished : WholeRead × Store F = elim done [
        | blob_ok ↦ (record { status = blob_ok; out = pt; out_len = len }, s2)
        | other ↦ (record { status = other; out = []; out_len = room }, s2)
      ] in
      elim opened [
        | blob_ok ↦
            if ltb room len
            then (record { status = bad_len; out = []; out_len = len }, s)
            else if ltb 0 len
            then elim read [
              | blob_ok ↦ finished
              | other ↦ (record { status = other; out = []; out_len = room }, s1)
            ]
            else finished
        | other ↦ (record { status = other; out = []; out_len = room }, s)
      ]

  -- `blob_read_all`
  unfoldable pub blob_read_all : Bytes → ℕ → Bytes → ℕ → ℕ → Store F → WholeRead × Store F
  blob_read_all global_secrets slot pin_hash group_mask room s =
      read_whole room (blob_read_init c global_secrets slot pin_hash group_mask s)

  -- `blob_read_all_group_mask`
  unfoldable pub blob_read_all_group_mask : Bytes → ℕ → ℕ → ℕ → Store F → WholeRead × Store F
  blob_read_all_group_mask global_secrets slot group_mask room s =
      read_whole room (blob_read_init_internal c global_secrets slot any_owner group_mask s)

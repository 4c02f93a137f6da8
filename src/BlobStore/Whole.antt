-- ===== src/BlobStore/Whole.antt =====
-- The reads of a whole blob in firmware/src/secure_blob_store.c, on a blob that stands in its slot.
use rutgers_2026_e_ctf_desig.Prelude.{
  ℕ, ◌+◌, ◌≤◌, ◌<◌, ◌≡◌, refl, sym, ap, ◌∙◌, bit_and, true, false, some, List, [], ◌∷◌, arith,
  Bytes, bytes_eq_refl, ◌==◌, lt→ltb, le→ltb, inr, length,
}
use rutgers_2026_e_ctf_desig.Sha256.{Ctx, ctx_init, ctx_final, blank}
use rutgers_2026_e_ctf_desig.Flash.{FlashCtl, IsFlash}
use rutgers_2026_e_ctf_desig.Crypto.{Aes, IsGcm, RootSecret, crypto_hmac_sha256, hmac_size}
use rutgers_2026_e_ctf_desig.SecureDesign.{get_root_secret}
use rutgers_2026_e_ctf_desig.BlobStore.{
  BlobStatus, after_ok_inner, blob_ok, BlobHeader, ReadState, Store, header_size, max_slots,
  blob_slot_base, build_aad, derive_file_key, load_header,
}
use rutgers_2026_e_ctf_desig.BlobStore.Read.{
  Reader, owner_ok, open_read, blob_read_init_internal, blob_read_chunk, blob_read_finish,
  read_chunks, read_whole,
}
use rutgers_2026_e_ctf_desig.BlobStore.Chunks.{Stored, stored_nil, absorb}
use rutgers_2026_e_ctf_desig.BlobStore.Reading.{at_offset, read_chunks-Stored}
use rutgers_2026_e_ctf_desig.BlobStore.Sealed.{IsBlob}
use rutgers_2026_e_ctf_desig.BlobStore.Opened.{IsMade, load_header-IsBlob, digest_same}

-- The state that a read of this blob starts from.
abbrev start_read : ℕ → Bytes → BlobHeader → Ctx → ReadState
start_read slot master h old = record {
  flash_addr = blob_slot_base slot + header_size;
  processed = 0;
  total_len = h.plaintext_len;
  nonce = h.nonce;
  master_key = master;
  expected_blob_tag = h.blob_tag;
  sha_ctx = ctx_init old;
}

module _ {F : Type 0} (c : FlashCtl F) where
  -- The init of a read that is allowed.
  init-opens :
      (secrets : Bytes) (slot : ℕ) (reader : Reader) (mask : ℕ) (h : BlobHeader) (s : Store F)
      {root : RootSecret} {master : Bytes}
      → slot < max_slots
      → load_header c slot s ≡ (blob_ok, h)
      → (bit_and mask h.group_mask == 0) ≡ false
      → owner_ok reader h ≡ true
      → get_root_secret secrets ≡ some root
      → derive_file_key root h.group_mask ≡ some master
      → blob_read_init_internal c secrets slot reader mask s ≡ (
        (blob_ok, h.plaintext_len),
        record s { aad = build_aad h; reading = start_read slot master h s.reading.sha_ctx },
      )
  unfolding blob_read_init_internal open_read after_ok_inner
  init-opens secrets slot reader mask h s low loaded allowed owned has_root has_key =
      let valid = lt→ltb slot max_slots low in
      simp (
        blob_read_init_internal, open_read, after_ok_inner, valid, loaded, allowed, owned, has_root,
        has_key,
      )

module _ {F : Type 0} where
  finish-accepts :
      (s : Store F)
      → crypto_hmac_sha256 s.reading.master_key (ctx_final s.reading.sha_ctx) hmac_size
        ≡ some s.reading.expected_blob_tag
      → (blob_read_finish s).0 ≡ blob_ok
  unfolding blob_read_finish
  finish-accepts s e =
      let same = bytes_eq_refl s.reading.expected_blob_tag in simp (blob_read_finish, e, same)

module _ {F C : Type 0} (c : FlashCtl F) (aes : Aes C) where
  -- A read of all that is left.
  chunk-opens :
      (n : ℕ) (s : Store F) {out : Bytes} {r : ReadState}
      → s.reading.processed + n ≤ s.reading.total_len
      → read_chunks c aes n n s.aad s.flash s.reading ≡ ((blob_ok, out), r)
      → blob_read_chunk c aes n s ≡ ((blob_ok, out), record s { reading = r })
  unfolding blob_read_chunk
  chunk-opens n s fits e =
      let within = le→ltb s.reading.total_len (s.reading.processed + n) fits in
      simp (blob_read_chunk, within, e)

  whole-opens :
      (room len : ℕ) (s s1 : Store F) (out : Bytes)
      → len ≤ room
      → 0 < len
      → blob_read_chunk c aes len s ≡ ((blob_ok, out), s1)
      → (blob_read_finish s1).0 ≡ blob_ok
      → (read_whole c aes room ((blob_ok, len), s)).0
        ≡ record { status = blob_ok; out = out; out_len = len }
  unfolding read_whole
  whole-opens room len s s1 out fits some_left chunk done =
      let roomy = le→ltb room len fits in
      let left = lt→ltb 0 len some_left in simp (read_whole, roomy, left, chunk, done)

  whole-empty :
      (room : ℕ) (s : Store F)
      → (blob_read_finish s).0 ≡ blob_ok
      → (read_whole c aes room ((blob_ok, 0), s)).0
        ≡ record { status = blob_ok; out = []; out_len = 0 }
  unfolding read_whole
  whole-empty room s done =
      let roomy = le→ltb room 0 (omega arith) in simp (read_whole, roomy, done)

module _ {F C : Type 0} (c : FlashCtl F) (aes : Aes C) (laws : IsFlash c) (gcm : IsGcm aes) where
  no_tags :
      (f : F) (base : ℕ) (master nonce aad : Bytes) (p i : ℕ) (tags : List Bytes)
      → Stored c aes f base master nonce aad [] p i tags
      → tags ≡ []
  no_tags f base master nonce aad p i _ stored_nil = refl

  -- The read of the whole, once it is opened.
  read_started :
      (room slot : ℕ) (master data_ uuid : Bytes) (h : BlobHeader) (s : Store F) (old : Ctx)
      → slot < max_slots
      → length old.buf ≡ 64
      → length data_ ≤ room
      → IsMade slot (length data_) h
      → IsBlob c aes laws gcm s slot master data_ uuid h
      → (read_whole c aes room (
        (blob_ok, length data_),
        record s { aad = build_aad h; reading = start_read slot master h old },
      )).0
        ≡ record { status = blob_ok; out = data_; out_len = length data_ }
  unfolding absorb
  read_started room slot master [] uuid h s old low buf fits made b =
      let s1 : Store F = record s { aad = build_aad h; reading = start_read slot master h old } in
      let none_left =
        no_tags s.flash (blob_slot_base slot) master h.nonce (build_aad h) 0 0 b.tags b.stored in
      whole-empty c aes room s1 (
        finish-accepts s1 (
          ap
            (λ (t : List Bytes).
              crypto_hmac_sha256 master (ctx_final (absorb (ctx_init old) t)) hmac_size)
            (sym none_left)
          ∙ ap (λ (d : Bytes). crypto_hmac_sha256 master d hmac_size)
              (digest_same old blank b.tags buf refl)
          ∙ b.sealed))
  read_started room slot master (x ∷ xs) uuid h s old low buf fits made b =
      let d : Bytes = x ∷ xs in
      let r = start_read slot master h old in
      let s1 : Store F = record s { aad = build_aad h; reading = r } in
      let final = absorb (ctx_init old) b.tags in
      let chunks =
        read_chunks-Stored c aes laws gcm (length d) slot s.flash r (build_aad h) d 0 0
          (ctx_init old) b.tags low refl (omega arith) (inr refl) b.stored in
      let s2 : Store F = record s1 { reading = at_offset r (0 + length d) final } in
      whole-opens c aes room (length d) s1 s2 d fits (omega arith)
        (chunk-opens c aes (length d) s1 (omega (arith, made.len_)) chunks)
        (finish-accepts s2 (
          ap (λ (g : Bytes). crypto_hmac_sha256 master g hmac_size)
            (digest_same old blank b.tags buf refl)
          ∙ b.sealed))

  -- The blob in the slot is what an allowed reader gets.
  pub read-IsBlob :
      (secrets : Bytes) (room slot : ℕ) (reader : Reader) (mask : ℕ) (master data_ uuid : Bytes)
      (h : BlobHeader) (s : Store F) {root : RootSecret}
      → slot < max_slots
      → length s.reading.sha_ctx.buf ≡ 64
      → length data_ ≤ 8192
      → length data_ ≤ room
      → (bit_and mask h.group_mask == 0) ≡ false
      → owner_ok reader h ≡ true
      → get_root_secret secrets ≡ some root
      → derive_file_key root h.group_mask ≡ some master
      → IsMade slot (length data_) h
      → IsBlob c aes laws gcm s slot master data_ uuid h
      → (read_whole c aes room (blob_read_init_internal c secrets slot reader mask s)).0
        ≡ record { status = blob_ok; out = data_; out_len = length data_ }
  read-IsBlob secrets room slot reader mask master data_ uuid h s low buf short fits allowed owned
        has_root has_key made b =
      let loaded = load_header-IsBlob c aes laws gcm s slot master data_ uuid h low short made b in
      let old = s.reading.sha_ctx in
      let s1 : Store F = record s { aad = build_aad h; reading = start_read slot master h old } in
      ap (λ (o : (BlobStatus × ℕ) × Store F). (read_whole c aes room o).0)
        (init-opens c secrets slot reader mask h s low loaded allowed owned has_root has_key)
      ∙ ap (λ (n : ℕ). (read_whole c aes room ((blob_ok, n), s1)).0) made.len_
      ∙ read_started room slot master data_ uuid h s old low buf fits made b

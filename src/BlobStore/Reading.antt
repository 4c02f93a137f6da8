-- ===== src/BlobStore/Reading.antt =====
-- The loop of `blob_read_chunk` in firmware/src/secure_blob_store.c on a slot that holds chunks.
use rutgers_2026_e_ctf_desig.Prelude.{
  ℕ, zero, suc, ◌+◌, ◌-◌, ◌*◌, ◌/◌, ◌≤◌, ◌<◌, ◌≡◌, ◌⊎◌, sym, ap, ap₂, ◌∙◌, some, List, [], ◌∷◌,
  arith, Bytes, u8, length, min, take, drop, length-take, length-drop, take-append-drop,
}
use rutgers_2026_e_ctf_desig.Sha256.{Ctx, ctx_update}
use rutgers_2026_e_ctf_desig.Flash.{FlashCtl, IsFlash, read_flash}
use rutgers_2026_e_ctf_desig.Flash.Write.{read_flash_eq}
use rutgers_2026_e_ctf_desig.Crypto.{Aes, IsGcm, aes_gcm_decrypt, gcm_tag_size}
use rutgers_2026_e_ctf_desig.Crypto.Gcm.{aes_gcm_encrypt-decrypt}
use rutgers_2026_e_ctf_desig.BlobStore.{
  blob_ok, ReadState, header_size, tags_offset, chunk_bytes, slot_size, flash_base, blob_slot_base,
  chunk_key, max_slots,
}
use rutgers_2026_e_ctf_desig.BlobStore.Read.{read_size, read_chunk, read_chunks, join_read}
use rutgers_2026_e_ctf_desig.BlobStore.Chunks.{absorb, Stored, stored_nil, stored_cons}

-- The state of a read at an offset, with the hash state so far.
abbrev pub at_offset : ReadState → ℕ → Ctx → ReadState
at_offset r p ctx = record r { processed = p; sha_ctx = ctx }

read_size_lem : (k : ℕ) → read_size k ≡ min 256 k
unfolding read_size
read_size_lem k = ground arith

module _ {F C : Type 0} (c : FlashCtl F) (aes : Aes C) (laws : IsFlash c) (gcm : IsGcm aes) where
  read_chunk-opens :
      (n slot i : ℕ) (aad ct tag pt : Bytes) (f : F) (r : ReadState) (p : ℕ) (ctx : Ctx)
      → u8 ((r.flash_addr - flash_base) / slot_size) ≡ slot
      → p / chunk_bytes ≡ i
      → read_flash c f (r.flash_addr + p) n ≡ ct
      → read_flash c f (blob_slot_base slot + tags_offset + i * gcm_tag_size) gcm_tag_size ≡ tag
      → aes_gcm_decrypt aes (chunk_key r.master_key i) r.nonce aad ct tag n ≡ some pt
      → read_chunk c aes n aad f (at_offset r p ctx)
        ≡ (some pt, at_offset r (p + n) (ctx_update ctx tag))
  unfolding read_chunk
  read_chunk-opens n slot i aad ct tag pt f r p ctx place index read_ct read_tag opened =
      simp (read_chunk, place, index, read_ct, read_tag, opened)

  read_chunks-step :
      (fuel k : ℕ) (aad pt : Bytes) (f : F) (r : ReadState) {r1 : ReadState}
      → read_chunk c aes (read_size (suc k)) aad f r ≡ (some pt, r1)
      → read_chunks c aes (suc fuel) (suc k) aad f r
        ≡ join_read pt (read_chunks c aes fuel (suc k - read_size (suc k)) aad f r1)
  unfolding read_chunks
  read_chunks-step fuel k aad pt f r e = simp (read_chunks, e)

  pub read_chunks-Stored :
      (fuel slot : ℕ) (f : F) (r : ReadState) (aad data_ : Bytes) (p i : ℕ) (ctx : Ctx)
      (tags : List Bytes)
      → slot < max_slots
      → r.flash_addr ≡ blob_slot_base slot + header_size
      → length data_ ≤ fuel
      → (length data_ ≡ 0) ⊎ (p ≡ i * 256)
      → Stored c aes f (blob_slot_base slot) r.master_key r.nonce aad data_ p i tags
      → read_chunks c aes fuel (length data_) aad f (at_offset r p ctx)
        ≡ ((blob_ok, data_), at_offset r (p + length data_) (absorb ctx tags))
  unfolding read_chunks join_read absorb
  read_chunks-Stored zero slot f r aad _ p i ctx _ s a h al stored_nil =
      ap (λ (q : ℕ). ((blob_ok, []), at_offset r q ctx)) {x = p} {y = p + 0} (omega arith)
  read_chunks-Stored (suc fuel) slot f r aad _ p i ctx _ s a h al stored_nil =
      ap (λ (q : ℕ). ((blob_ok, []), at_offset r q ctx)) {x = p} {y = p + 0} (omega arith)
  read_chunks-Stored zero slot f r aad _ p i ctx _ s a h al
        (stored_cons {tags = tags} b bs ct tag made at_ct at_tag rest) =
      absurd (omega arith)
  read_chunks-Stored (suc fuel) slot f r aad _ p i ctx _ s a h al
        (stored_cons {tags = tags} b bs ct tag made at_ct at_tag rest) =
      let d : Bytes = b ∷ bs in
      let piece = take chunk_bytes d in
      let n = length piece in
      let taken = length-take chunk_bytes d in
      let left = length-drop chunk_bytes d in
      let base = blob_slot_base slot in
      let size : read_size (length d) ≡ n = read_size_lem (length d) ∙ sym taken in
      let (ct_size, tag_size, opened) =
        aes_gcm_encrypt-decrypt aes gcm (chunk_key r.master_key i) r.nonce aad piece gcm_tag_size n
          made (omega arith) in
      let read_ct =
        ap₂ (read_flash c f) (ap (λ (x : ℕ). x + p) a) (sym ct_size)
        ∙ read_flash_eq c laws f (base + header_size + p) ct at_ct in
      let read_tag =
        ap (read_flash c f (base + tags_offset + i * gcm_tag_size)) (sym tag_size)
        ∙ read_flash_eq c laws f (base + tags_offset + i * gcm_tag_size) tag at_tag in
      let chunk =
        read_chunk-opens n slot i aad ct tag piece f r p ctx (omega (arith, a)) (omega (arith, al))
          read_ct read_tag opened in
      let ih =
        read_chunks-Stored fuel slot f r aad (drop chunk_bytes d) (p + n) (i + 1)
          (ctx_update ctx tag) tags s a (omega (arith, left)) (omega (arith, left, taken, al))
          rest in
      read_chunks-step fuel (length bs) aad piece f (at_offset r p ctx)
        (ap (λ (m : ℕ). read_chunk c aes m aad f (at_offset r p ctx)) size ∙ chunk)
      ∙ ap
          (λ (m : ℕ).
            join_read piece
              (read_chunks c aes fuel m aad f (at_offset r (p + n) (ctx_update ctx tag))))
          {x = length d - read_size (length d)} {y = length (drop chunk_bytes d)}
          (omega (arith, size, left, taken))
      ∙ ap (join_read piece) ih
      ∙ ap₂
          (λ (x : Bytes) (q : ℕ). ((blob_ok, x), at_offset r q (absorb (ctx_update ctx tag) tags)))
          {u = p + n + length (drop chunk_bytes d)} {v = p + length d}
          (take-append-drop chunk_bytes d) (omega (arith, left, taken))

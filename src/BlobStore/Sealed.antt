-- ===== src/BlobStore/Sealed.antt =====
-- What a `blob_write` of firmware/src/secure_blob_store.c that succeeds leaves in the store.
use rutgers_2026_e_ctf_desig.Prelude.{
  ℕ, ◌+◌, ◌*◌, ◌≤◌, ◌<◌, ◌≡◌, refl, sym, ap, ◌∙◌, Bool, true, some, List, ◌∷◌, arith, Bytes, u16,
  take, drop, length-take, length-drop, Bool-cases, Option-cases, inl, inr, length, get_or,
  get_or-set_self,
}
use rutgers_2026_e_ctf_desig.Sha256.{Ctx, ctx_init, ctx_final, blank}
use rutgers_2026_e_ctf_desig.Flash.{FlashCtl, IsFlash, write_flash, read_flash}
use rutgers_2026_e_ctf_desig.Flash.Write.{write_flash-IsPut, read_flash_eq}
use rutgers_2026_e_ctf_desig.Crypto.{Aes, IsGcm, gcm_tag_size, crypto_hmac_sha256, hmac_size}
use rutgers_2026_e_ctf_desig.Crypto.Gcm.{aes_gcm_encrypt-decrypt}
use rutgers_2026_e_ctf_desig.Sha256.Hmac.{hmac_sha256_raw, length-hmac_sha256_raw}
use mathlib.Core.Option.{some-injective}
use rutgers_2026_e_ctf_desig.BlobStore.{
  BlobStatus, blob_ok, io_error, crypto_error, BlobHeader, FatEntry, blank_entry, Store,
  encode_header, header_size, tags_offset, slot_size, chunk_bytes, chunk_key, max_slots,
  blob_slot_base, build_aad, erase_slot_pages, commit_fat_entry,
}
use rutgers_2026_e_ctf_desig.BlobStore.Status.{ok_clash, after_ok-ok}
use rutgers_2026_e_ctf_desig.BlobStore.Codec.{IsHeader, IsEntry, IsFat, length-encode_header}
use rutgers_2026_e_ctf_desig.BlobStore.Fat.{commit-steps, commit-keeps}
use rutgers_2026_e_ctf_desig.BlobStore.Write.{write_chunks, seal_record, write_record}
use rutgers_2026_e_ctf_desig.BlobStore.Chunks.{
  Stored, stored_nil, stored_cons, absorb, chunk_count, write_chunks-Stored,
}
use rutgers_2026_e_ctf_desig.BlobStore.Erase.{erase_slot_pages_lem}

-- The FAT entry of a blob.
abbrev pub blob_entry : ℕ → Bytes → ℕ → FatEntry
blob_entry slot uuid len = record {
  uuid = uuid;
  length = u16 (header_size + len);
  padding = 0;
  flash_addr = blob_slot_base slot;
}

module _ {F C : Type 0} (c : FlashCtl F) (aes : Aes C) (laws : IsFlash c) where
  seal_record-steps :
      (slot : ℕ) (master uuid : Bytes) (h : BlobHeader) (ctx : Ctx) (s : Store F) {s' : Store F}
      → seal_record c aes slot master uuid h ctx s ≡ (blob_ok, s')
      → (tag : Bytes) × (f1 : F) × (crypto_hmac_sha256 master (ctx_final ctx) hmac_size ≡ some tag)
        × (write_flash c (blob_slot_base slot) (encode_header (record h { blob_tag = tag })) s.flash
            ≡ (true, f1))
        × (commit_fat_entry c slot (blob_entry slot uuid h.plaintext_len) (record s { flash = f1 })
            ≡ (blob_ok, s'))
  unfolding seal_record
  seal_record-steps slot master uuid h ctx s {s'} r =
      elim (Option-cases (crypto_hmac_sha256 master (ctx_final ctx) hmac_size)) [
        | inl bad ↦ absurd (ok_clash crypto_error s refl r (simp (seal_record, bad)))
        | inr (tag, made) ↦
            let header = encode_header (record h { blob_tag = tag }) in
            let (written, f1) = write_flash c (blob_slot_base slot) header s.flash in
            elim (Bool-cases written) [
              | inr bad ↦ absurd (
                  ok_clash io_error (record s { flash = f1 }) refl r
                    (simp (seal_record, made, bad)))
              | inl good ↦ (
                tag,
                f1,
                made,
                ap (λ (b : Bool). (b, f1)) good,
                sym (simp (seal_record, made, good)) ∙ r,
              )
            ]
      ]

  write_record-steps :
      (slot : ℕ) (master data_ uuid : Bytes) (h : BlobHeader) (s : Store F) {s' : Store F}
      → write_record c aes slot master data_ uuid h s ≡ (blob_ok, s')
      → (f1 : F) × (f2 : F) × (ctx : Ctx) × (erase_slot_pages c slot s.flash ≡ (blob_ok, f1))
        × (write_chunks c aes
              (length data_)
              (blob_slot_base slot)
              master
              h.nonce
              (build_aad h)
              data_
              0
              0
              (ctx_init blank)
              f1
            ≡ ((blob_ok, ctx), f2))
        × (seal_record c aes slot master uuid h ctx (record s { aad = build_aad h; flash = f2 })
            ≡ (blob_ok, s'))
  unfolding write_record
  write_record-steps slot master data_ uuid h s r =
      let (rc, f1) = erase_slot_pages c slot s.flash in
      let ((done, ctx), f2) =
        write_chunks c aes (length data_) (blob_slot_base slot) master h.nonce (build_aad h) data_ 0
          0 (ctx_init blank) f1 in
      let (erased, more) = after_ok-ok rc (record s { aad = build_aad h; flash = f1 }) r in
      let (stored, sealed) = after_ok-ok done (record s { aad = build_aad h; flash = f2 }) more in
      (
        f1,
        f2,
        ctx,
        ap (λ (t : BlobStatus). (t, f1)) erased,
        ap (λ (t : BlobStatus). ((t, ctx), f2)) stored,
        sealed,
      )

-- The slot at `base` behind its header.
abbrev SameSlot : {F : Type 0} → FlashCtl F → ℕ → F → F → Type 0
SameSlot c base f g =
    (x : ℕ) → base + header_size ≤ x → x < base + slot_size → c.byte g x ≡ c.byte f x

mac_size :
    (key msg : Bytes) {tag : Bytes}
    → crypto_hmac_sha256 key msg hmac_size ≡ some tag
    → length tag ≡ 32
unfolding crypto_hmac_sha256
mac_size key msg {tag} e =
    let same : hmac_sha256_raw key msg ≡ tag = some-injective (hmac_sha256_raw key msg) tag e in
    ap length (sym same) ∙ length-hmac_sha256_raw key msg

pub IsHeader-tagged :
    (h : BlobHeader) (tag : Bytes)
    → IsHeader h
    → length tag ≡ 32
    → IsHeader (record h { blob_tag = tag })
IsHeader-tagged h tag v size = record {
  magic = v.magic;
  version = v.version;
  slot = v.slot;
  plaintext_len = v.plaintext_len;
  group_mask = v.group_mask;
  owner = v.owner;
  nonce = v.nonce;
  tag = size;
  reserved = v.reserved;
}

module _ {F C : Type 0} (c : FlashCtl F) (aes : Aes C) (laws : IsFlash c) (gcm : IsGcm aes) where
  -- Chunks stay where the slot stays as it is.
  Stored-kept :
      (base : ℕ) (f g : F) (master nonce aad data_ : Bytes) (p i : ℕ) (tags : List Bytes)
      → SameSlot c base f g
      → header_size + p + length data_ ≤ tags_offset
      → i + chunk_count (length data_) ≤ 32
      → Stored c aes f base master nonce aad data_ p i tags
      → Stored c aes g base master nonce aad data_ p i tags
  Stored-kept base f g master nonce aad _ p i _ same fd ft stored_nil = stored_nil
  Stored-kept base f g master nonce aad _ p i _ same fd ft
        (stored_cons {tags = tags} b bs ct tag made at_ct at_tag rest) =
      let d : Bytes = b ∷ bs in
      let piece = take chunk_bytes d in
      let taken = length-take chunk_bytes d in
      let left = length-drop chunk_bytes d in
      let (ct_size, tag_size, _) =
        aes_gcm_encrypt-decrypt aes gcm (chunk_key master i) nonce aad piece gcm_tag_size 256 made
          (omega (arith, taken)) in
      stored_cons {tags = tags} b bs ct tag made
        (λ j l.
          same (base + header_size + p + j) (omega arith) (omega (arith, ct_size, taken))
          ∙ at_ct j l)
        (λ j l.
          same (base + tags_offset + i * gcm_tag_size + j) (omega arith) (omega (arith, tag_size))
          ∙ at_tag j l)
        (Stored-kept base f g master nonce aad (drop chunk_bytes d) (p + length piece) (i + 1) tags
          same (omega (arith, taken, left)) (omega (arith, left)) rest)

  -- The blob of this header stands in the slot, and the FAT leads to it.
  pub record IsBlob (s : Store F) (slot : ℕ) (master data_ uuid : Bytes) (h : BlobHeader)
      : Type 0 where
    pub tags : List Bytes
    pub entry : get_or s.fat slot blank_entry ≡ blob_entry slot uuid (length data_)
    pub header : read_flash c s.flash (blob_slot_base slot) header_size ≡ encode_header h
    pub stored :
        Stored c aes s.flash (blob_slot_base slot) master h.nonce (build_aad h) data_ 0 0 tags
    pub sealed :
        crypto_hmac_sha256 master (ctx_final (absorb (ctx_init blank) tags)) hmac_size
        ≡ some h.blob_tag

  pub write_record-IsBlob :
      (slot : ℕ) (master data_ uuid : Bytes) (h : BlobHeader) (s : Store F) {s' : Store F}
      → slot < max_slots
      → IsFat s.fat
      → length s.fat ≡ max_slots
      → length uuid ≡ 16
      → IsHeader h
      → h.plaintext_len ≡ length data_
      → length data_ ≤ 8192
      → write_record c aes slot master data_ uuid h s ≡ (blob_ok, s')
      → (tag : Bytes) × (length tag ≡ 32)
        × IsBlob s' slot master data_ uuid (record h { blob_tag = tag })
  unfolding build_aad
  write_record-IsBlob slot master data_ uuid h s {s'} low v n u hv len short r =
      let base = blob_slot_base slot in
      let (f1, f2, ctx, erased, stored, sealed) =
        write_record-steps c aes laws slot master data_ uuid h s r in
      let s2 = record s { aad = build_aad h; flash = f2 } in
      let (tag, f3, made, written, committed) =
        seal_record-steps c aes laws slot master uuid h ctx s2 sealed in
      let (clean, _) = erase_slot_pages_lem c laws slot s.flash erased in
      let (tags, chunks, absorbed, kept) =
        write_chunks-Stored c aes laws gcm (length data_) base master h.nonce (build_aad h) data_ 0
          0 (ctx_init blank) f1 (omega arith) (inl refl) (omega arith) (omega arith) (omega arith)
          (omega arith)
          (λ i l.
            ap (c.byte f1) {x = base + header_size + 0 + i} {y = base + (header_size + i)}
              (omega arith)
            ∙ clean (header_size + i) (omega arith))
          (λ i l.
            ap (c.byte f1) {x = base + tags_offset + 0 * 16 + i} {y = base + (tags_offset + i)}
              (omega arith)
            ∙ clean (tags_offset + i) (omega arith))
          stored in
      let sized = mac_size master (ctx_final ctx) made in
      let h' : BlobHeader = record h { blob_tag = tag } in
      let size = length-encode_header h' (IsHeader-tagged h tag hv sized) in
      let entry = blob_entry slot uuid h.plaintext_len in
      let ve : IsEntry entry = record {
        uuid = u;
        length_ = omega arith;
        padding = omega arith;
        flash_addr = omega arith;
      } in
      let s3 = record s2 { flash = f3 } in
      let put =
        write_flash-IsPut c laws base (encode_header h') f2 (omega arith) (omega (arith, size))
          (λ i l.
            kept (base + i) (inl (omega (arith, size))) (inl (omega (arith, size)))
            ∙ clean i (omega (arith, size)))
          written in
      let below = commit-keeps c laws slot entry s3 v n ve committed in
      let changed = (commit-steps c laws slot entry s3 committed).3 in
      (
        tag,
        sized,
        record {
          tags = tags;
          entry =
              ap (λ (t : Store F). get_or t.fat slot blank_entry) changed
              ∙ get_or-set_self s.fat slot entry blank_entry (omega (arith, n))
              ∙ ap (blob_entry slot uuid) len;
          header =
              ap (read_flash c s'.flash base) (sym size)
              ∙ read_flash_eq c laws s'.flash base (encode_header h')
                  (λ i l. below (base + i) (omega (arith, size)) ∙ put.inside i l);
          stored =
              Stored-kept base f2 s'.flash master h.nonce (build_aad h) data_ 0 0 tags
                (λ x ge lt. below x (omega arith) ∙ put.outside x (inr (omega (arith, size))))
                (omega arith) (omega arith) chunks;
          sealed =
              ap (λ (k : Ctx). crypto_hmac_sha256 master (ctx_final k) hmac_size) (sym absorbed)
              ∙ made;
        },
      )

-- ===== src/BlobStore/RoundTrip.antt =====
-- `blob_write` and the reads of firmware/src/secure_blob_store.c: what was written is read back.
use rutgers_2026_e_ctf_desig.Prelude.{
  ℕ, ◌≤◌, ◌<◌, ◌^◌, ◌≡◌, refl, sym, ◌∙◌, bit_and, false, some, List, arith, Bytes, bytes_eq_refl,
  ltb, ltb→le, ◌==◌, Bool-cases, inl, inr, length,
}
use mathlib.Core.Option.{none-ne-some}
use mathlib.Core.Path.{subst}
use rutgers_2026_e_ctf_desig.Flash.{FlashCtl, IsFlash}
use rutgers_2026_e_ctf_desig.Crypto.{Aes, IsGcm, RootSecret, gcm_nonce_size}
use rutgers_2026_e_ctf_desig.SecureDesign.Nonce.{generate_nonce-length}
use rutgers_2026_e_ctf_desig.BlobStore.{
  blob_ok, BlobHeader, FatEntry, Store, max_slots, find_write_slot, derive_file_key,
}
use rutgers_2026_e_ctf_desig.BlobStore.Codec.{IsHeader, IsFat}
use rutgers_2026_e_ctf_desig.BlobStore.Write.{new_header, blob_write}
use rutgers_2026_e_ctf_desig.BlobStore.Read.{
  owner, any_owner, WholeRead, blob_read_all, blob_read_all_group_mask, blob_read_init,
}
use rutgers_2026_e_ctf_desig.BlobStore.Sealed.{IsBlob, write_record-IsBlob, IsHeader-tagged}
use rutgers_2026_e_ctf_desig.BlobStore.Opened.{IsMade}
use rutgers_2026_e_ctf_desig.BlobStore.Whole.{read-IsBlob}
use rutgers_2026_e_ctf_desig.BlobStore.Written.{blob_write-IsWritten, find_write_slot-lt}

-- A key is derived for no group above 16 bits.
derive_file_key-fits :
    (root : RootSecret) (mask : ℕ) {key : Bytes}
    → derive_file_key root mask ≡ some key
    → mask < 2 ^ 16
unfolding derive_file_key
derive_file_key-fits root mask {key} e = elim (Bool-cases (ltb 0xFFFF mask)) [
  | inl big ↦ absurd (none-ne-some key (sym (simp (derive_file_key, big)) ∙ e))
  | inr small ↦ omega (arith, ltb→le 0xFFFF mask small)
]

new_header-IsHeader :
    (slot len mask : ℕ) (pin_hash nonce : Bytes)
    → slot < max_slots
    → len ≤ 8192
    → mask < 2 ^ 16
    → length pin_hash ≡ 32
    → length nonce ≡ 12
    → IsHeader (new_header slot len mask pin_hash nonce)
new_header-IsHeader slot len mask pin_hash nonce low short small p n = record {
  magic = omega arith;
  version = omega arith;
  slot = omega arith;
  plaintext_len = omega arith;
  group_mask = omega arith;
  owner = p;
  nonce = n;
  tag = refl;
  reserved = refl;
}

module _ {F C : Type 0} (c : FlashCtl F) (aes : Aes C) (laws : IsFlash c) (gcm : IsGcm aes) where
  -- Whether a blob stands in a slot is a matter of the FAT and the flash.
  IsBlob-moved :
      (s r : Store F) (slot : ℕ) (master data_ uuid : Bytes) (h : BlobHeader)
      → r.fat ≡ s.fat
      → r.flash ≡ s.flash
      → IsBlob c aes laws gcm s slot master data_ uuid h
      → IsBlob c aes laws gcm r slot master data_ uuid h
  IsBlob-moved s r slot master data_ uuid h fat flash b =
      subst (λ (f : F). IsBlob c aes laws gcm (record r { flash = f }) slot master data_ uuid h)
        (sym flash)
        (subst
          (λ (t : List FatEntry).
            IsBlob c aes laws gcm (record r { fat = t; flash = s.flash }) slot master data_ uuid h)
          (sym fat)
          (record {
            tags = b.tags;
            entry = b.entry;
            header = b.header;
            stored = b.stored;
            sealed = b.sealed;
          }))

  -- On a flash and an AES-GCM that keep their laws and a FAT of eight well-formed entries, a
  -- `blob_write` of at most 8192 bytes that succeeds puts them in the slot that `find_write_slot`
  -- gives; on any later state with the same FAT and flash, `blob_read_all` with the same PIN
  -- hash, and `blob_read_all_group_mask`, with a group mask that shares a bit and a large enough
  -- buffer, both succeed and return exactly those bytes and their number.
  pub blob_write-read :
      (secrets : Bytes) (slot : ℕ) (data_ uuid pin_hash : Bytes) (mask reader_mask room : ℕ)
      (s r : Store F) {s' : Store F}
      → IsFat s.fat
      → length s.fat ≡ max_slots
      → length uuid ≡ 16
      → length pin_hash ≡ 32
      → length data_ ≤ 8192
      → length data_ ≤ room
      → (bit_and reader_mask mask == 0) ≡ false
      → blob_write c aes secrets slot data_ uuid pin_hash mask s ≡ some (blob_ok, s')
      → r.fat ≡ s'.fat
      → r.flash ≡ s'.flash
      → length r.reading.sha_ctx.buf ≡ 64
      → let whole : WholeRead = record { status = blob_ok; out = data_; out_len = length data_ } in
        (n : ℕ) × (find_write_slot slot s.fat ≡ inr n)
        × ((blob_read_all c aes secrets n pin_hash reader_mask room r).0 ≡ whole)
        × ((blob_read_all_group_mask c aes secrets n reader_mask room r).0 ≡ whole)
  unfolding blob_read_all blob_read_all_group_mask blob_read_init
  blob_write-read secrets slot data_ uuid pin_hash mask reader_mask room s r {s'} v n u p short fits
        allowed written fat flash buf =
      let w = blob_write-IsWritten c aes secrets slot data_ uuid pin_hash mask s written in
      let at = w.resolved in
      let low = find_write_slot-lt slot s.fat n w.found in
      let h = new_header at (length data_) mask pin_hash w.nonce in
      let hv =
        new_header-IsHeader at (length data_) mask pin_hash w.nonce low short
          (derive_file_key-fits w.root mask w.has_key) p
          (generate_nonce-length s.trng w.trng gcm_nonce_size w.nonce w.drawn) in
      let (tag, sized, blob) =
        write_record-IsBlob c aes laws gcm at w.master data_ uuid h (record s { trng = w.trng }) low
          v n u hv refl short w.recorded in
      let h' : BlobHeader = record h { blob_tag = tag } in
      let made : IsMade at (length data_) h' = record {
        fields = IsHeader-tagged h tag hv sized;
        magic = refl;
        version = refl;
        slot_ = refl;
        len_ = refl;
      } in
      let moved = IsBlob-moved s' r at w.master data_ uuid h' fat flash blob in
      let same_hash = bytes_eq_refl pin_hash in
      (
        at,
        w.found,
        read-IsBlob c aes laws gcm secrets room at (owner pin_hash) reader_mask w.master data_ uuid
            h' r low buf short fits allowed same_hash w.has_root w.has_key made moved,
        read-IsBlob c aes laws gcm secrets room at any_owner reader_mask w.master data_ uuid h' r
            low buf short fits allowed refl w.has_root w.has_key made moved,
      )

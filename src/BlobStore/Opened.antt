-- ===== src/BlobStore/Opened.antt =====
-- What the reads of firmware/src/secure_blob_store.c make of a blob that stands in its slot.
use rutgers_2026_e_ctf_desig.Prelude.{
  ℕ, ◌+◌, ◌-◌, ◌≤◌, ◌<◌, ◌≡◌, refl, sym, ap, ◌∙◌, true, false, List, [], ◌∷◌, ◌++◌, append_assoc,
  append-nil, arith, Bytes, u16, ◌==◌, ==_refl, lt→ltb, le→ltb, length, get_or,
}
use mathlib.Core.Path.{subst}
use rutgers_2026_e_ctf_desig.Sha256.{Ctx, ctx_init, ctx_update, ctx_final}
use rutgers_2026_e_ctf_desig.Sha256.Digest.{
  Holds, ctx_init-Holds, ctx_update-Holds, ctx_final-Holds,
}
use rutgers_2026_e_ctf_desig.Flash.{FlashCtl, IsFlash, read_flash}
use rutgers_2026_e_ctf_desig.Crypto.{Aes, IsGcm}
use rutgers_2026_e_ctf_desig.BlobStore.{
  blob_ok, BlobHeader, FatEntry, blank_entry, empty_addr, Store, decode_header, header_size,
  slot_size, max_slots, blob_magic, blob_slot_base, load_header, entry_ok, header_ok, slot_is_empty,
}
use rutgers_2026_e_ctf_desig.BlobStore.Codec.{IsHeader, decode_header-encode}
use rutgers_2026_e_ctf_desig.BlobStore.Chunks.{absorb}
use rutgers_2026_e_ctf_desig.BlobStore.Sealed.{IsBlob, blob_entry}

-- The tags behind each other.
joined : List Bytes → Bytes
joined [] = []
joined (t ∷ ts) = t ++ joined ts

absorb-Holds :
    (ctx : Ctx) (m : Bytes) (tags : List Bytes)
    → Holds ctx m
    → Holds (absorb ctx tags) (m ++ joined tags)
unfolding absorb joined
absorb-Holds ctx m [] h = subst (Holds ctx) (sym (append-nil m)) h
absorb-Holds ctx m (t ∷ ts) h =
    subst (Holds (absorb (ctx_update ctx t) ts)) (append_assoc m t (joined ts))
      (absorb-Holds (ctx_update ctx t) (m ++ t) ts (ctx_update-Holds ctx m t h))

-- The digest of the tags does not depend on what the context held before.
pub digest_same :
    (a b : Ctx) (tags : List Bytes)
    → length a.buf ≡ 64
    → length b.buf ≡ 64
    → ctx_final (absorb (ctx_init a) tags) ≡ ctx_final (absorb (ctx_init b) tags)
digest_same a b tags ha hb =
    let of = λ (k : Ctx) (h : length k.buf ≡ 64).
      ctx_final-Holds (absorb (ctx_init k) tags) (joined tags)
        (absorb-Holds (ctx_init k) [] tags (ctx_init-Holds k h)) in
    of a ha ∙ sym (of b hb)

-- A header that `blob_write` has made for this slot and this plaintext.
pub record IsMade (slot len : ℕ) (h : BlobHeader) : Type 0 where
  pub fields : IsHeader h
  pub magic : h.magic ≡ blob_magic
  pub version : h.version ≡ 1
  pub slot_ : h.slot ≡ slot
  pub len_ : h.plaintext_len ≡ len

entry_ok-blob :
    (slot : ℕ) (uuid : Bytes) (len : ℕ)
    → slot < max_slots
    → len ≤ 8192
    → entry_ok slot (blob_entry slot uuid len) ≡ true
unfolding entry_ok
entry_ok-blob slot uuid len low short =
    let there = ==_refl (blob_slot_base slot) in
    let whole : u16 (header_size + len) ≡ header_size + len = omega arith in
    let above = le→ltb (header_size + len) header_size (omega arith) in
    let below = le→ltb slot_size (header_size + len) (omega arith) in
    simp (there, whole, above, below)

header_ok-blob :
    (slot : ℕ) (uuid : Bytes) (len : ℕ) (h : BlobHeader)
    → len ≤ 8192
    → IsMade slot len h
    → header_ok slot (blob_entry slot uuid len) h ≡ true
unfolding header_ok
header_ok-blob slot uuid len h short made =
    let whole : u16 (header_size + len) ≡ header_size + len = omega arith in
    let fits = le→ltb (slot_size - header_size) len (omega arith) in
    rw
      (
        made.magic,
        made.version,
        made.slot_,
        made.len_,
        ==_refl slot,
        whole,
        ==_refl (header_size + len),
        fits,
      )
      refl

module _ {F C : Type 0} (c : FlashCtl F) (aes : Aes C) (laws : IsFlash c) (gcm : IsGcm aes) where
  pub load_header-IsBlob :
      (s : Store F) (slot : ℕ) (master data_ uuid : Bytes) (h : BlobHeader)
      → slot < max_slots
      → length data_ ≤ 8192
      → IsMade slot (length data_) h
      → IsBlob c aes laws gcm s slot master data_ uuid h
      → load_header c slot s ≡ (blob_ok, h)
  unfolding load_header
  load_header-IsBlob s slot master data_ uuid h low short made b =
      let e = blob_entry slot uuid (length data_) in
      let full : slot_is_empty s.fat slot ≡ false =
        ap (λ (x : FatEntry). x.flash_addr == empty_addr) b.entry ∙ ground arith in
      let valid = lt→ltb slot max_slots low in
      let found : entry_ok slot (get_or s.fat slot blank_entry) ≡ true =
        ap (entry_ok slot) b.entry ∙ entry_ok-blob slot uuid (length data_) low short in
      let read =
        ap (λ (x : FatEntry). decode_header (read_flash c s.flash x.flash_addr header_size)) b.entry
        ∙ ap decode_header b.header
        ∙ decode_header-encode h made.fields in
      let right : header_ok slot (get_or s.fat slot blank_entry) h ≡ true =
        ap (λ (x : FatEntry). header_ok slot x h) b.entry
        ∙ header_ok-blob slot uuid (length data_) h short made in
      simp (load_header, valid, full, found, read, right)

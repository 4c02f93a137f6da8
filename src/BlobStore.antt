-- ===== src/BlobStore.antt =====
-- firmware/src/secure_blob_store.c: encrypted blobs in flash slots, found through the FAT. The
-- debug output of the file is compiled out of a release.
mod Layout
pub mod Write
pub mod Read
pub mod Codec
pub mod Status
pub mod Chunks
pub mod Reading
pub mod Erase
pub mod Sealed
pub mod Opened
pub mod Whole
pub mod Written
pub mod RoundTrip
pub mod Access
pub mod Fat
unfoldable pub use Layout.*
use rutgers_2026_e_ctf_desig.Prelude.{
  ℕ, zero, suc, ◌+◌, ◌-◌, ◌*◌, ◌/◌, bit_and, Bool, true, false, not, ◌&&◌, ◌||◌, ◌⊎◌, inl, inr,
  Option, none, some, List, [], ◌∷◌, ◌++◌, Bytes, bytes_eq, u8, u16, le16, le32, splice, ltb, ◌==◌,
  if◌then◌else◌, length, take, drop, replicate, get_or, set,
}
use rutgers_2026_e_ctf_desig.Sha256.{Ctx, ctx_init, ctx_update, ctx_final}
use rutgers_2026_e_ctf_desig.Flash.{FlashCtl, page_size, erase_page, read_flash, write_flash}
use rutgers_2026_e_ctf_desig.Crypto.{
  Aes, RootSecret, derive_file_enc_key, derive_chunk_key, aes_gcm_encrypt, aes_gcm_decrypt,
  crypto_hmac_sha256, derived_key_size, gcm_tag_size, gcm_nonce_size, hmac_size,
}
use rutgers_2026_e_ctf_desig.Trng.{Capture}
use rutgers_2026_e_ctf_desig.SecureDesign.{get_root_secret, generate_nonce}

-- `g_read_state`
pub record ReadState : Type 0 where
  pub flash_addr : ℕ
  pub processed : ℕ
  pub total_len : ℕ
  pub nonce : Bytes
  pub master_key : Bytes
  pub expected_blob_tag : Bytes
  pub sha_ctx : Ctx

-- `g_fat`, the flag of `blob_store_init`, `g_aad` and `g_read_state`, with what the TRNG will
-- deliver and the flash. The two scratch buffers are local values.
pub record Store (F : Type 0) : Type 0 where
  pub fat : List FatEntry
  pub initialized : Bool
  pub aad : Bytes
  pub reading : ReadState
  pub trng : List Capture
  pub flash : F

-- `blob_slot_base`: below 2^32 for every `uint8_t`.
abbrev pub blob_slot_base : ℕ → ℕ
blob_slot_base slot = flash_base + slot * slot_size

-- `slot_is_empty`
abbrev pub slot_is_empty : List FatEntry → ℕ → Bool
slot_is_empty fat slot = (get_or fat slot blank_entry).flash_addr == empty_addr

-- `slot_is_valid`
abbrev pub slot_is_valid : ℕ → Bool
slot_is_valid slot = ltb slot max_slots

-- The loop of `find_write_slot`, from a slot on.
unfoldable pub first_empty : List FatEntry → ℕ → Option ℕ
first_empty [] slot = none
first_empty (e ∷ es) slot =
    let rest = first_empty es (slot + 1) in if e.flash_addr == empty_addr then some slot else rest

-- `find_write_slot`
unfoldable pub find_write_slot : ℕ → List FatEntry → BlobStatus ⊎ ℕ
find_write_slot requested fat =
    if requested == auto_slot
    then elim (first_empty fat 0) [ none ↦ inl storage_full | some slot ↦ inr slot ]
    else if slot_is_valid requested
    then inr requested
    else inl invalid_slot

-- `build_aad`
unfoldable pub build_aad : BlobHeader → Bytes
build_aad h =
    le32 h.magic
    ++ (le16 h.version
        ++ (le16 h.slot
            ++ (le32 h.plaintext_len ++ (le32 h.group_mask ++ (h.owner_pin_hash ++ h.nonce)))))

-- `derive_file_key`
unfoldable pub derive_file_key : RootSecret → ℕ → Option Bytes
derive_file_key root group_id =
    if ltb 0xFFFF group_id then none else derive_file_enc_key root group_id derived_key_size

-- The key of a chunk. The call fails for no size but 0, and its result is not looked at.
unfoldable pub chunk_key : Bytes → ℕ → Bytes
chunk_key master idx = elim (derive_chunk_key master idx derived_key_size) [
  | none ↦ []
  | some k ↦ k
]

-- The page that `commit_fat_entry` writes.
abbrev pub fat_page : List FatEntry → ℕ → FatEntry → Bytes
fat_page fat slot entry =
    splice (splice (replicate page_size 255) 0 (encode_fat fat)) (slot * fat_entry_size)
      (encode_entry entry)

-- What `load_header` asks of the FAT entry of a slot, and of the header that it leads to.
unfoldable pub entry_ok : ℕ → FatEntry → Bool
entry_ok slot e =
    e.flash_addr == blob_slot_base slot
    && (not (ltb e.length header_size) && not (ltb slot_size e.length))

unfoldable pub header_ok : ℕ → FatEntry → BlobHeader → Bool
header_ok slot e h =
    h.magic == blob_magic
    && (h.version == 1
        && (h.slot == slot
            && (not (ltb (slot_size - header_size) h.plaintext_len)
                && e.length == header_size + h.plaintext_len)))

module _ {F : Type 0} (c : FlashCtl F) where
  -- The loop of `erase_slot_pages`, over the pages that are left.
  unfoldable pub erase_pages : ℕ → ℕ → F → Bool × F
  erase_pages zero address f = (true, f)
  erase_pages (suc n) address f =
      let (erased, f1) = erase_page c address f in
      let rest = erase_pages n (address + page_size) f1 in if erased then rest else (false, f1)

  -- `erase_slot_pages`
  unfoldable pub erase_slot_pages : ℕ → F → BlobStatus × F
  erase_slot_pages slot f =
      let (erased, f1) = erase_pages 12 (blob_slot_base slot) f in
      if erased then (blob_ok, f1) else (io_error, f1)

  -- `commit_fat_entry`
  unfoldable pub commit_fat_entry : ℕ → FatEntry → Store F → BlobStatus × Store F
  commit_fat_entry slot entry s =
      let (erased, f1) = erase_page c fat_addr s.flash in
      let (written, f2) = write_flash c fat_addr (fat_page s.fat slot entry) f1 in
      if slot_is_valid slot
      then if erased
        then if written
          then (blob_ok, record s { fat = set s.fat slot entry; flash = f2 })
          else (io_error, record s { flash = f2 })
        else (io_error, record s { flash = f1 })
      else (invalid_argument, s)

  -- `load_header`
  unfoldable pub load_header : ℕ → Store F → BlobStatus × BlobHeader
  load_header slot s =
      let entry = get_or s.fat slot blank_entry in
      let h = decode_header (read_flash c s.flash entry.flash_addr header_size) in
      if slot_is_valid slot
      then if slot_is_empty s.fat slot
        then (not_found, h)
        else if entry_ok slot entry
        then (if header_ok slot entry h then (blob_ok, h) else (corrupt, h))
        else (corrupt, h)
      else (invalid_argument, h)

  -- `blob_store_init`
  unfoldable pub blob_store_init : Store F → BlobStatus × Store F
  blob_store_init s = if s.initialized then (blob_ok, s) else (
    blob_ok,
    record s {
      fat = decode_fat max_slots (read_flash c s.flash fat_addr (max_slots * fat_entry_size));
      initialized = true;
    },
  )

  -- `init_blob_store`; the Boolean is a return of 0.
  unfoldable pub init_blob_store : Store F → Bool × Store F
  init_blob_store s =
      let (rc, s1) = blob_store_init s in (elim rc [ blob_ok ↦ true | _ ↦ false ], s1)

  -- `blob_delete`
  unfoldable pub blob_delete : ℕ → Store F → BlobStatus × Store F
  blob_delete slot s =
      let (rc, f1) = erase_slot_pages slot s.flash in
      let s1 = record s { flash = f1 } in
      let committed = commit_fat_entry slot blank_entry s1 in
      if slot_is_valid slot
      then if slot_is_empty s.fat slot then (not_found, s) else after_ok rc s1 committed
      else (invalid_slot, s)

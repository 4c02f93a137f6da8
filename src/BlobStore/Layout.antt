-- ===== src/BlobStore/Layout.antt =====
-- firmware/src/secure_blob_store.c and its header: the constants, and the records that the store
-- keeps in flash, byte by byte.
use rutgers_2026_e_ctf_desig.Prelude.{
  ℕ, zero, suc, List, [], ◌∷◌, ◌++◌, Bytes, le16, le32, load16, load32, take, drop,
}

-- `secure_blob_store_status_t`
pub data BlobStatus : Type 0 where
  blob_ok invalid_argument invalid_slot storage_full not_found permission_denied : BlobStatus
  buffer_too_small io_error crypto_error corrupt bad_len : BlobStatus

-- `if (rc != SECURE_BLOB_STORE_OK) return rc;` in front of what follows.
unfoldable pub after_ok : {A : Type 0} → BlobStatus → A → BlobStatus × A → BlobStatus × A
after_ok rc x next = elim rc [ blob_ok ↦ next | other ↦ (other, x) ]

-- The same where the status comes with another result.
unfoldable pub after_ok_inner :
    {A B : Type 0} → BlobStatus → A → B → (BlobStatus × A) × B → (BlobStatus × A) × B
after_ok_inner rc x y next = elim rc [ blob_ok ↦ next | other ↦ ((other, x), y) ]

abbrev pub flash_base : ℕ
flash_base = 0x22000

abbrev pub fat_addr : ℕ
fat_addr = 0x3A000

abbrev pub max_slots : ℕ
max_slots = 8

abbrev pub auto_slot : ℕ
auto_slot = 0xFF

-- (0x3A000 - 0x22000) / 8
abbrev pub slot_size : ℕ
slot_size = 12288

abbrev pub tags_offset : ℕ
tags_offset = 11776

abbrev pub chunk_bytes : ℕ
chunk_bytes = 256

abbrev pub header_size : ℕ
header_size = 96

abbrev pub fat_entry_size : ℕ
fat_entry_size = 24

abbrev pub blob_magic : ℕ
blob_magic = 0x53425331

abbrev pub empty_addr : ℕ
empty_addr = 0xFFFFFFFF

-- `secure_blob_fat_entry_t`
pub record FatEntry : Type 0 where
  pub uuid : Bytes
  pub length : ℕ
  pub padding : ℕ
  pub flash_addr : ℕ

-- `secure_blob_flash_header_t`
pub record BlobHeader : Type 0 where
  pub magic : ℕ
  pub version : ℕ
  pub slot : ℕ
  pub plaintext_len : ℕ
  pub group_mask : ℕ
  pub owner_pin_hash : Bytes
  pub nonce : Bytes
  pub blob_tag : Bytes
  pub reserved : Bytes

-- The bytes of an entry of 24 bytes, and of a table of them.
abbrev pub encode_entry : FatEntry → Bytes
encode_entry e = e.uuid ++ (le16 e.length ++ (le16 e.padding ++ le32 e.flash_addr))

abbrev pub decode_entry : Bytes → FatEntry
decode_entry b = record {
  uuid = take 16 b;
  length = load16 b 16;
  padding = load16 b 18;
  flash_addr = load32 b 20;
}

abbrev pub encode_fat : List FatEntry → Bytes
encode_fat [] = []
encode_fat (e ∷ es) = encode_entry e ++ encode_fat es

abbrev pub decode_fat : ℕ → Bytes → List FatEntry
decode_fat zero b = []
decode_fat (suc n) b = decode_entry b ∷ decode_fat n (drop fat_entry_size b)

-- `memset(&entry, 0xFF, sizeof(entry))`
abbrev pub blank_entry : FatEntry
blank_entry = decode_entry (
    255 ∷ 255 ∷ 255 ∷ 255 ∷ 255 ∷ 255 ∷ 255 ∷ 255 ∷ 255 ∷ 255 ∷ 255 ∷ 255 ∷ 255 ∷ 255 ∷ 255 ∷ 255
    ∷ 255 ∷ 255 ∷ 255 ∷ 255 ∷ 255 ∷ 255 ∷ 255 ∷ 255 ∷ [])

-- The bytes of a header of 96 bytes.
abbrev pub encode_header : BlobHeader → Bytes
encode_header h =
    le32 h.magic
    ++ (le16 h.version
        ++ (le16 h.slot
            ++ (le32 h.plaintext_len
                ++ (le32 h.group_mask
                    ++ (h.owner_pin_hash ++ (h.nonce ++ (h.blob_tag ++ h.reserved)))))))

abbrev pub decode_header : Bytes → BlobHeader
decode_header b = record {
  magic = load32 b 0;
  version = load16 b 4;
  slot = load16 b 6;
  plaintext_len = load32 b 8;
  group_mask = load32 b 12;
  owner_pin_hash = take 32 (drop 16 b);
  nonce = take 12 (drop 48 b);
  blob_tag = take 32 (drop 60 b);
  reserved = take 4 (drop 92 b);
}

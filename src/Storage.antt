-- ===== src/Storage.antt =====
-- firmware/src/storage.c: authenticated metadata of the files. The results of an erasure and of a
-- write are not looked at, and the state is the flash.
pub mod Counter
use rutgers_2026_e_ctf_desig.Prelude.{
  ℕ, ◌+◌, ◌*◌, Bool, true, false, Option, none, some, ◌∷◌, ◌++◌, Bytes, bytes_eq, byte_at, u32,
  le16, le32, load16, load32, splice, ltb, ◌==◌, if◌then◌else◌, take, drop, replicate,
}
use rutgers_2026_e_ctf_desig.Flash.{FlashCtl, page_size, erase_page, read_flash, write_flash}
use rutgers_2026_e_ctf_desig.Crypto.{
  RootSecret, derive_xfer_root_key, crypto_hmac_sha256, derived_key_size,
}
use rutgers_2026_e_ctf_desig.SecureDesign.{get_root_secret}
use rutgers_2026_e_ctf_desig.BlobStore.{FatEntry, encode_entry, decode_entry, fat_entry_size}

abbrev pub fat_base_address : ℕ
fat_base_address = 0x3A000

abbrev pub app2_base_address : ℕ
app2_base_address = 0x3A400

abbrev pub max_fat_entries : ℕ
max_fat_entries = 8

abbrev pub fat_page_magic : ℕ
fat_page_magic = 0xCAFEF00D

-- `FAT_PAGE_MAGIC_OFFSET`
abbrev pub magic_offset : ℕ
magic_offset = 192

-- `sizeof(fat_ext_t)`, with six bytes for its `group_permission_t`.
abbrev pub ext_size : ℕ
ext_size = 48

-- `fat_ext_t`; the flags are bytes, and the group and the padding of the permission are kept.
pub record FatExt : Type 0 where
  pub file_addr : ℕ
  pub group_id : ℕ
  pub perm_group : ℕ
  pub read : ℕ
  pub write : ℕ
  pub receive : ℕ
  pub perm_padding : ℕ
  pub counter : ℕ
  pub metadata_hmac : Bytes

abbrev pub encode_ext : FatExt → Bytes
encode_ext e =
    le32 e.file_addr
    ++ (le16 e.group_id
        ++ (le16 e.perm_group
            ++ (e.read
                ∷ e.write
                ∷ e.receive
                ∷ e.perm_padding
                ∷ (le32 e.counter ++ e.metadata_hmac))))

abbrev pub decode_ext : Bytes → FatExt
decode_ext b = record {
  file_addr = load32 b 0;
  group_id = load16 b 4;
  perm_group = load16 b 6;
  read = byte_at b 8;
  write = byte_at b 9;
  receive = byte_at b 10;
  perm_padding = byte_at b 11;
  counter = load32 b 12;
  metadata_hmac = take 32 (drop 16 b);
}

-- `x ? 1u : 0u`
abbrev pub flag : ℕ → ℕ
flag b = if b == 0 then 0 else 1

-- `build_hmac_msg`
unfoldable pub build_hmac_msg : Bytes → FatExt → Bytes
build_hmac_msg uuid e =
    uuid ++ (le16 e.group_id ++ (flag e.read ∷ flag e.write ∷ flag e.receive ∷ le32 e.counter))

-- `derive_group_auth_key`
unfoldable pub derive_group_auth_key : RootSecret → ℕ → Option Bytes
derive_group_auth_key root group_id = derive_xfer_root_key root group_id derived_key_size

-- The HMAC that `counter` stores, of the secrets that the build generates.
unfoldable pub metadata_hmac_of : Bytes → Bytes → FatExt → Option Bytes
unfolding derive_group_auth_key build_hmac_msg
metadata_hmac_of global_secrets uuid e = elim (get_root_secret global_secrets) [
  | none ↦ none
  | some root ↦ elim (derive_group_auth_key root e.group_id) [
    | none ↦ none
    | some key ↦ crypto_hmac_sha256 key (build_hmac_msg uuid e) 32
  ]
]

module _ {F : Type 0} (c : FlashCtl F) where
  -- An erasure and a write of a whole page.
  unfoldable pub rewrite_page : ℕ → Bytes → F → F
  rewrite_page address page f = (write_flash c address page (erase_page c address f).1).1

  -- `fat_page_is_valid`
  unfoldable pub fat_page_is_valid : F → Bool
  fat_page_is_valid f =
      load32 (read_flash c f (fat_base_address + magic_offset) 4) 0 == fat_page_magic

  -- `storage_init`; the Boolean is a return of 0.
  unfoldable pub storage_init : F → Bool × F
  unfolding fat_page_is_valid rewrite_page
  storage_init f =
      let page = splice (replicate page_size 255) magic_offset (le32 fat_page_magic) in
      if fat_page_is_valid f then (true, f) else (false, rewrite_page fat_base_address page f)

  -- `get_fat_entry`, for an index that is not negative; out of range it leaves the entry as it was.
  unfoldable pub get_fat_entry : ℕ → FatEntry → F → FatEntry
  get_fat_entry index out f =
      let e =
        decode_entry (read_flash c f (fat_base_address + index * fat_entry_size) fat_entry_size) in
      if ltb index max_fat_entries then e else out

  -- `update_fat_entry`
  unfoldable pub update_fat_entry : ℕ → FatEntry → F → Bool × F
  unfolding rewrite_page
  update_fat_entry index e f =
      let old = read_flash c f fat_base_address page_size in
      let page =
        splice (splice old (index * fat_entry_size) (encode_entry e)) magic_offset
          (le32 fat_page_magic) in
      if ltb index max_fat_entries then (true, rewrite_page fat_base_address page f) else (false, f)

  -- An element of `flash_ext`.
  unfoldable pub ext_at : F → ℕ → FatExt
  ext_at f index = decode_ext (read_flash c f (app2_base_address + index * ext_size) ext_size)

  -- `counter`
  unfoldable pub counter : Bytes → ℕ → F → Bool × F
  unfolding rewrite_page get_fat_entry metadata_hmac_of
  counter global_secrets index f =
      let old = read_flash c f app2_base_address page_size in
      let before = decode_ext (drop (index * ext_size) old) in
      let raised = record before { counter = u32 (before.counter + 1) } in
      let entry =
        decode_entry (read_flash c f (fat_base_address + index * fat_entry_size) fat_entry_size) in
      let signed : Bool × F = elim (metadata_hmac_of global_secrets entry.uuid raised) [
        | none ↦ (false, f)
        | some mac ↦
            let page =
              splice old (index * ext_size) (encode_ext (record raised { metadata_hmac = mac })) in
            (true, rewrite_page app2_base_address page f)
      ] in
      if ltb index max_fat_entries then signed else (false, f)

  -- `verify_file_metadata`; the Boolean is a return of 0.
  unfoldable pub verify_file_metadata : ℕ → FatEntry → Bytes → F → Bool
  unfolding ext_at build_hmac_msg
  verify_file_metadata index entry group_key f =
      let current = ext_at f index in
      let checked : Bool =
        elim (crypto_hmac_sha256 group_key (build_hmac_msg entry.uuid current) 32) [
          | none ↦ false
          | some mac ↦ bytes_eq mac current.metadata_hmac
        ] in
      if ltb index max_fat_entries
      then (if current.file_addr == entry.flash_addr then checked else false)
      else false

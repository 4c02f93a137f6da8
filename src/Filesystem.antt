-- ===== src/Filesystem.antt =====
-- firmware/src/filesystem.c: plain files in flash, found through a table at the address that the
-- blob store's FAT has, of entries with the same 24 bytes.
pub mod RoundTrip
use rutgers_2026_e_ctf_desig.Prelude.{
  ℕ, zero, suc, ◌+◌, ◌*◌, ◌^◌, Bool, false, Option, none, some, List, ◌++◌, Bytes, u16, le16, le32,
  load32, splice, ltb, leb, ◌==◌, if◌then◌else◌, length, take, replicate, get_or, set,
}
use rutgers_2026_e_ctf_desig.Flash.{FlashCtl, page_size, erase_page, read_flash, write_flash}
use rutgers_2026_e_ctf_desig.BlobStore.{
  FatEntry, blank_entry, encode_fat, decode_fat, fat_entry_size,
}

abbrev pub flash_fat_start : ℕ
flash_fat_start = 0x3A000

abbrev pub max_file_count : ℕ
max_file_count = 8

abbrev pub files_start_addr : ℕ
files_start_addr = 0x10000

abbrev pub file_page_count : ℕ
file_page_count = 9

-- `STORED_FILE_SIZE`
abbrev pub stored_file_size : ℕ
stored_file_size = page_size * file_page_count

-- `FILE_START_PAGE_FROM_SLOT`
abbrev pub file_start : ℕ → ℕ
file_start slot = files_start_addr + stored_file_size * slot

-- `FILE_TOTAL_SIZE`: the contents stand at offset 68 of `file_t`.
abbrev pub file_total_size : ℕ → ℕ
file_total_size len = len + 68

abbrev pub file_in_use : ℕ
file_in_use = 0xDEADBEEF

-- `sizeof(file_t)`
abbrev pub file_size : ℕ
file_size = 8260

-- `file_t`, and its bytes.
pub record FileRecord : Type 0 where
  pub in_use : ℕ
  pub group_id : ℕ
  pub name : Bytes
  pub contents_len : ℕ
  pub nonce : Bytes
  pub tag : Bytes
  pub contents : Bytes

abbrev pub encode_file : FileRecord → Bytes
encode_file r =
    le32 r.in_use
    ++ (le16 r.group_id ++ (r.name ++ (le16 r.contents_len ++ (r.nonce ++ (r.tag ++ r.contents)))))

-- `FILE_ALLOCATION_TABLE`, and the flash.
pub record FileTable (F : Type 0) : Type 0 where
  pub table : List FatEntry
  pub flash : F

-- `create_file`. The name is without its NUL, and shorter than its field.
unfoldable pub create_file : ℕ → Bytes → Bytes → FileRecord
create_file group_id name contents = record {
  in_use = file_in_use;
  group_id = group_id;
  name = splice (replicate 32 0) 0 name;
  contents_len = length contents;
  nonce = replicate 12 0;
  tag = replicate 16 0;
  contents = splice (replicate 8192 0) 0 contents;
}

module _ {F : Type 0} where
  -- `get_file_metadata`
  unfoldable pub get_file_metadata : ℕ → FileTable F → FatEntry
  get_file_metadata slot s = get_or s.table slot blank_entry

module _ {F : Type 0} (c : FlashCtl F) where
  -- `load_fat`, and `init_fs`, which calls it.
  unfoldable pub load_fat : FileTable F → FileTable F
  load_fat s = record s {
    table =
        decode_fat max_file_count
          (read_flash c s.flash flash_fat_start (max_file_count * fat_entry_size));
  }

  unfoldable pub init_fs : FileTable F → FileTable F
  unfolding load_fat
  init_fs s = load_fat s

  -- `store_fat`: what the erasure returns is not looked at.
  unfoldable pub store_fat : FileTable F → Bool × FileTable F
  store_fat s =
      let f1 = (erase_page c flash_fat_start s.flash).1 in
      let (written, f2) = write_flash c flash_fat_start (encode_fat s.table) f1 in
      (written, record s { flash = f2 })

  -- The loop of `write_file` over the pages that are left.
  unfoldable pub erase_file : ℕ → ℕ → F → F
  erase_file zero address f = f
  erase_file (suc n) address f = erase_file n (address + page_size) (erase_page c address f).1

  -- `write_file`
  unfoldable pub write_file : ℕ → FileRecord → Bytes → FileTable F → Bool × FileTable F
  unfolding store_fat erase_file
  write_file slot src uuid s =
      let address = file_start slot in
      let len = file_total_size src.contents_len in
      let old = get_or s.table slot blank_entry in
      let entry = record old { uuid = uuid; length = u16 len; flash_addr = address } in
      let s1 = (store_fat (record s { table = set s.table slot entry })).1 in
      let f1 = erase_file file_page_count address s1.flash in
      let (written, f2) = write_flash c address (take len (encode_file src)) f1 in
      (written, record s1 { flash = f2 })

  -- `read_file`, into a `file_t` with the bytes `dest`; `none` is a return of -1. The address is
  -- negative as an `int` from 2^31 on.
  unfoldable pub read_file : ℕ → Bytes → FileTable F → Option Bytes
  read_file slot dest s =
      let e = get_or s.table slot blank_entry in
      if leb (2 ^ 31) e.flash_addr
      then none
      else if ltb e.flash_addr files_start_addr
      then none
      else if e.length == 0
      then none
      else some (splice dest 0 (read_flash c s.flash e.flash_addr e.length))

  -- `is_slot_in_use`
  unfoldable pub is_slot_in_use : ℕ → FileTable F → Bool
  unfolding read_file
  is_slot_in_use slot s = elim (read_file slot (replicate file_size 0) s) [
    | none ↦ false
    | some b ↦ load32 b 0 == file_in_use
  ]

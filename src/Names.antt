-- ===== src/Names.antt =====
-- The name table of firmware/src/commands.c: a page of flash and its shadow in RAM.
pub mod Persist
use rutgers_2026_e_ctf_desig.Prelude.{
  ℕ, zero, suc, ◌*◌, Bool, true, false, ◌&&◌, not, List, [], ◌∷◌, ◌++◌, Bytes, byte_at, le16,
  load16, splice, ltb, ◌==◌, if◌then◌else◌, take, drop, replicate, get_or, set,
}
use rutgers_2026_e_ctf_desig.Flash.{FlashCtl, page_size, erase_page, read_flash, write_flash}
use rutgers_2026_e_ctf_desig.BlobStore.{FatEntry, slot_is_empty, max_slots}

abbrev pub name_table_addr : ℕ
name_table_addr = 0x3A400

abbrev pub name_entry_size : ℕ
name_entry_size = 64

abbrev pub name_in_use : ℕ
name_in_use = 1

abbrev pub max_name_size : ℕ
max_name_size = 32

-- `blob_name_entry_t`
pub record NameEntry : Type 0 where
  pub name : Bytes
  pub group_id : ℕ
  pub in_use : ℕ
  pub reserved : Bytes

-- The bytes of an entry of 64 bytes, and of a table of them.
abbrev pub encode_name : NameEntry → Bytes
encode_name e = e.name ++ (le16 e.group_id ++ (e.in_use ∷ e.reserved))

abbrev pub decode_name : Bytes → NameEntry
decode_name b = record {
  name = take 32 b;
  group_id = load16 b 32;
  in_use = byte_at b 34;
  reserved = take 29 (drop 35 b);
}

abbrev pub encode_names : List NameEntry → Bytes
encode_names [] = []
encode_names (e ∷ es) = encode_name e ++ encode_names es

abbrev pub decode_names : ℕ → Bytes → List NameEntry
decode_names zero b = []
decode_names (suc n) b = decode_name b ∷ decode_names n (drop name_entry_size b)

-- `memset(&g_name_table[slot], 0xFF, sizeof(g_name_table[slot]))`
abbrev pub blank_name : NameEntry
blank_name = record {
  name = replicate 32 255;
  group_id = 0xFFFF;
  in_use = 255;
  reserved = replicate 29 255;
}

-- The entry that `save_name_entry` makes: its last character is a NUL.
abbrev pub new_name : Bytes → ℕ → NameEntry
new_name name group_id = record {
  name = set name 31 0;
  group_id = group_id;
  in_use = name_in_use;
  reserved = replicate 29 255;
}

-- The shadow `g_name_table`, and the flash.
pub record NameTable (F : Type 0) : Type 0 where
  pub names : List NameEntry
  pub flash : F

abbrev pub name_at : List NameEntry → ℕ → NameEntry
name_at names slot = get_or names slot blank_name

-- `slot_occupied`
unfoldable pub slot_occupied : List NameEntry → List FatEntry → ℕ → Bool
slot_occupied names fat slot =
    if ltb slot max_slots
    then (name_at names slot).in_use == name_in_use && not (slot_is_empty fat slot)
    else false

module _ {F : Type 0} (c : FlashCtl F) where
  -- `load_name_table`
  unfoldable pub load_name_table : NameTable F → NameTable F
  load_name_table t = record t {
    names =
        decode_names max_slots (read_flash c t.flash name_table_addr (max_slots * name_entry_size));
  }

  -- `flush_name_table`; the Boolean is a return of 0.
  unfoldable pub flush_name_table : NameTable F → Bool × NameTable F
  flush_name_table t =
      let page = splice (replicate page_size 255) 0 (encode_names t.names) in
      let (erased, f1) = erase_page c name_table_addr t.flash in
      let (written, f2) = write_flash c name_table_addr page f1 in
      if erased
      then (if written then (true, record t { flash = f2 }) else (false, record t { flash = f2 }))
      else (false, record t { flash = f1 })

  -- `save_name_entry`
  unfoldable pub save_name_entry : ℕ → Bytes → ℕ → NameTable F → Bool × NameTable F
  save_name_entry slot name group_id t =
      if ltb slot max_slots
      then flush_name_table (record t { names = set t.names slot (new_name name group_id) })
      else (false, t)

  -- `clear_name_entry`
  unfoldable pub clear_name_entry : ℕ → NameTable F → Bool × NameTable F
  clear_name_entry slot t =
      if ltb slot max_slots
      then flush_name_table (record t { names = set t.names slot blank_name })
      else (false, t)

-- ===== src/Hsm/Shelf.antt =====
-- The name table of firmware/src/commands.c keeps its form.
use rutgers_2026_e_ctf_desig.Prelude.{
  ℕ, zero, suc, ◌<◌, ◌≡◌, ◌∙◌, Bool, List, [], ◌∷◌, arith, Bytes, ltb, if_keeps, length, set,
  length-set, splice, replicate, refl,
}
use rutgers_2026_e_ctf_desig.Flash.{FlashCtl, erase_page, write_flash, page_size}
use rutgers_2026_e_ctf_desig.BlobStore.{max_slots}
use rutgers_2026_e_ctf_desig.Names.{
  NameEntry, NameTable, blank_name, new_name, flush_name_table, save_name_entry, clear_name_entry,
  name_table_addr, encode_names,
}
use rutgers_2026_e_ctf_desig.Commands.Listing.{IsName, AllNames}

-- Eight entries with a name of 32 bytes and a group of 16 bits.
pub record IsShelf (names : List NameEntry) : Type 0 where
  pub sized : length names ≡ max_slots
  pub all : AllNames names

AllNames-set :
    (names : List NameEntry) (i : ℕ) (e : NameEntry)
    → IsName e
    → AllNames names
    → AllNames (set names i e)
AllNames-set [] i e v w = tt
AllNames-set (x ∷ xs) zero e v w = (v, w.1)
AllNames-set (x ∷ xs) (suc i) e v w = (w.0, AllNames-set xs i e v w.1)

IsShelf-set :
    (names : List NameEntry) (i : ℕ) (e : NameEntry)
    → IsName e
    → IsShelf names
    → IsShelf (set names i e)
IsShelf-set names i e v w = record {
  sized = length-set names i e ∙ w.sized;
  all = AllNames-set names i e v w.all;
}

module _ {F : Type 0} (c : FlashCtl F) where
  abbrev OnShelf : Bool × NameTable F → Type 0
  OnShelf r = IsShelf r.1.names

  flush-IsShelf : (t : NameTable F) → IsShelf t.names → IsShelf (flush_name_table c t).1.names
  unfolding flush_name_table
  flush-IsShelf t v =
      let (erased, f1) = erase_page c name_table_addr t.flash in
      let (written, f2) =
        write_flash c name_table_addr (splice (replicate page_size 255) 0 (encode_names t.names))
          f1 in
      if_keeps OnShelf erased (λ _. if_keeps OnShelf written (λ _. v) (λ _. v)) (λ _. v)

  pub save_name_entry-IsShelf :
      (slot : ℕ) (name : Bytes) (group_id : ℕ) (t : NameTable F)
      → length name ≡ 32
      → group_id < 65536
      → IsShelf t.names
      → IsShelf (save_name_entry c slot name group_id t).1.names
  unfolding save_name_entry
  save_name_entry-IsShelf slot name group_id t sized low v =
      let e : IsName (new_name name group_id) = record {
        group_fits = low;
        name_fits = length-set name 31 0 ∙ sized;
      } in
      if_keeps OnShelf (ltb slot max_slots)
        (λ _.
          flush-IsShelf (record t { names = set t.names slot (new_name name group_id) })
            (IsShelf-set t.names slot (new_name name group_id) e v))
        (λ _. v)

  pub clear_name_entry-IsShelf :
      (slot : ℕ) (t : NameTable F) → IsShelf t.names → IsShelf (clear_name_entry c slot t).1.names
  unfolding clear_name_entry
  clear_name_entry-IsShelf slot t v =
      let e : IsName blank_name = record { group_fits = omega arith; name_fits = refl } in
      if_keeps OnShelf (ltb slot max_slots)
        (λ _.
          flush-IsShelf (record t { names = set t.names slot blank_name })
            (IsShelf-set t.names slot blank_name e v))
        (λ _. v)

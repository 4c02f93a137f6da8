-- ===== src/Transfer/Fits.antt =====
-- The listings of firmware/src/commands.c fit the buffer that is sent, and the one that reads them.
use rutgers_2026_e_ctf_desig.Prelude.{
  ℕ, ◌*◌, ◌≤◌, ◌≡◌, refl, Bool, List, [], ◌∷◌, map, arith, length, length-append,
}
use rutgers_2026_e_ctf_desig.BlobStore.{FatEntry, max_slots}
use rutgers_2026_e_ctf_desig.Names.{NameEntry, slot_occupied}
use rutgers_2026_e_ctf_desig.Commands.{
  FileMetadata, encode_metadata, encode_metadatas, encode_list, metadata_of, generate_list_files,
}
use rutgers_2026_e_ctf_desig.Commands.Listing.{
  AllMetadata, AllNames, metadata-All, slots_where, length-slots, length-metadata, list_from_lem,
}
use rutgers_2026_e_ctf_desig.Transfer.{GroupProof}
use rutgers_2026_e_ctf_desig.Transfer.Listen.{filtered_from}
use rutgers_2026_e_ctf_desig.Transfer.Listed.{listed, filtered_from_lem}

length-encode_metadatas :
    (ms : List FileMetadata) → AllMetadata ms → length (encode_metadatas ms) ≡ length ms * 35
length-encode_metadatas [] v = refl
length-encode_metadatas (m ∷ ms) v = omega (
  arith,
  length-append (encode_metadata m) (encode_metadatas ms),
  v.0.name_fits,
  length-encode_metadatas ms v.1,
)

-- A list of the slots that pass a test.
slots-fit :
    (p : ℕ → Bool) (names : List NameEntry)
    → AllNames names
    → length (encode_list (map (metadata_of names) (slots_where p max_slots 0))) ≤ 284
slots-fit p names v =
    let slots = slots_where p 8 0 in
    omega (
      arith,
      length-encode_metadatas (map (metadata_of names) slots) (metadata-All names slots v),
      length-metadata names slots,
      length-slots p 8 0,
    )

-- With names of 32 bytes and groups below 65536, the listing for the host and the one for another
-- module, whatever its proofs, have at most 284 bytes, the size of `list_response_t`.
pub listings-fit :
    (names : List NameEntry) (fat : List FatEntry) (proofs : List GroupProof)
    → AllNames names
    → (length (encode_list (generate_list_files names fat)) ≤ 284)
      × (length (encode_list (filtered_from proofs names fat max_slots 0 0)) ≤ 284)
unfolding generate_list_files
listings-fit names fat proofs v = (
  rw (list_from_lem names fat 8 0 0 (omega arith)) (slots-fit (slot_occupied names fat) names v),
  rw (filtered_from_lem proofs names fat 8 0 0 (omega arith))
      (slots-fit (listed proofs names fat) names v),
)

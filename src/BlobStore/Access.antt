-- ===== src/BlobStore/Access.antt =====
-- Who may read a blob of firmware/src/secure_blob_store.c, and what a deletion leaves.
use rutgers_2026_e_ctf_desig.Prelude.{
  ℕ, ◌<◌, ◌≡◌, ◌≢◌, refl, sym, ap, ◌∙◌, bit_and, true, false, List, arith, Bytes, ltb→lt, ◌==◌,
  Bool-cases, inl, inr, if◌then◌else◌, length, get_or, get_or-set_self, get_or-set_ne,
}
use rutgers_2026_e_ctf_desig.Flash.{FlashCtl, IsFlash}
use rutgers_2026_e_ctf_desig.BlobStore.{
  BlobStatus, blob_ok, not_found, permission_denied, invalid_argument, invalid_slot, BlobHeader,
  FatEntry, blank_entry, Store, max_slots, empty_addr, slot_is_valid, slot_is_empty, load_header,
  erase_slot_pages, commit_fat_entry, blob_delete,
}
use rutgers_2026_e_ctf_desig.BlobStore.Status.{
  ok_clash, inner_clash, after_ok-ok, after_ok_inner-ok,
}
use rutgers_2026_e_ctf_desig.BlobStore.Read.{Reader, owner_ok, open_read, blob_read_init_internal}
use rutgers_2026_e_ctf_desig.BlobStore.Fat.{commit-steps}

module _ {F : Type 0} (c : FlashCtl F) where
  -- A read that is opened was allowed by the header of the slot.
  pub record IsAllowed (slot : ℕ) (reader : Reader) (mask : ℕ) (s : Store F) : Type 0 where
    pub header : BlobHeader
    pub valid : slot < max_slots
    pub loaded : load_header c slot s ≡ (blob_ok, header)
    pub shared : (bit_and mask header.group_mask == 0) ≡ false
    pub owned : owner_ok reader header ≡ true

  -- A read that `blob_read_init_internal` opens is of one of the eight slots, has loaded that
  -- slot's header, has a group mask that shares a bit with the header's, and, where a PIN hash is
  -- required, one that compares equal to the header's owner.
  pub opened-IsAllowed :
      (secrets : Bytes) (slot : ℕ) (reader : Reader) (mask : ℕ) (s s' : Store F) (n : ℕ)
      → blob_read_init_internal c secrets slot reader mask s ≡ ((blob_ok, n), s')
      → IsAllowed slot reader mask s
  unfolding blob_read_init_internal
  opened-IsAllowed secrets slot reader mask s s' n r =
      let (rc, h) = load_header c slot s in
      elim (Bool-cases (slot_is_valid slot)) [
        | inr bad ↦
            absurd (inner_clash invalid_argument 0 s refl r (simp (blob_read_init_internal, bad)))
        | inl valid ↦
            let guarded : (BlobStatus × ℕ) × Store F =
              if bit_and mask h.group_mask == 0
              then ((permission_denied, 0), s)
              else (if owner_ok reader h
                  then open_read secrets slot h s
                  else ((permission_denied, 0), s)) in
            let (loaded, more) =
              after_ok_inner-ok rc 0 s {next = guarded}
                (sym (simp (blob_read_init_internal, valid)) ∙ r) in
            elim (Bool-cases (bit_and mask h.group_mask == 0)) [
              | inl apart ↦ absurd (inner_clash permission_denied 0 s refl more (simp apart))
              | inr shared ↦ elim (Bool-cases (owner_ok reader h)) [
                | inr other ↦
                    absurd (inner_clash permission_denied 0 s refl more (simp (shared, other)))
                | inl owned ↦ record {
                  header = h;
                  valid = ltb→lt slot max_slots valid;
                  loaded = ap (λ (t : BlobStatus). (t, h)) loaded;
                  shared = shared;
                  owned = owned;
                }
              ]
            ]
      ]

module _ {F : Type 0} (c : FlashCtl F) (laws : IsFlash c) where
  -- With a FAT of eight entries, after a `blob_delete` that succeeds the slot has no header to
  -- load (NOT_FOUND), and every other entry of the FAT is as it was.
  pub blob_delete-not_found :
      (slot : ℕ) (s : Store F) {s' : Store F}
      → length s.fat ≡ max_slots
      → blob_delete c slot s ≡ (blob_ok, s')
      → ((load_header c slot s').0 ≡ not_found)
        × ((j : ℕ) → j ≢ slot → get_or s'.fat j blank_entry ≡ get_or s.fat j blank_entry)
  unfolding blob_delete load_header
  blob_delete-not_found slot s {s'} n r =
      let (rc, f1) = erase_slot_pages c slot s.flash in
      let s1 = record s { flash = f1 } in
      elim (Bool-cases (slot_is_valid slot)) [
        | inr bad ↦ absurd (ok_clash invalid_slot s refl r (simp (blob_delete, bad)))
        | inl valid ↦ elim (Bool-cases (slot_is_empty s.fat slot)) [
          | inl empty ↦ absurd (ok_clash not_found s refl r (simp (blob_delete, valid, empty)))
          | inr full ↦
              let deleted =
                after_ok-ok rc s1 {next = commit_fat_entry c slot blank_entry s1}
                  (sym (simp (blob_delete, valid, full)) ∙ r) in
              let changed = (commit-steps c laws slot blank_entry s1 deleted.1).3 in
              let fat = ap (λ (t : Store F). t.fat) changed in
              let below = ltb→lt slot max_slots valid in
              let blank =
                ap (λ (t : List FatEntry). get_or t slot blank_entry) fat
                ∙ get_or-set_self s.fat slot blank_entry blank_entry (omega (arith, n, below)) in
              let empty : slot_is_empty s'.fat slot ≡ true =
                ap (λ (e : FatEntry). e.flash_addr == empty_addr) blank in
              (
                simp (load_header, valid, empty),
                λ j ne.
                    ap (λ (t : List FatEntry). get_or t j blank_entry) fat
                    ∙ get_or-set_ne s.fat slot j blank_entry blank_entry (λ e. ne (sym e)),
              )
        ]
      ]

-- ===== src/Commands/Deleting.antt =====
-- What `delete_file` of firmware/src/commands.c frees, and what it leaves.
use rutgers_2026_e_ctf_desig.Prelude.{
  ℕ, zero, suc, ◌≡◌, ◌≢◌, refl, sym, ap, ap₂, ◌∙◌, true, false, true≢false, ◌&&◌, not, List, [],
  ◌∷◌, Bytes, byte_at, ltb, ◌==◌, if◌then◌else◌, length, set, get_or, get_or-set_ne, Bool-cases,
  inl, inr,
}
use rutgers_2026_e_ctf_desig.Flash.{FlashCtl, IsFlash}
use rutgers_2026_e_ctf_desig.Security.{Secrets}
use rutgers_2026_e_ctf_desig.BlobStore.{BlobStatus, FatEntry, max_slots, blank_entry, blob_delete}
use rutgers_2026_e_ctf_desig.BlobStore.Access.{blob_delete-not_found}
use rutgers_2026_e_ctf_desig.Names.{
  NameEntry, NameTable, blank_name, name_at, slot_occupied, name_in_use, clear_name_entry,
}
use rutgers_2026_e_ctf_desig.Device.{Device, Ret, go, on_store, on_names, answer, to_host}
use rutgers_2026_e_ctf_desig.Device.Rules.{require-go, go-same}
use rutgers_2026_e_ctf_desig.Commands.{pin_of, occupied, is_stored}
use rutgers_2026_e_ctf_desig.Commands.Files.{delete_file}
use rutgers_2026_e_ctf_desig.Commands.Gate.{attempted, pin_gate-go}
use rutgers_2026_e_ctf_desig.Commands.Reading.{is_stored-ok}
use rutgers_2026_e_ctf_desig.Commands.Writing.{flush-names}

name_at-cleared : (ns : List NameEntry) (i : ℕ) → name_at (set ns i blank_name) i ≡ blank_name
name_at-cleared [] i = refl
name_at-cleared (e ∷ es) zero = refl
name_at-cleared (e ∷ es) (suc i) = name_at-cleared es i

-- A slot whose name was cleared is free.
slot_occupied-cleared :
    (ns : List NameEntry) (fat : List FatEntry) (slot : ℕ)
    → slot_occupied (set ns slot blank_name) fat slot ≡ false
unfolding slot_occupied
slot_occupied-cleared ns fat slot = elim (Bool-cases (ltb slot max_slots)) [
  | inr bad ↦ simp bad
  | inl low ↦
      let unused : ((name_at (set ns slot blank_name) slot).in_use == name_in_use) ≡ false =
        ap (λ (e : NameEntry). e.in_use == name_in_use) (name_at-cleared ns slot) in
      simp (low, unused)
]

-- Whether a slot is occupied hangs on its two entries.
slot_occupied-same :
    (ns ns' : List NameEntry) (fat fat' : List FatEntry) (j : ℕ)
    → name_at ns' j ≡ name_at ns j
    → get_or fat' j blank_entry ≡ get_or fat j blank_entry
    → slot_occupied ns' fat' j ≡ slot_occupied ns fat j
unfolding slot_occupied
slot_occupied-same ns ns' fat fat' j n f =
    ap₂
      (λ (e : NameEntry) (g : FatEntry).
        if ltb j max_slots
        then e.in_use == name_in_use && not (g.flash_addr == 0xFFFFFFFF)
        else false)
      n f

module _ {F : Type 0} (c : FlashCtl F) where
  clear_name_entry-names :
      (slot : ℕ) (t : NameTable F)
      → (clear_name_entry c slot t).0 ≡ true
      → (clear_name_entry c slot t).1.names ≡ set t.names slot blank_name
  unfolding clear_name_entry
  clear_name_entry-names slot t good = elim (Bool-cases (ltb slot max_slots)) [
    | inr bad ↦ absurd (true≢false (sym good ∙ simp bad))
    | inl fits ↦ simp fits (flush-names c (record t { names = set t.names slot blank_name }))
  ]

module _ {F : Type 0} (c : FlashCtl F) (laws : IsFlash c) (secrets : Secrets) where
  -- On a flash that keeps its laws and with a FAT of eight entries, where the `delete_file`
  -- handler goes through, the slot of the packet was occupied and is free afterwards, and every
  -- other slot is occupied or free as before, with the same name and group.
  pub delete_file-frees :
      (body : Bytes) (d : Device F) {ret : Ret} {d' : Device F}
      → length d.store.fat ≡ max_slots
      → delete_file c secrets body d ≡ go ret d'
      → let slot = byte_at body 6 in
        (occupied slot d ≡ true)
        × (occupied slot d' ≡ false)
        × ((j : ℕ)
            → j ≢ slot
            → (occupied j d' ≡ occupied j d) × (name_at d'.names j ≡ name_at d.names j))
  unfolding delete_file on_store on_names answer to_host
  delete_file-frees body d {ret} {d'} n r =
      let slot = byte_at body 6 in
      let (_, r1) = require-go _ _ _ d r in
      let (_, r2) = pin_gate-go c secrets (pin_of body) _ d r1 in
      let d1 = attempted c secrets (pin_of body) d in
      let (found, r3) = require-go _ _ _ d1 r2 in
      let deleted = blob_delete c slot d1.store in
      let (stored, r4) =
        require-go (is_stored deleted.0) _ _ (record d1 { store = deleted.1 }) r3 in
      let table : NameTable F = record { names = d.names; flash = deleted.1.flash } in
      let cleared = clear_name_entry c slot table in
      let d2 : Device F = record d1 {
        store = record deleted.1 { flash = cleared.1.flash };
        names = cleared.1.names;
      } in
      let (good, r5) = require-go cleared.0 _ _ d2 r4 in
      let same = go-same r5 in
      let names : d'.names ≡ set d.names slot blank_name =
        ap (λ (x : Device F). x.names) (sym same) ∙ clear_name_entry-names c slot table good in
      let fat : d'.store.fat ≡ deleted.1.fat = ap (λ (x : Device F). x.store.fat) (sym same) in
      let gone =
        blob_delete-not_found c laws slot d1.store n
          (ap (λ (rc : BlobStatus). (rc, deleted.1)) (is_stored-ok deleted.0 stored)) in
      let kept = λ (j : ℕ) (ne : j ≢ slot).
        ap (λ (x : List NameEntry). name_at x j) names
        ∙ get_or-set_ne d.names slot j blank_name blank_name (λ e. ne (sym e)) in
      (
        found,
        ap₂ (λ (x : List NameEntry) (y : List FatEntry). slot_occupied x y slot) names fat
            ∙ slot_occupied-cleared d.names deleted.1.fat slot,
        λ j ne. (
          slot_occupied-same d.names d'.names d.store.fat d'.store.fat j (kept j ne)
              (ap (λ (x : List FatEntry). get_or x j blank_entry) fat ∙ gone.1 j ne),
          kept j ne,
        ),
      )

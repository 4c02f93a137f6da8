-- ===== src/Commands/Listing.antt =====
-- What the list handler of firmware/src/commands.c tells the host.
use rutgers_2026_e_ctf_desig.Messaging.Msg
use rutgers_2026_e_ctf_desig.Prelude.{
  ℕ, zero, suc, ◌+◌, ◌*◌, ◌/◌, ◌%◌, ◌≤◌, ◌<◌, ◌≡◌, refl, sym, ap, ◌∙◌, Bool, true, List, [], ◌∷◌,
  map, Bytes, arith, byte_at, load16, load32, lt→ltb, Bool-cases, inl, inr, if◌then◌else◌, length,
  take, drop, take-append, drop-append,
}
use rutgers_2026_e_ctf_desig.Flash.{FlashCtl}
use rutgers_2026_e_ctf_desig.Messaging.{write_packet}
use rutgers_2026_e_ctf_desig.Security.{Secrets, check_pin}
use rutgers_2026_e_ctf_desig.BlobStore.{FatEntry, max_slots}
use rutgers_2026_e_ctf_desig.Names.{NameEntry, name_at, slot_occupied}
use rutgers_2026_e_ctf_desig.Device.{Device, Ret, go, answer, to_host}
use rutgers_2026_e_ctf_desig.Device.Rules.{require-go, go-same}
use rutgers_2026_e_ctf_desig.Commands.{
  FileMetadata, encode_metadatas, encode_list, metadata_of, list_from, generate_list_files, pin_of,
}
use rutgers_2026_e_ctf_desig.Commands.Files.{list}
use rutgers_2026_e_ctf_desig.Commands.Gate.{pins_of, attempted, pin_gate-go}

-- The slots of the `k` from one on that pass a test, in order.
unfoldable pub slots_where : (ℕ → Bool) → ℕ → ℕ → List ℕ
slots_where p zero slot = []
slots_where p (suc k) slot =
    let rest = slots_where p k (slot + 1) in if p slot then slot ∷ rest else rest

-- What a listing of the slots says.
abbrev pub metadata_where : (ℕ → Bool) → List NameEntry → List FileMetadata
metadata_where p names = map (metadata_of names) (slots_where p max_slots 0)

pub list_from_lem :
    (names : List NameEntry) (fat : List FatEntry) (k slot n : ℕ)
    → n + k ≤ 8
    → list_from names fat k slot n
      ≡ map (metadata_of names) (slots_where (slot_occupied names fat) k slot)
unfolding list_from slots_where
list_from_lem names fat zero slot n h = refl
list_from_lem names fat (suc k) slot n h =
    let room = lt→ltb n 8 (omega arith) in
    elim (Bool-cases (slot_occupied names fat slot)) [
      | inl full ↦
          simp (room, full)
            (ap (λ (r : List FileMetadata). metadata_of names slot ∷ r)
              (list_from_lem names fat k (slot + 1) (n + 1) (omega arith)))
      | inr empty ↦ simp (room, empty) (list_from_lem names fat k (slot + 1) n (omega arith))
    ]

-- How the host reads the response.
abbrev pub decode_metadatas : ℕ → Bytes → List FileMetadata
decode_metadatas zero b = []
decode_metadatas (suc n) b =
    record { slot = byte_at b 0; group_id = load16 b 1; name = take 32 (drop 3 b) }
    ∷ decode_metadatas n (drop 35 b)

abbrev pub decode_list : Bytes → List FileMetadata
decode_list b = decode_metadatas (load32 b 0) (drop 4 b)

-- Metadata that fits its fields.
pub record IsMetadata (m : FileMetadata) : Type 0 where
  pub group_fits : m.group_id < 65536
  pub name_fits : length m.name ≡ 32

abbrev pub AllMetadata : List FileMetadata → Type 0
AllMetadata [] = Unit {0}
AllMetadata (m ∷ ms) = IsMetadata m × AllMetadata ms

decode_metadatas-encode :
    (ms : List FileMetadata)
    → AllMetadata ms
    → decode_metadatas (length ms) (encode_metadatas ms) ≡ ms
decode_metadatas-encode [] v = refl
decode_metadatas-encode (m ∷ ms) v =
    let rest = encode_metadatas ms in
    let group : m.group_id % 256 + m.group_id / 256 % 256 * 256 ≡ m.group_id =
      omega (arith, v.0.group_fits) in
    let named = take-append 32 m.name rest v.0.name_fits in
    let more =
      ap (decode_metadatas (length ms)) (drop-append 32 m.name rest v.0.name_fits)
      ∙ decode_metadatas-encode ms v.1 in
    λ i. record { slot = m.slot; group_id = group i; name = named i } ∷ more i

pub decode_list-encode :
    (ms : List FileMetadata) → length ms < 256 → AllMetadata ms → decode_list (encode_list ms) ≡ ms
decode_list-encode ms h v =
    let n = length ms in
    ap (λ (k : ℕ). decode_metadatas k (encode_metadatas ms))
      {x = n % 256 + n / 256 % 256 * 256 + n / 65536 % 256 * 65536 + n / 16777216 % 256 * 16777216}
      {y = n} (omega arith)
    ∙ decode_metadatas-encode ms v

pub length-slots : (p : ℕ → Bool) (k slot : ℕ) → length (slots_where p k slot) ≤ k
unfolding slots_where
length-slots p zero slot = omega arith
length-slots p (suc k) slot = ground (arith, length-slots p k (slot + 1))

pub length-metadata :
    (names : List NameEntry) (slots : List ℕ)
    → length (map (metadata_of names) slots) ≡ length slots
length-metadata names [] = refl
length-metadata names (x ∷ xs) = ap suc (length-metadata names xs)

-- A table whose entries fit their fields.
pub record IsName (e : NameEntry) : Type 0 where
  pub group_fits : e.group_id < 65536
  pub name_fits : length e.name ≡ 32

abbrev pub AllNames : List NameEntry → Type 0
AllNames [] = Unit {0}
AllNames (e ∷ es) = IsName e × AllNames es

name_at-IsName : (names : List NameEntry) (slot : ℕ) → AllNames names → IsName (name_at names slot)
name_at-IsName [] slot v = record { group_fits = omega arith; name_fits = refl }
name_at-IsName (e ∷ es) zero v = v.0
name_at-IsName (e ∷ es) (suc slot) v = name_at-IsName es slot v.1

pub metadata-All :
    (names : List NameEntry) (slots : List ℕ)
    → AllNames names
    → AllMetadata (map (metadata_of names) slots)
metadata-All names [] v = tt
metadata-All names (x ∷ xs) v =
    let e = name_at-IsName names x v in
    (record { group_fits = e.group_fits; name_fits = e.name_fits }, metadata-All names xs v)

generate_list_files-decode :
    (names : List NameEntry) (fat : List FatEntry)
    → AllNames names
    → decode_list (encode_list (generate_list_files names fat))
      ≡ metadata_where (slot_occupied names fat) names
unfolding generate_list_files
generate_list_files-decode names fat v =
    let slots = slots_where (slot_occupied names fat) 8 0 in
    ap (λ (t : List FileMetadata). decode_list (encode_list t))
      (list_from_lem names fat 8 0 0 (omega arith))
    ∙ decode_list-encode (map (metadata_of names) slots)
        (omega (arith, length-metadata names slots, length-slots (slot_occupied names fat) 8 0))
        (metadata-All names slots v)

module _ {F : Type 0} (c : FlashCtl F) (secrets : Secrets) where
  -- Where the `list` handler goes through, with names of 32 bytes and groups below 65536, the PIN
  -- was accepted, and its answer is the only change behind the attempt: a packet that decodes to
  -- the metadata of exactly the occupied slots, in their order.
  pub list-decode :
      (body : Bytes) (d : Device F) {ret : Ret} {d' : Device F}
      → AllNames d.names
      → list c secrets body d ≡ go ret d'
      → ((check_pin c secrets (pin_of body) (pins_of d)).0 ≡ true)
        × (response : Bytes) × (d' ≡ record (attempted c secrets (pin_of body) d) {
          control = (write_packet Msg.list_files response d.control).1;
        })
        × (decode_list response ≡ metadata_where (slot_occupied d.names d.store.fat) d.names)
  unfolding list answer to_host
  list-decode body d v r =
      let (_, r1) = require-go _ _ _ d r in
      let (accepted, r2) = pin_gate-go c secrets (pin_of body) _ d r1 in
      (
        accepted,
        encode_list (generate_list_files d.names d.store.fat),
        sym (go-same r2),
        generate_list_files-decode d.names d.store.fat v,
      )

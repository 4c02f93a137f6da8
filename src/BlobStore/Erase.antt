-- ===== src/BlobStore/Erase.antt =====
-- `erase_slot_pages` of firmware/src/secure_blob_store.c: the whole slot, and nothing else.
use rutgers_2026_e_ctf_desig.Prelude.{
  ℕ, zero, suc, ◌+◌, ◌-◌, ◌*◌, ◌%◌, ◌≡◌, refl, sym, ap, ◌∙◌, Bool, true, false, true≢false, arith,
  ltb, Bool-cases, inl, inr, ltb→lt, ltb→le,
}
use rutgers_2026_e_ctf_desig.Flash.{FlashCtl, IsFlash, IsErased, Outside, page_size, erase_page}
use rutgers_2026_e_ctf_desig.Flash.Write.{erase_page_lem}
use rutgers_2026_e_ctf_desig.BlobStore.{
  BlobStatus, blob_ok, io_error, slot_size, blob_slot_base, erase_pages, erase_slot_pages,
}
use rutgers_2026_e_ctf_desig.BlobStore.Status.{ok_clash}

module _ {F : Type 0} (c : FlashCtl F) (laws : IsFlash c) where
  erase_pages-step :
      (n a : ℕ) (f : F) {g : F}
      → erase_pages c (suc n) a f ≡ (true, g)
      → let f1 = (erase_page c a f).1 in
        (erase_page c a f ≡ (true, f1)) × (erase_pages c n (a + page_size) f1 ≡ (true, g))
  unfolding erase_pages
  erase_pages-step n a f {g} r =
      let (erased, f1) = erase_page c a f in
      elim (Bool-cases erased) [
        | inl good ↦ (ap (λ (b : Bool). (b, f1)) good, sym (simp (erase_pages, good)) ∙ r)
        | inr bad ↦
            let failed : erase_pages c (suc n) a f ≡ (false, f1) = simp (erase_pages, bad) in
            absurd (true≢false (ap (λ (t : Bool × F). t.0) (sym r ∙ failed)))
      ]

  pub erase_pages_lem :
      (n a : ℕ) (f : F) {g : F}
      → a % page_size ≡ 0
      → erase_pages c n a f ≡ (true, g)
      → IsErased c g a (n * page_size)
        × ((x : ℕ) → Outside a (n * page_size) x → c.byte g x ≡ c.byte f x)
  unfolding erase_pages
  erase_pages_lem zero a f al r =
      (λ i l. absurd (omega arith), λ x o. ap (λ (t : Bool × F). c.byte t.1 x) (sym r))
  erase_pages_lem (suc n) a f {g} al r =
      let (first, rest) = erase_pages-step n a f r in
      let f1 = (erase_page c a f).1 in
      let (clean, kept) = erase_page_lem c laws a f al first in
      let (clean_rest, kept_rest) = erase_pages_lem n (a + page_size) f1 (omega arith) rest in
      (
        λ i l. elim (Bool-cases (ltb i page_size)) [
          | inl early ↦
              kept_rest (a + i) (inl (omega (arith, ltb→lt i 1024 early)))
              ∙ clean i (ltb→lt i 1024 early)
          | inr late ↦
              ap (c.byte g) {x = a + i} {y = a + page_size + (i - page_size)}
                (omega (arith, ltb→le i 1024 late))
              ∙ clean_rest (i - page_size) (omega (arith, ltb→le i 1024 late))
        ],
        λ x o. kept_rest x (omega (arith, o)) ∙ kept x (omega (arith, o)),
      )

  pub erase_slot_pages_lem :
      (slot : ℕ) (f : F) {g : F}
      → erase_slot_pages c slot f ≡ (blob_ok, g)
      → IsErased c g (blob_slot_base slot) slot_size
        × ((x : ℕ) → Outside (blob_slot_base slot) slot_size x → c.byte g x ≡ c.byte f x)
  unfolding erase_slot_pages
  erase_slot_pages_lem slot f {g} r =
      let (erased, f1) = erase_pages c 12 (blob_slot_base slot) f in
      elim (Bool-cases erased) [
        | inr bad ↦ absurd (ok_clash io_error f1 refl r (simp (erase_slot_pages, bad)))
        | inl good ↦
            let done : erase_slot_pages c slot f ≡ (blob_ok, f1) = simp (erase_slot_pages, good) in
            let same = ap (λ (t : BlobStatus × F). t.1) (sym done ∙ r) in
            erase_pages_lem 12 (blob_slot_base slot) f (omega arith)
              (ap (λ (b : Bool). (b, f1)) good ∙ ap (λ (k : F). (true, k)) same)
      ]

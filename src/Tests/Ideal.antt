-- ===== src/Tests/Ideal.antt =====
-- Peripherals that keep the laws: a flash whose commands all succeed, and an AES-GCM that leaves the
-- plaintext as it is.
use rutgers_2026_e_ctf_desig.Prelude.{
  ℕ, ◌+◌, ◌-◌, ◌<◌, ◌≡◌, refl, sym, ap, true, some, arith, Bytes, byte_at, ltb, lt→ltb, le→ltb,
  if◌then◌else◌, length, replicate, inl, inr,
}
use mathlib.Core.Option.{some-injective}
use rutgers_2026_e_ctf_desig.Flash.{FlashCtl, IsFlash, Outside, page_size}
use rutgers_2026_e_ctf_desig.Crypto.{Aes, IsGcm}

-- The byte at `x` where the `n` bytes from `a` on are `new`.
abbrev pub patch : ℕ → ℕ → (ℕ → ℕ) → (ℕ → ℕ) → ℕ → ℕ
patch a n new old x = if ltb x a then old x else if ltb x (a + n) then new (x - a) else old x

patch-in : (a n : ℕ) (new old : ℕ → ℕ) (i : ℕ) → i < n → patch a n new old (a + i) ≡ new i
patch-in a n new old i l =
    let above = le→ltb (a + i) a (omega arith) in
    let below = lt→ltb (a + i) (a + n) (omega arith) in
    simp (above, below) (ap new {x = a + i - a} {y = i} (omega arith))

patch-out : (a n : ℕ) (new old : ℕ → ℕ) (x : ℕ) → Outside a n x → patch a n new old x ≡ old x
patch-out a n new old x (inl l) = let below = lt→ltb x a l in simp below
patch-out a n new old x (inr h) =
    let above = le→ltb x a (omega arith) in let behind = le→ltb x (a + n) h in simp (above, behind)

abbrev pub ideal_flash : FlashCtl (ℕ → ℕ)
ideal_flash = record {
  byte = λ f x. f x;
  clear_status = λ f. f;
  unprotect = λ a f. f;
  erase_sector = λ a f. (true, patch a page_size (λ i. 255) f);
  wait_done = λ f. (true, f);
  program = λ a d f. (true, patch a (length d) (byte_at d) f);
}

pub ideal_flash-IsFlash : IsFlash ideal_flash
ideal_flash-IsFlash = record {
  keep_status = λ f x. refl;
  keep_unprotect = λ a f x. refl;
  keep_wait = λ f x. refl;
  erase_in = λ a f al e i l. patch-in a page_size (λ _. 255) f i l;
  erase_out = λ a f x al o. patch-out a page_size (λ _. 255) f x o;
  program_in = λ a d f i al w e er l. patch-in a (length d) (byte_at d) f i l;
  program_out = λ a d f x al w o. patch-out a (length d) (byte_at d) f x o;
}

abbrev pub zero_tag : Bytes
zero_tag = replicate 16 0

abbrev pub ideal_aes : Aes Bytes
ideal_aes = record {
  set_key = λ key. some key;
  encrypt = λ k pt iv aad. some (pt, zero_tag);
  decrypt = λ k ct iv tag aad. some ct;
}

pub ideal_aes-IsGcm : IsGcm ideal_aes
ideal_aes-IsGcm = record {
  sizes = λ k pt iv aad ct tag e.
      let same = some-injective (pt, zero_tag) (ct, tag) e in
      (
        ap (λ (t : Bytes × Bytes). length t.0) (sym same),
        ap (λ (t : Bytes × Bytes). length t.1) (sym same),
      );
  opens = λ k pt iv aad ct tag e.
      ap (λ (t : Bytes × Bytes). some t.0) (sym (some-injective (pt, zero_tag) (ct, tag) e));
}

-- An erased flash.
abbrev pub erased : ℕ → ℕ
erased = λ x. 255

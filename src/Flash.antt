-- ===== src/Flash.antt =====
-- firmware/src/simple_flash.c over the DriverLib calls of the flash controller.
pub mod Write
pub mod Page
use rutgers_2026_e_ctf_desig.Prelude.{
  ℕ, zero, suc, ◌+◌, ◌-◌, ◌*◌, ◌/◌, ◌%◌, ◌≤◌, ◌<◌, ◌≡◌, ◌⊎◌, Bool, true, false, [], ◌∷◌, ◌++◌,
  Bytes, byte_at, u32, ltb, ◌==◌, if◌then◌else◌, length, take, drop, replicate,
}

-- The DriverLib calls on the controller's state `F`: the memory-mapped byte at an address,
-- `executeClearStatus`, `unprotectSector`, `eraseMemoryFromRAM` and `waitForCmdDone`, and
-- `programMemoryBlockingFromRAM64WithECCGenerated`. A Boolean result is whether it succeeded.
pub record FlashCtl (F : Type 0) : Type 0 where
  pub byte : F → ℕ → ℕ
  pub clear_status : F → F
  pub unprotect : ℕ → F → F
  pub erase_sector : ℕ → F → Bool × F
  pub wait_done : F → Bool × F
  pub program : ℕ → Bytes → F → Bool × F

abbrev pub page_size : ℕ
page_size = 1024

-- The bytes of a flash word, at whose multiples the controller programs with a generated ECC.
abbrev pub flash_word : ℕ
flash_word = 8

-- `x` lies outside the `n` bytes from `a` on.
abbrev pub Outside : ℕ → ℕ → ℕ → Type 0
Outside a n x = (x < a) ⊎ (a + n ≤ x)

-- The `n` bytes from `a` on read as erased.
abbrev pub IsErased : {F : Type 0} → FlashCtl F → F → ℕ → ℕ → Type 0
IsErased c f a n = (i : ℕ) → i < n → c.byte f (a + i) ≡ 255

-- What the device documents of these calls: only an erase or a program changes a byte, and only
-- where it is asked to; a sector that was erased reads 0xFF; erased bytes take the data, if whole
-- flash words are programmed at the start of one. Nothing is said of other calls of `program`.
pub record IsFlash {F : Type 0} (c : FlashCtl F) : Type 0 where
  pub keep_status : (f : F) (x : ℕ) → c.byte (c.clear_status f) x ≡ c.byte f x
  pub keep_unprotect : (a : ℕ) (f : F) (x : ℕ) → c.byte (c.unprotect a f) x ≡ c.byte f x
  pub keep_wait : (f : F) (x : ℕ) → c.byte (c.wait_done f).1 x ≡ c.byte f x
  pub erase_in :
      (a : ℕ) (f : F)
      → a % page_size ≡ 0
      → (c.erase_sector a f).0 ≡ true
      → IsErased c (c.erase_sector a f).1 a page_size
  pub erase_out :
      (a : ℕ) (f : F) (x : ℕ)
      → a % page_size ≡ 0
      → Outside a page_size x
      → c.byte (c.erase_sector a f).1 x ≡ c.byte f x
  pub program_in :
      (a : ℕ) (d : Bytes) (f : F) (i : ℕ)
      → a % flash_word ≡ 0
      → length d % flash_word ≡ 0
      → (c.program a d f).0 ≡ true
      → IsErased c f a (length d)
      → i < length d
      → c.byte (c.program a d f).1 (a + i) ≡ byte_at d i
  pub program_out :
      (a : ℕ) (d : Bytes) (f : F) (x : ℕ)
      → a % flash_word ≡ 0
      → length d % flash_word ≡ 0
      → Outside a (length d) x
      → c.byte (c.program a d f).1 x ≡ c.byte f x

-- The words that a chunk of `write` programs: an even number of them, padded with 0xFF.
abbrev pub chunk_words : ℕ → ℕ
chunk_words n = let words = (n + 3) / 4 in if words % 2 == 0 then words else words + 1

abbrev pub write_data : Bytes → Bytes
write_data chunk =
    take (4 * chunk_words (length chunk)) (chunk ++ replicate (64 - length chunk) 255)

-- The bytes that a round of `write` takes.
unfoldable pub chunk_size : Bytes → ℕ
chunk_size p = if ltb (length p) 64 then length p else 64

module _ {F : Type 0} (c : FlashCtl F) where
  -- `flash_simple_erase_page`
  unfoldable pub erase_page : ℕ → F → Bool × F
  erase_page address f =
      let (started, f1) = c.erase_sector address (c.unprotect address (c.clear_status f)) in
      if started then c.wait_done f1 else (false, f1)

  read_bytes : F → ℕ → ℕ → Bytes
  read_bytes f address zero = []
  read_bytes f address (suc n) = c.byte f address ∷ read_bytes f (address + 1) n

  -- `flash_simple_read`: `memcpy` of the memory-mapped bytes.
  unfoldable pub read_flash : F → ℕ → ℕ → Bytes
  unfolding read_bytes
  read_flash f address size = read_bytes f address size

  -- The loop of `flash_simple_write`, on fuel: each round programs a byte or more.
  unfoldable pub write_loop : ℕ → ℕ → Bytes → F → Bool × F
  write_loop zero address p f = (true, f)
  write_loop (suc fuel) address [] f = (true, f)
  write_loop (suc fuel) address (b ∷ bs) f =
      let p : Bytes = b ∷ bs in
      let n = chunk_size p in
      let (programmed, f1) = c.program address (write_data (take n p)) f in
      let (done, f2) = c.wait_done f1 in
      let rest = write_loop fuel (u32 (address + n)) (drop n p) f2 in
      if programmed then (if done then rest else (false, f2)) else (false, f1)

  -- `flash_simple_write`
  unfoldable pub write_flash : ℕ → Bytes → F → Bool × F
  unfolding chunk_size write_loop
  write_flash address d f = write_loop (length d) address d (c.unprotect address (c.clear_status f))

-- ===== src/Prelude/Memory.antt =====
-- Byte strings, machine words in them, and the copies that C makes in a buffer.
use Prim.Native.Nat.{ℕ, ◌+◌, ◌*◌, ◌/◌, ◌%◌, ◌^◌, ◌<◌}
use mathlib.Core.Path.{◌≡◌, refl}
use mathlib.Core.Bool.{Bool, true, false, ◌&&◌}
use mathlib.Core.List.{List, [], ◌∷◌, ◌++◌}
use native.Mathlib.Omega.{arith}
use rutgers_2026_e_ctf_desig.Prelude.Tests.{◌==◌}
use rutgers_2026_e_ctf_desig.Prelude.Lists.{length, take, drop, get_or, get_or-append_ge}

-- `uint8_t` data, a byte an element.
abbrev pub Bytes : Type 0
Bytes = List ℕ

abbrev pub byte_at : Bytes → ℕ → ℕ
byte_at b i = get_or b i 0

abbrev pub u8 : ℕ → ℕ
u8 n = n % 256

abbrev pub u16 : ℕ → ℕ
u16 n = n % 2 ^ 16

abbrev pub u32 : ℕ → ℕ
u32 n = n % 2 ^ 32

abbrev pub u64 : ℕ → ℕ
u64 n = n % 2 ^ 64

-- Every element is a byte.
abbrev pub IsBytes : Bytes → Type 0
IsBytes [] = Unit {0}
IsBytes (b ∷ bs) = (b < 256) × IsBytes bs

-- The bytes of a word, least significant first.
abbrev pub le16 : ℕ → Bytes
le16 v = v % 256 ∷ v / 256 % 256 ∷ []

abbrev pub le32 : ℕ → Bytes
le32 v = v % 256 ∷ v / 256 % 256 ∷ v / 65536 % 256 ∷ v / 16777216 % 256 ∷ []

-- A word that a little-endian machine loads from a byte offset.
abbrev pub load16 : Bytes → ℕ → ℕ
load16 b i = byte_at b i + byte_at b (i + 1) * 256

abbrev pub load32 : Bytes → ℕ → ℕ
load32 b i =
    byte_at b i + byte_at b (i + 1) * 256 + byte_at b (i + 2) * 65536 + byte_at b (i + 3) * 16777216

-- `memcpy(dst + at, src, length src)` in a buffer that is long enough.
abbrev pub splice : Bytes → ℕ → Bytes → Bytes
splice dst at src = take at dst ++ (src ++ drop (at + length src) dst)

-- `memcmp(a, b, n) == 0` on two strings of the same length.
abbrev pub bytes_eq : Bytes → Bytes → Bool
bytes_eq [] [] = true
bytes_eq [] (b ∷ bs) = false
bytes_eq (a ∷ as') [] = false
bytes_eq (a ∷ as') (b ∷ bs) = a == b && bytes_eq as' bs

pub bytes_eq_refl : (a : Bytes) → bytes_eq a a ≡ true
bytes_eq_refl [] = refl
bytes_eq_refl (x ∷ xs) = ground (arith, bytes_eq_refl xs)

pub bytes_eq-true : (a b : Bytes) → bytes_eq a b ≡ true → a ≡ b
bytes_eq-true [] [] h = refl
bytes_eq-true [] (y ∷ ys) h = ground arith
bytes_eq-true (x ∷ xs) [] h = ground arith
bytes_eq-true (x ∷ xs) (y ∷ ys) h = ground (arith, bytes_eq-true xs ys)

-- Words that are loaded where they were stored.
pub load32-append :
    (pre : Bytes) (n : ℕ) (post : Bytes) (i : ℕ)
    → length pre ≡ i
    → n < 2 ^ 32
    → load32 (pre ++ (le32 n ++ post)) i ≡ n
load32-append pre n post i e l =
    let at0 = get_or-append_ge i 0 pre (le32 n ++ post) 0 (omega arith) in
    let at1 = get_or-append_ge (i + 1) 1 pre (le32 n ++ post) 0 (omega arith) in
    let at2 = get_or-append_ge (i + 2) 2 pre (le32 n ++ post) 0 (omega arith) in
    let at3 = get_or-append_ge (i + 3) 3 pre (le32 n ++ post) 0 (omega arith) in
    rw (at0, at1, at2, at3) (omega arith)

pub load16-append :
    (pre : Bytes) (n : ℕ) (post : Bytes) (i : ℕ)
    → length pre ≡ i
    → n < 2 ^ 16
    → load16 (pre ++ (le16 n ++ post)) i ≡ n
load16-append pre n post i e l =
    let at0 = get_or-append_ge i 0 pre (le16 n ++ post) 0 (omega arith) in
    let at1 = get_or-append_ge (i + 1) 1 pre (le16 n ++ post) 0 (omega arith) in
    rw (at0, at1) (omega arith)

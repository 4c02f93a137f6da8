-- ===== src/Trng.antt =====
-- firmware/src/trng.c: `trng_read_bytes` over what the TRNG peripheral does with each command.
use rutgers_2026_e_ctf_desig.Prelude.{
  ◌⊎◌, ℕ, zero, suc, ◌+◌, ◌-◌, ◌*◌, ◌/◌, ◌^◌, ◌≤◌, ◌≡◌, refl, sym, ap, ◌∙◌, Option, none, some,
  List, [], ◌∷◌, ◌++◌, arith, Bytes, u8, ltb, ltb→le, if◌then◌else◌, Bool-cases, inl, inr, length,
  length-append,
}
use mathlib.Core.Option.{some-injective, none-ne-some}

-- How a NORM_FUNC command ends: a captured 32-bit word, a health-test failure, or the poll limit.
pub data Capture : Type 0 where
  ready : ℕ → Capture
  failed : Capture
  timed_out : Capture

-- `buf[written++] = (uint8_t)(word >> (8u * i))`, for `n` bytes.
word_bytes : ℕ → ℕ → Bytes
word_bytes zero word = []
word_bytes (suc n) word = u8 word ∷ word_bytes n (word / 2 ^ 8)

-- The loop of `trng_read_bytes`, a command an element of the list. `none` is a peripheral from
-- which no further word comes: the loop then goes on for ever.
unfoldable pub read_from : List Capture → ℕ → Bytes → Option (Bytes × List Capture)
unfolding word_bytes
read_from [] len buf = if ltb (length buf) len then none else some (buf, [])
read_from (failed ∷ cs) len buf =
    let rest = read_from cs len buf in
    if ltb (length buf) len then rest else some (buf, failed ∷ cs)
read_from (timed_out ∷ cs) len buf =
    let rest = read_from cs len buf in
    if ltb (length buf) len then rest else some (buf, timed_out ∷ cs)
read_from (ready word ∷ cs) len buf =
    let left = len - length buf in
    let n = if ltb 4 left then 4 else left in
    let rest = read_from cs len (buf ++ word_bytes n word) in
    if ltb (length buf) len then rest else some (buf, ready word ∷ cs)

-- `trng_read_bytes`
unfoldable pub trng_read_bytes : List Capture → ℕ → Option (Bytes × List Capture)
unfolding read_from
trng_read_bytes cs len = read_from cs len []

-- The words that the peripheral delivers.
unfoldable pub words : List Capture → ℕ
words [] = 0
words (ready w ∷ cs) = suc (words cs)
words (failed ∷ cs) = words cs
words (timed_out ∷ cs) = words cs

length-word_bytes : (n w : ℕ) → length (word_bytes n w) ≡ n
unfolding word_bytes
length-word_bytes zero w = refl
length-word_bytes (suc n) w = omega (arith, length-word_bytes n (w / 2 ^ 8))

read_from_lem :
    (cs : List Capture) (len : ℕ) (buf : Bytes)
    → length buf ≤ len
    → len ≤ length buf + words cs * 4
    → (r : Bytes × List Capture) × (read_from cs len buf ≡ some r) × (length r.0 ≡ len)
unfolding read_from words
read_from_lem [] len buf h e = ((buf, []), ground arith, omega arith)
read_from_lem (failed ∷ cs) len buf h e = elim (Bool-cases (ltb (length buf) len)) [
  | inl more ↦ rw more (read_from_lem cs len buf h e)
  | inr done ↦ rw done ((buf, failed ∷ cs), refl, omega (arith, ltb→le (length buf) len done))
]
read_from_lem (timed_out ∷ cs) len buf h e = elim (Bool-cases (ltb (length buf) len)) [
  | inl more ↦ rw more (read_from_lem cs len buf h e)
  | inr done ↦ rw done ((buf, timed_out ∷ cs), refl, omega (arith, ltb→le (length buf) len done))
]
read_from_lem (ready w ∷ cs) len buf h e = elim (Bool-cases (ltb (length buf) len)) [
  | inr done ↦ rw done ((buf, ready w ∷ cs), refl, omega (arith, ltb→le (length buf) len done))
  | inl more ↦
      let left = len - length buf in
      let n = if ltb 4 left then 4 else left in
      let fits : (n ≤ left) × ((n ≡ 4) ⊎ (n ≡ left)) = ground arith in
      let grown = length-append buf (word_bytes n w) in
      let size = length-word_bytes n w in
      rw more (
        read_from_lem cs len (buf ++ word_bytes n w) (omega (arith, grown, size, fits.0))
          (omega (arith, grown, size, fits.1)))
]

-- `trng_read_bytes` ends with exactly the bytes that were asked for, whatever failures and
-- timeouts come between, once the peripheral has delivered a word for every four of them.
pub trng_read_bytes_lem :
    (cs : List Capture) (len : ℕ)
    → len ≤ words cs * 4
    → (r : Bytes × List Capture) × (trng_read_bytes cs len ≡ some r) × (length r.0 ≡ len)
unfolding trng_read_bytes
trng_read_bytes_lem cs len h = read_from_lem cs len [] (omega arith) (omega arith)

stopped :
    (len : ℕ) (buf : Bytes) (cs : List Capture) {r : Bytes × List Capture}
    → length buf ≤ len
    → len ≤ length buf
    → some (buf, cs) ≡ some r
    → length r.0 ≡ len
stopped len buf cs {r} h k e =
    let same = ap (λ (t : Bytes × List Capture). length t.0) (some-injective (buf, cs) r e) in
    omega (arith, same)

read_from-length :
    (cs : List Capture) (len : ℕ) (buf : Bytes) {r : Bytes × List Capture}
    → length buf ≤ len
    → read_from cs len buf ≡ some r
    → length r.0 ≡ len
unfolding read_from
read_from-length [] len buf {r} h e = elim (Bool-cases (ltb (length buf) len)) [
  | inl more ↦ absurd (none-ne-some r (sym (simp more) ∙ e))
  | inr done ↦ stopped len buf [] h (ltb→le (length buf) len done) (sym (simp done) ∙ e)
]
read_from-length (failed ∷ cs) len buf h e = elim (Bool-cases (ltb (length buf) len)) [
  | inl more ↦ read_from-length cs len buf h (sym (simp more) ∙ e)
  | inr done ↦ stopped len buf (failed ∷ cs) h (ltb→le (length buf) len done) (sym (simp done) ∙ e)
]
read_from-length (timed_out ∷ cs) len buf h e = elim (Bool-cases (ltb (length buf) len)) [
  | inl more ↦ read_from-length cs len buf h (sym (simp more) ∙ e)
  | inr done ↦
      stopped len buf (timed_out ∷ cs) h (ltb→le (length buf) len done) (sym (simp done) ∙ e)
]
read_from-length (ready w ∷ cs) len buf h e = elim (Bool-cases (ltb (length buf) len)) [
  | inl more ↦
      let left = len - length buf in
      let n = if ltb 4 left then 4 else left in
      let fits : n ≤ left = ground arith in
      read_from-length cs len (buf ++ word_bytes n w)
        (omega (arith, h, fits, length-append buf (word_bytes n w), length-word_bytes n w))
        (sym (simp more) ∙ e)
  | inr done ↦ stopped len buf (ready w ∷ cs) h (ltb→le (length buf) len done) (sym (simp done) ∙ e)
]

-- The bytes that were read are as many as were asked for.
pub trng_read_bytes-length :
    (cs : List Capture) (len : ℕ) {r : Bytes × List Capture}
    → trng_read_bytes cs len ≡ some r
    → length r.0 ≡ len
unfolding trng_read_bytes
trng_read_bytes-length cs len e = read_from-length cs len [] (omega arith) e

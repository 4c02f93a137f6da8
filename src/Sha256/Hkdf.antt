-- ===== src/Sha256/Hkdf.antt =====
-- HKDF of firmware/src/sha256_raw.c, and RFC 5869.
use rutgers_2026_e_ctf_desig.Prelude.{
  ℕ, zero, suc, ◌+◌, ◌-◌, ◌*◌, ◌≤◌, ◌<◌, ◌≡◌, refl, sym, ap, ◌∙◌, [], ◌∷◌, ◌++◌, append-nil,
  append_assoc, arith, Bytes, IsBytes, u8, ltb, ltb→lt, ltb→le, lt→ltb, le→ltb, if◌then◌else◌,
  Bool-cases, inl, inr, length, take, replicate, length-append, length-take, take_all,
  take-append_le, take-append_ge,
}
use rutgers_2026_e_ctf_desig.Sha256.Hmac.{
  HmacCtx, hmac_init, hmac_update, hmac_final, hmac_sha256_raw, blank_hmac, hmac, Keyed,
  hmac_init-Keyed, hmac_update-Keyed, hmac_final-Keyed, hmac_sha256_raw_lem, length-hmac,
}

-- `hkdf_extract_sha256`; a salt that is NULL or empty is `[]`.
unfoldable pub hkdf_extract_sha256 : Bytes → Bytes → Bytes
unfolding hmac_sha256_raw
hkdf_extract_sha256 [] ikm = hmac_sha256_raw (replicate 32 0) ikm
hkdf_extract_sha256 (s ∷ salt) ikm = hmac_sha256_raw (s ∷ salt) ikm

-- RFC 5869: an absent salt is a string of 32 zeros.
unfoldable pub hkdf_extract : Bytes → Bytes → Bytes
hkdf_extract [] ikm = hmac (replicate 32 0) ikm
hkdf_extract (s ∷ salt) ikm = hmac (s ∷ salt) ikm

-- The block of one round: T(i) from T(i - 1), at the counter `i`.
expand_block : Bytes → Bytes → ℕ → Bytes → Bytes
unfolding hmac_init hmac_update hmac_final
expand_block prk info counter block =
    let c0 = hmac_init blank_hmac prk in
    let c1 = if ltb 1 counter then hmac_update c0 block else c0 in
    let c2 = if ltb 0 (length info) then hmac_update c1 info else c1 in
    hmac_final (hmac_update c2 (counter ∷ []))

-- The loop of `hkdf_expand_sha256`, on fuel: `out` is what is done. Each round adds a byte or more.
expand_loop : ℕ → Bytes → Bytes → ℕ → Bytes → ℕ → Bytes → Bytes
unfolding expand_block
expand_loop zero prk info out_len out counter block = out
expand_loop (suc fuel) prk info out_len out counter block =
    let counter' = u8 (counter + 1) in
    let block' = expand_block prk info counter' block in
    let left = out_len - length out in
    let n = if ltb 32 left then 32 else left in
    let rest = expand_loop fuel prk info out_len (out ++ take n block') counter' block' in
    if ltb (length out) out_len then rest else out

-- `hkdf_expand_sha256`
unfoldable pub hkdf_expand_sha256 : Bytes → Bytes → ℕ → Bytes
unfolding expand_loop
hkdf_expand_sha256 prk info out_len = expand_loop out_len prk info out_len [] 0 (replicate 32 0)

-- RFC 5869: T(0) is empty, and T(i + 1) = HMAC(PRK, T(i) | info | i + 1).
unfoldable pub hkdf_t : Bytes → Bytes → ℕ → Bytes
hkdf_t prk info zero = []
hkdf_t prk info (suc i) = hmac prk (hkdf_t prk info i ++ (info ++ ((i + 1) ∷ [])))

-- T(i + 1) | T(i + 2) | ..., `n` of them.
unfoldable pub hkdf_ts : Bytes → Bytes → ℕ → ℕ → Bytes
unfolding hkdf_t
hkdf_ts prk info i zero = []
hkdf_ts prk info i (suc n) = hkdf_t prk info (i + 1) ++ hkdf_ts prk info (i + 1) n

-- A round computes T(i + 1) of the RFC.
expand_block_lem :
    (prk info : Bytes) (i : ℕ) (block : Bytes)
    → IsBytes prk
    → (0 < i → block ≡ hkdf_t prk info i)
    → expand_block prk info (i + 1) block ≡ hkdf_t prk info (suc i)
unfolding expand_block hkdf_t
expand_block_lem prk info i block bytes prev =
    hmac_final-Keyed _ prk ((hkdf_t prk info i ++ info) ++ ((i + 1) ∷ []))
      (hmac_update-Keyed c2 prk (hkdf_t prk info i ++ info) ((i + 1) ∷ []) (with_info info))
    ∙ ap (hmac prk) (append_assoc (hkdf_t prk info i) info ((i + 1) ∷ []))
  where
    c0 : HmacCtx
    c0 = hmac_init blank_hmac prk

    c1 : HmacCtx
    c1 = if ltb 1 (i + 1) then hmac_update c0 block else c0

    c2 : HmacCtx
    c2 = if ltb 0 (length info) then hmac_update c1 info else c1

    first : Keyed c1 prk (hkdf_t prk info i)
    first = elim (Bool-cases (ltb 1 (i + 1))) [
      | inl more ↦
          rw (more, ← prev (omega (arith, ltb→lt 1 (i + 1) more)))
            (hmac_update-Keyed c0 prk [] block (hmac_init-Keyed blank_hmac prk refl refl bytes))
      | inr one ↦
          rw (one, ap (hkdf_t prk info) {x = i} {y = zero} (omega (arith, ltb→le 1 (i + 1) one)))
            (hmac_init-Keyed blank_hmac prk refl refl bytes)
    ]

    with_info :
        (d : Bytes)
        → Keyed (if ltb 0 (length d) then hmac_update c1 d else c1) prk (hkdf_t prk info i ++ d)
    with_info [] = rw append-nil first
    with_info (b ∷ bs) =
        rw (lt→ltb 0 (length (b ∷ bs)) (omega arith))
          (hmac_update-Keyed c1 prk (hkdf_t prk info i) (b ∷ bs) first)

-- `hkdf_extract_sha256` is the extraction of RFC 5869, with a salt of bytes and, for the empty
-- one, with 32 zero bytes.
pub hkdf_extract_lem :
    (salt ikm : Bytes) → IsBytes salt → hkdf_extract_sha256 salt ikm ≡ hkdf_extract salt ikm
unfolding hkdf_extract_sha256 hkdf_extract
hkdf_extract_lem [] ikm h = hmac_sha256_raw_lem (replicate 32 0) ikm (omega arith)
hkdf_extract_lem (s ∷ salt) ikm h = hmac_sha256_raw_lem (s ∷ salt) ikm h

length-hkdf_t : (prk info : Bytes) (i : ℕ) → length (hkdf_t prk info (suc i)) ≡ 32
unfolding hkdf_t
length-hkdf_t prk info i = length-hmac prk (hkdf_t prk info i ++ (info ++ ((i + 1) ∷ [])))

-- The loop has what was asked for: it ends.
expand_done :
    (fuel : ℕ) (prk info : Bytes) (l : ℕ) (out : Bytes) (i : ℕ) (block : Bytes)
    → l ≤ length out
    → expand_loop fuel prk info l out i block ≡ out
unfolding expand_loop
expand_done zero prk info l out i block h = refl
expand_done (suc fuel) prk info l out i block h = rw (le→ltb (length out) l h)

nothing_left : (l : ℕ) (out ts : Bytes) → l ≤ length out → out ≡ out ++ take (l - length out) ts
nothing_left l out ts h =
    sym (append-nil out)
    ∙ ap (λ (k : ℕ). out ++ take k ts) {x = zero} {y = l - length out} (omega arith)

hkdf_t-add-one : (prk info : Bytes) (i : ℕ) → hkdf_t prk info (suc i) ≡ hkdf_t prk info (i + 1)
hkdf_t-add-one prk info i = ap (hkdf_t prk info) {x = suc i} {y = i + 1} (omega arith)

-- The last block, of which a part is taken.
expand_last :
    (fuel : ℕ) (prk info : Bytes) (l : ℕ) (out t ts : Bytes) (i : ℕ)
    → length t ≡ 32
    → length out ≤ l
    → l - length out ≤ 32
    → expand_loop fuel prk info l (out ++ take (l - length out) t) i t
      ≡ out ++ take (l - length out) (t ++ ts)
expand_last fuel prk info l out t ts i e lo hi =
    expand_done fuel prk info l (out ++ take (l - length out) t) i t
      (omega (arith, length-append out (take (l - length out) t), length-take (l - length out) t))
    ∙ ap (λ (r : Bytes). out ++ r) (sym (take-append_le (l - length out) t ts (omega arith)))

-- A whole block, with the rest of the loop behind it.
expand_whole :
    (l : ℕ) (out t ts : Bytes)
    → length t ≡ 32
    → length out + 32 ≤ l
    → (out ++ t) ++ take (l - length (out ++ t)) ts ≡ out ++ take (l - length out) (t ++ ts)
expand_whole l out t ts e lo =
    append_assoc out t _
    ∙ ap (λ (r : Bytes). out ++ r)
        (sym (
          take-append_ge (l - length out) (l - length (out ++ t)) t ts
            (omega (arith, length-append out t))))

expand_loop_lem :
    (n fuel : ℕ) (prk info : Bytes) (l : ℕ) (out : Bytes) (i : ℕ) (block : Bytes)
    → IsBytes prk
    → length out ≡ i * 32
    → (0 < i → block ≡ hkdf_t prk info i)
    → l ≤ length out + fuel
    → l ≤ (i + n) * 32
    → i + n ≤ 255
    → expand_loop fuel prk info l out i block ≡ out ++ take (l - length out) (hkdf_ts prk info i n)
unfolding expand_loop hkdf_ts
expand_loop_lem zero fuel prk info l out i block b e p f g c =
    expand_done fuel prk info l out i block (omega arith) ∙ nothing_left l out [] (omega arith)
expand_loop_lem (suc n) zero prk info l out i block b e p f g c =
    nothing_left l out (hkdf_t prk info (i + 1) ++ hkdf_ts prk info (i + 1) n) (omega arith)
expand_loop_lem (suc n) (suc fuel) prk info l out i block b e p f g c =
    let t = hkdf_t prk info (i + 1) in
    let ts = hkdf_ts prk info (i + 1) n in
    let wide : length t ≡ 32 =
      sym (ap length (hkdf_t-add-one prk info i)) ∙ length-hkdf_t prk info i in
    let byte : u8 (i + 1) ≡ i + 1 = omega arith in
    let computed : expand_block prk info (i + 1) block ≡ t =
      expand_block_lem prk info i block b p ∙ hkdf_t-add-one prk info i in
    elim (Bool-cases (ltb (length out) l)) [
      | inr done ↦ rw done (nothing_left l out (t ++ ts) (ltb→le (length out) l done))
      | inl more ↦
          rw (more, byte, computed)
            (elim (Bool-cases (ltb 32 (l - length out))) [
              | inr last ↦ rw last (
                  expand_last fuel prk info l out t ts (i + 1) wide
                    (omega (arith, ltb→lt (length out) l more)) (ltb→le 32 (l - length out) last))
              | inl whole ↦
                  rw (whole, take_all 32 t (omega (arith, wide)))
                    (expand_loop_lem n fuel prk info l (out ++ t) (i + 1) t b
                        (omega (arith, length-append out t, wide)) (λ _. refl)
                        (omega (arith, length-append out t, wide)) (omega arith) (omega arith)
                      ∙ expand_whole l out t ts wide
                          (omega (arith, ltb→lt 32 (l - length out) whole)))
            ])
    ]

-- For a pseudorandom key of bytes, `hkdf_expand_sha256` returns the first `l` bytes of T(1) |
-- T(2) | ... | T(n) of RFC 5869, for every `l` up to 32 n and n up to 255, and its loop ends.
pub hkdf_expand_lem :
    (prk info : Bytes) (l n : ℕ)
    → IsBytes prk
    → l ≤ n * 32
    → n ≤ 255
    → hkdf_expand_sha256 prk info l ≡ take l (hkdf_ts prk info 0 n)
unfolding hkdf_expand_sha256
hkdf_expand_lem prk info l n b h c =
    expand_loop_lem n l prk info l [] 0 (replicate 32 0) b refl (λ h0. absurd (omega arith))
      (omega arith) (omega arith) (omega arith)
    ∙ ap (λ (k : ℕ). take k (hkdf_ts prk info 0 n)) {x = l - 0} {y = l} (omega arith)

length-hkdf_ts : (prk info : Bytes) (i n : ℕ) → length (hkdf_ts prk info i n) ≡ n * 32
unfolding hkdf_ts
length-hkdf_ts prk info i zero = refl
length-hkdf_ts prk info i (suc n) = omega (
  arith,
  length-append (hkdf_t prk info (i + 1)) (hkdf_ts prk info (i + 1) n),
  ap length (hkdf_t-add-one prk info i),
  length-hkdf_t prk info i,
  length-hkdf_ts prk info (i + 1) n,
)

pub length-hkdf_expand :
    (prk info : Bytes) (l : ℕ) → IsBytes prk → l ≤ 8160 → length (hkdf_expand_sha256 prk info l) ≡ l
length-hkdf_expand prk info l b h =
    ap length (hkdf_expand_lem prk info l 255 b (omega arith) (omega arith))
    ∙ length-take l (hkdf_ts prk info 0 255)
    ∙ omega (arith, length-hkdf_ts prk info 0 255)

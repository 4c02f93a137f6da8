-- ===== src/Sha256/Stream.antt =====
-- What a context of firmware/src/sha256_raw.c holds, byte by byte: `ctx_update` is `feed_all`,
-- however the data is cut and whatever the unused part of the buffer holds.
use rutgers_2026_e_ctf_desig.Prelude.{
  ℕ, zero, suc, ◌+◌, ◌-◌, ◌≤◌, ◌<◌, ◌≡◌, ◌≢◌, refl, sym, ap, ◌∙◌, ◌&&◌, List, [], ◌∷◌, ◌++◌,
  append-nil, append_assoc, arith, Bytes, u64, ltb, leb, ◌==◌, inl, inr, if◌then◌else◌, ==_iff,
  Bool-cases, length, take, drop, splice, length-append, length-take, length-drop, take-append-drop,
  take-append, take_all,
}
use rutgers_2026_e_ctf_desig.Sha256.{Ctx, close_block, update_step, update_loop, ctx_update}
use rutgers_2026_e_ctf_desig.Sha256.Compress.{compress}

-- The chaining value, the bytes of the open block, and the bits of the closed ones.
pub record View : Type 0 where
  pub chain : List ℕ
  pub pending : Bytes
  pub bits : ℕ

abbrev pub close : View → View
close v =
    if length v.pending == 64
    then record { chain = compress v.chain v.pending; pending = []; bits = u64 (v.bits + 512) }
    else v

abbrev pub feed : View → ℕ → View
feed v b = close (record v { pending = v.pending ++ (b ∷ []) })

unfoldable pub feed_all : View → Bytes → View
feed_all v [] = v
feed_all v (b ∷ bs) = feed_all (feed v b) bs

abbrev pub view : Ctx → View
view c = record { chain = c.state; pending = take c.curlen c.buf; bits = c.length }

-- The buffer has its 64 bytes, and the open block is not full.
pub record IsOpen (c : Ctx) : Type 0 where
  pub room : c.curlen < 64
  pub whole : length c.buf ≡ 64

pub feed_all-append :
    (v : View) (xs ys : Bytes) → feed_all v (xs ++ ys) ≡ feed_all (feed_all v xs) ys
unfolding feed_all
feed_all-append v [] ys = refl
feed_all-append v (x ∷ xs) ys = feed_all-append (feed v x) xs ys

feed_short :
    (v : View) (b : ℕ)
    → length v.pending + 1 < 64
    → feed v b ≡ record v { pending = v.pending ++ (b ∷ []) }
feed_short v b h = ground (arith, length-append v.pending (b ∷ []))

length-snoc : (xs : Bytes) (b : ℕ) → length (xs ++ (b ∷ [])) ≡ length xs + 1
length-snoc xs b = omega (arith, length-append xs (b ∷ []))

-- Bytes that do not fill the block wait in it.
pub feed_all_short :
    (v : View) (xs : Bytes)
    → length v.pending + length xs < 64
    → feed_all v xs ≡ record v { pending = v.pending ++ xs }
unfolding feed_all
feed_all_short v [] h = λ i. record v { pending = sym (append-nil v.pending) i }
feed_all_short v (x ∷ xs) h = rw (
  feed_short v x (omega arith),
  feed_all_short (record v { pending = v.pending ++ (x ∷ []) }) xs
      (omega (arith, length-snoc v.pending x)),
  append_assoc,
)

-- Bytes that fill it are compressed with it.
pub feed_all_block :
    (v : View) (xs : Bytes)
    → length v.pending < 64
    → length v.pending + length xs ≡ 64
    → feed_all v xs ≡ close (record v { pending = v.pending ++ xs })
unfolding feed_all
feed_all_block v [] h e = absurd (omega arith)
feed_all_block v (x ∷ []) h e = refl
feed_all_block v (x ∷ y ∷ ys) h e = rw (
  feed_short v x (omega arith),
  feed_all_block (record v { pending = v.pending ++ (x ∷ []) }) (y ∷ ys)
      (omega (arith, length-snoc v.pending x)) (omega (arith, length-snoc v.pending x)),
  append_assoc,
)

take-splice :
    (dst : Bytes) (at : ℕ) (src : Bytes) (n : ℕ)
    → at ≤ length dst
    → n ≡ at + length src
    → take n (splice dst at src) ≡ take at dst ++ src
take-splice dst at src n h e =
    ap (take n) (sym (append_assoc (take at dst) src rest))
    ∙ take-append n (take at dst ++ src) rest
        (omega (arith, length-append (take at dst) src, length-take at dst))
  where
    rest : Bytes
    rest = drop (at + length src) dst

length-splice :
    (dst : Bytes) (at : ℕ) (src : Bytes)
    → at + length src ≤ length dst
    → length (splice dst at src) ≡ length dst
length-splice dst at src h = omega (
  arith,
  length-append (take at dst) (src ++ drop (at + length src) dst),
  length-append src (drop (at + length src) dst),
  length-take at dst,
  length-drop (at + length src) dst,
)

feed_all-close :
    (v : View) (xs : Bytes)
    → 0 < length xs
    → length v.pending + length xs ≤ 64
    → feed_all v xs ≡ close (record v { pending = v.pending ++ xs })
feed_all-close v xs pos le = elim (Bool-cases (length v.pending + length xs == 64)) [
  | inl full ↦ feed_all_block v xs (ground (arith, full)) ((==_iff _ _).0 full)
  | inr part ↦ ground (arith, part, feed_all_short v xs, length-append v.pending xs)
]

view-close_block :
    (c : Ctx) → length c.buf ≡ 64 → c.curlen ≤ 64 → view (close_block c) ≡ close (view c)
view-close_block c whole le = ground (arith, length-take c.curlen c.buf, take_all c.curlen c.buf)

-- What one round of the loop has taken of the data, and what it did with it.
record IsStep (c : Ctx) (d : Bytes) (r : Ctx × Bytes) : Type 0 where
  taken : Bytes
  splits : d ≡ taken ++ r.1
  still_open : IsOpen r.0
  fed : view r.0 ≡ feed_all (view c) taken
  shorter : length r.1 < length d

whole_block :
    (c : Ctx) (d : Bytes)
    → IsOpen c
    → c.curlen ≡ 0
    → 64 ≤ length d
    → IsStep c d (
      record c { state = compress c.state (take 64 d); length = u64 (c.length + 512) },
      drop 64 d,
    )
whole_block c d o z h = record {
  taken = take 64 d;
  splits = sym (take-append-drop 64 d);
  still_open = record { room = o.room; whole = o.whole };
  fed = ground (
    arith,
    feed_all_block (view c) (take 64 d),
    length-take 64 d,
    ap (λ (n : ℕ). take n c.buf) z,
  );
  shorter = omega (arith, length-drop 64 d);
}

-- The copy into the open block, which is closed if that fills it.
part_block :
    (c : Ctx) (d : Bytes) (n : ℕ)
    → IsOpen c
    → 0 < n
    → n ≤ length d
    → c.curlen + n ≤ 64
    → (c.curlen + n ≢ 64 → n ≡ length d)
    → IsStep c d (
      close_block (record c { buf = splice c.buf c.curlen (take n d); curlen = c.curlen + n }),
      drop n d,
    )
part_block c d n o pos le room cut = record {
  taken = take n d;
  splits = sym (take-append-drop n d);
  still_open = ground (arith, size);
  fed =
      view-close_block (record c { buf = splice c.buf c.curlen (take n d); curlen = c.curlen + n })
        size room
      ∙ ap (λ (p : Bytes). close (record (view c) { pending = p })) joined
      ∙ sym (
          feed_all-close (view c) (take n d) (omega (arith, length-take n d))
            (omega (arith, length-take n d, length-take c.curlen c.buf)));
  shorter = omega (arith, length-drop n d);
}
  where
    joined :
        take (c.curlen + n) (splice c.buf c.curlen (take n d)) ≡ take c.curlen c.buf ++ take n d
    joined =
        take-splice c.buf c.curlen (take n d) (c.curlen + n) (omega (arith, o.whole, o.room))
          (omega (arith, length-take n d))

    size : length (splice c.buf c.curlen (take n d)) ≡ 64
    size =
        length-splice c.buf c.curlen (take n d) (omega (arith, length-take n d, o.whole)) ∙ o.whole

update_step-IsStep : (c : Ctx) (d : Bytes) → IsOpen c → 0 < length d → IsStep c d (update_step c d)
unfolding update_step
update_step-IsStep c d o h = elim (Bool-cases (c.curlen == 0 && leb 64 (length d))) [
  | inl block ↦ rw block (whole_block c d o (ground (arith, block)) (ground (arith, block)))
  | inr part ↦ rw part (elim (Bool-cases (ltb (length d) (64 - c.curlen))) [
    | inl short ↦ rw short (
        part_block c d (length d) o (omega arith) (omega arith) (ground (arith, short))
          (λ ne. refl))
    | inr long ↦ rw long (
        part_block c d (64 - c.curlen) o (omega arith) (ground (arith, long)) (omega arith)
          (λ ne. absurd (ne (omega arith))))
  ])
]

-- The fuel that `ctx_update` gives is enough: the loop ends with all the data taken.
update_loop_lem :
    (fuel : ℕ) (c : Ctx) (d : Bytes)
    → IsOpen c
    → length d ≤ fuel
    → IsOpen (update_loop fuel c d) × (view (update_loop fuel c d) ≡ feed_all (view c) d)
unfolding update_loop feed_all
update_loop_lem zero c [] o h = (o, refl)
update_loop_lem zero c (x ∷ xs) o h = absurd (omega arith)
update_loop_lem (suc fuel) c [] o h = (o, refl)
update_loop_lem (suc fuel) c (x ∷ xs) o h =
    let step = update_step-IsStep c (x ∷ xs) o (omega arith) in
    let (c', rest) = update_step c (x ∷ xs) in
    let ih = update_loop_lem fuel c' rest step.still_open (omega (arith, step.shorter)) in
    (
      ih.0,
      ih.1
          ∙ ap (λ (v : View). feed_all v rest) step.fed
          ∙ sym (feed_all-append (view c) step.taken rest)
          ∙ ap (λ (d : Bytes). feed_all (view c) d) (sym step.splits),
    )

-- `ctx_update` takes the data in byte by byte, in any state of the block.
pub ctx_update_lem :
    (c : Ctx) (d : Bytes)
    → IsOpen c
    → IsOpen (ctx_update c d) × (view (ctx_update c d) ≡ feed_all (view c) d)
unfolding ctx_update
ctx_update_lem c d o = update_loop_lem (length d) c d o (omega arith)

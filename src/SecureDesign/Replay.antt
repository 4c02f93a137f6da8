-- ===== src/SecureDesign/Replay.antt =====
-- The replay cache of firmware/src/secure_design.c as a memory of the last eight accepted requests.
use mathlib.Core.Bool.{false≢true}
use mathlib.Core.List.{reverse, reverse-append}
use rutgers_2026_e_ctf_desig.Prelude.{
  ℕ, zero, suc, ◌+◌, ◌%◌, ◌≤◌, ◌<◌, ◌≡◌, refl, sym, ap, ◌∙◌, Bool, true, false, ◌||◌, List, [], ◌∷◌,
  ◌++◌, arith, ==_refl, if◌then◌else◌, length, take, drop, set, Bool-cases, inl, inr, length-set,
  take-append-drop,
}
use rutgers_2026_e_ctf_desig.SecureDesign.{
  Token, Entry, ReplayCache, cache_size, token_eq, seen, check_and_update_replay,
  clear_replay_cache,
}

-- The ring has its eight slots, and its index is one of them.
pub record IsValid (s : ReplayCache) : Type 0 where
  pub slots : length s.entries ≡ cache_size
  pub in_ring : s.next < cache_size

-- The slots from the newest to the oldest.
abbrev pub recent_in : List Entry → ℕ → List Entry
recent_in es n = reverse (take n es) ++ reverse (drop n es)

abbrev pub recent : ReplayCache → List Entry
recent s = recent_in s.entries s.next

-- The contract: a request is refused if it is among the remembered ones; else it is remembered,
-- and the oldest of eight is forgotten.
abbrev pub entry : Token → Entry
entry t = record { token = t; valid = true }

unfoldable pub remember : Token → List Entry → Bool × List Entry
unfolding seen
remember t m = if seen t m then (false, m) else (true, entry t ∷ take 7 m)

seen-append : (t : Token) (xs ys : List Entry) → seen t (xs ++ ys) ≡ (seen t xs || seen t ys)
unfolding seen
seen-append t [] ys = refl
seen-append t (x ∷ xs) ys = ground (arith, seen-append t xs ys)

or_comm : (a b : Bool) → (a || b) ≡ (b || a)
or_comm a b = ground arith

seen-reverse : (t : Token) (xs : List Entry) → seen t (reverse xs) ≡ seen t xs
unfolding seen
seen-reverse t [] = refl
seen-reverse t (x ∷ xs) =
    ap (seen t) (reverse-append (x ∷ []) xs)
    ∙ seen-append t (reverse xs) (x ∷ [])
    ∙ ap (λ (b : Bool). b || seen t (x ∷ [])) (seen-reverse t xs)
    ∙ ground arith

-- The scan in slot order finds what a scan from the newest finds.
seen-recent : (t : Token) (es : List Entry) (n : ℕ) → seen t (recent_in es n) ≡ seen t es
seen-recent t es n =
    seen-append t (reverse (take n es)) (reverse (drop n es))
    ∙ ground (arith, seen-reverse t (take n es), seen-reverse t (drop n es))
    ∙ sym (seen-append t (take n es) (drop n es))
    ∙ ap (seen t) (take-append-drop n es)

recent_eight :
    (a b c d f g h i : Entry) (n : ℕ) (e : Entry)
    → n < cache_size
    → let es : List Entry = a ∷ b ∷ c ∷ d ∷ f ∷ g ∷ h ∷ i ∷ [] in
      recent_in (set es n e) ((n + 1) % cache_size) ≡ e ∷ take 7 (recent_in es n)
recent_eight a b c d f g h i zero e l = refl
recent_eight a b c d f g h i (suc zero) e l = refl
recent_eight a b c d f g h i (suc (suc zero)) e l = refl
recent_eight a b c d f g h i (suc (suc (suc zero))) e l = refl
recent_eight a b c d f g h i (suc (suc (suc (suc zero)))) e l = refl
recent_eight a b c d f g h i (suc (suc (suc (suc (suc zero))))) e l = refl
recent_eight a b c d f g h i (suc (suc (suc (suc (suc (suc zero)))))) e l = refl
recent_eight a b c d f g h i (suc (suc (suc (suc (suc (suc (suc zero))))))) e l = refl
recent_eight a b c d f g h i (suc (suc (suc (suc (suc (suc (suc (suc n)))))))) e l =
    absurd (omega arith)

-- Writing at the index and moving it on puts the entry in front.
recent-set :
    (es : List Entry) (n : ℕ) (e : Entry)
    → length es ≡ cache_size
    → n < cache_size
    → recent_in (set es n e) ((n + 1) % cache_size) ≡ e ∷ take 7 (recent_in es n)
recent-set (a ∷ b ∷ c ∷ d ∷ f ∷ g ∷ h ∷ i ∷ []) n e size l = recent_eight a b c d f g h i n e l
recent-set _ n e size l = absurd (omega arith)

-- `check_and_update_replay` keeps the ring in order.
pub check-IsValid :
    (t : Token) {s : ReplayCache} → IsValid s → IsValid (check_and_update_replay t s).1
unfolding check_and_update_replay
check-IsValid t {s} v = ground (arith, length-set s.entries s.next (entry t))

-- A replay cache whose ring is in order answers a request, and remembers afterwards, as the list
-- of the last eight accepted requests does.
pub check_refines :
    (t : Token) {s : ReplayCache}
    → IsValid s
    → let (accepted, s') = check_and_update_replay t s in
      (accepted, recent s') ≡ remember t (recent s)
unfolding check_and_update_replay remember
check_refines t {s} v = elim (Bool-cases (seen t s.entries)) [
  | inl old ↦ rw (old, seen-recent t s.entries s.next ∙ old)
  | inr new ↦
      rw (new, seen-recent t s.entries s.next ∙ new)
        (ap (λ (m : List Entry). (true, m))
          (recent-set s.entries s.next (entry t) v.slots v.in_ring))
]

-- The requests of a session, one after the other.
pub run : List Token → ReplayCache → ReplayCache
run [] s = s
run (t ∷ ts) s = run ts (check_and_update_replay t s).1

pub run-IsValid : (ts : List Token) {s : ReplayCache} → IsValid s → IsValid (run ts s)
unfolding run
run-IsValid [] v = v
run-IsValid (t ∷ ts) v = run-IsValid ts (check-IsValid t v)

token_eq_refl : (t : Token) → token_eq t t ≡ true
token_eq_refl t = ground (arith, ==_refl t.nr, ==_refl t.nt, ==_refl t.group_id, ==_refl t.op)

seen-take : (k : ℕ) (t : Token) (m : List Entry) → seen t (take k m) ≡ true → seen t m ≡ true
seen-take k t m h =
    ap (seen t) (sym (take-append-drop k m))
    ∙ seen-append t (take k m) (drop k m)
    ∙ ap (λ (b : Bool). b || seen t (drop k m)) h

take-take : (k n : ℕ) (m : List Entry) → k ≤ n → take k (take n m) ≡ take k m
take-take zero n m h = refl
take-take (suc k) zero m h = absurd (omega arith)
take-take (suc k) (suc n) [] h = refl
take-take (suc k) (suc n) (x ∷ m) h = ap (λ (r : List Entry). x ∷ r) (take-take k n m (omega arith))

if_true : (b : Bool) → (if b then true else true) ≡ true
if_true true = refl
if_true false = refl

-- A remembered request moves back by one slot at most.
remember-take :
    (k : ℕ) (t u : Token) (m : List Entry)
    → k ≤ 7
    → seen t (take k m) ≡ true
    → seen t (take (suc k) (remember u m).1) ≡ true
unfolding remember
remember-take k t u m h old = elim (Bool-cases (seen u m)) [
  | inl again ↦
      rw again (seen-take k t (take (suc k) m) (rw (take-take k (suc k) m (omega arith)) old))
  | inr new ↦ rw (new, take-take k 7 m h, old) (if_true (token_eq u t))
]

-- Some number of requests after it was remembered.
run-take :
    (ts : List Token) (k n : ℕ) (t : Token) {s : ReplayCache}
    → IsValid s
    → n ≡ k + length ts
    → n ≤ 8
    → seen t (take k (recent s)) ≡ true
    → seen t (take n (recent (run ts s))) ≡ true
unfolding run
run-take [] k n t {s} v e h old =
    ap (λ (j : ℕ). seen t (take j (recent s))) {x = n} {y = k} (omega arith) ∙ old
run-take (u ∷ ts) k n t {s} v e h old =
    run-take ts (suc k) n t (check-IsValid u v) (omega arith) h (
      ap (λ (r : Bool × List Entry). seen t (take (suc k) r.1)) (check_refines u v)
      ∙ remember-take k t u (recent s) (omega arith) old)

remember-old : (t : Token) (m : List Entry) → seen t m ≡ true → remember t m ≡ (false, m)
unfolding remember
remember-old t m h = rw h

remember-new :
    (t : Token) (m : List Entry) → seen t m ≡ false → remember t m ≡ (true, entry t ∷ take 7 m)
unfolding remember
remember-new t m h = rw h

-- An accepted request is the newest one.
accepted_front :
    (t : Token) {s : ReplayCache}
    → IsValid s
    → (check_and_update_replay t s).0 ≡ true
    → seen t (take 1 (recent (check_and_update_replay t s).1)) ≡ true
unfolding seen
accepted_front t {s} v accepted = elim (Bool-cases (seen t (recent s))) [
  | inl old ↦ absurd (
      false≢true (
        sym
          (ap (λ (r : Bool × List Entry). r.0) (check_refines t v ∙ remember-old t (recent s) old))
        ∙ accepted))
  | inr new ↦
      ap (λ (r : Bool × List Entry). seen t (take 1 r.1))
        (check_refines t v ∙ remember-new t (recent s) new)
      ∙ ground (arith, token_eq_refl t)
]

-- A remembered request is refused, and changes nothing.
refused :
    (t : Token) (s : ReplayCache)
    → seen t (recent s) ≡ true
    → check_and_update_replay t s ≡ (false, s)
unfolding check_and_update_replay
refused t s h = rw (sym (seen-recent t s.entries s.next) ∙ h)

-- On a replay cache whose ring is in order, a request that was accepted is refused, and leaves
-- the cache as it is, as long as at most seven other requests came since, whatever they were.
pub replay_window :
    (t : Token) (ts : List Token) {s : ReplayCache}
    → IsValid s
    → (check_and_update_replay t s).0 ≡ true
    → length ts ≤ 7
    → let s' = run ts (check_and_update_replay t s).1 in check_and_update_replay t s' ≡ (false, s')
replay_window t ts {s} v accepted h =
    let s1 = (check_and_update_replay t s).1 in
    let n = 1 + length ts in
    refused t (run ts s1) (
      seen-take n t (recent (run ts s1))
        (run-take ts 1 n t (check-IsValid t v) refl (omega arith) (accepted_front t v accepted)))

-- The cleared cache is in order, and remembers nothing.
pub clear-IsValid : IsValid clear_replay_cache
unfolding clear_replay_cache
clear-IsValid = omega arith

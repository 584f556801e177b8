-- ===== src/Realtime/Logs/Fresh/Remembered.antt =====
-- What the cache of signatures holds after one more.
use playkaboom.Common.{
  ℕ, ◌+◌, ◌≤◌, ◌<◌, ◌≡◌, refl, sym, ap, ◌∙◌, arith, true, false, ◌||◌, inl, inr, List, [], ◌∷◌,
  ◌++◌, ltb, length, take, Bool-cases, length-append, take-append_length, take-take-suc,
  take-length_le, length-reverse, suc,
}
use mathlib.Core.List.{reverse, reverse-append, reverse-cons}
use playkaboom.Sdk.Buffer.{Bytes}
use playkaboom.Sdk.Buffer.Laws.{bytes_eq_refl}
use playkaboom.Realtime.Logs.{
  recent_sig_cache, Subscriber, has_sig, delete_sig, evict, remember_new,
}

-- Of posts from the newest to the oldest, each differs from the 256 before it.
abbrev pub Fresh : List Bytes → Type 0
Fresh [] = Unit
Fresh (p ∷ ps) = (has_sig (take recent_sig_cache ps) p ≡ false) × Fresh ps

has_sig-append :
    (xs ys : List Bytes) (sig : Bytes) → has_sig (xs ++ ys) sig ≡ (has_sig xs sig || has_sig ys sig)
unfolding has_sig
has_sig-append [] ys sig = refl
has_sig-append (x ∷ xs) ys sig = ground (arith, has_sig-append xs ys sig)

has_sig-reverse : (xs : List Bytes) (sig : Bytes) → has_sig (reverse xs) sig ≡ has_sig xs sig
unfolding has_sig
has_sig-reverse [] sig = refl
has_sig-reverse (x ∷ xs) sig =
    rw (reverse-cons x xs, has_sig-append (reverse xs) (x ∷ []) sig, has_sig-reverse xs sig)
      (ground arith)

-- What the subscriber remembers of its posts, the newest first
pub record Remembers (past : List Bytes) (l : Subscriber) : Type 0 where
  pub same : l.recent ≡ l.recent_order
  pub few : length l.recent_order ≤ recent_sig_cache
  pub newest : reverse l.recent_order ≡ take recent_sig_cache past
  pub fresh : Fresh past

module _ (n : ℕ) (order past : List Bytes) (sig : Bytes) where
  reverse-grown :
      reverse order ≡ take (suc n) past
      → length order ≤ n
      → reverse (order ++ sig ∷ []) ≡ sig ∷ take n past
  reverse-grown newest few =
      let short : length (take (suc n) past) ≤ n =
        rw (← newest) (omega (arith, length-reverse order)) in
      reverse-append order (sig ∷ [])
      ∙ ap (λ xs. sig ∷ xs)
          (newest ∙ sym (take-length_le n (take (suc n) past) short) ∙ take-take-suc n past)

  reverse-shifted :
      (x : Bytes) (rest : List Bytes)
      → order ≡ x ∷ rest
      → reverse order ≡ take (suc n) past
      → length order ≡ suc n
      → reverse (rest ++ sig ∷ []) ≡ sig ∷ take n past
  reverse-shifted x rest is_order newest full =
      let size : length (reverse rest) ≡ n =
        omega (arith, length-reverse rest, ap (λ o. length o) is_order, full) in
      let parts : reverse rest ++ x ∷ [] ≡ take (suc n) past =
        sym (reverse-cons x rest) ∙ ap (λ o. reverse o) (sym is_order) ∙ newest in
      let front : take n (reverse rest ++ x ∷ []) ≡ reverse rest =
        ap (λ m. take m (reverse rest ++ x ∷ [])) (sym size)
        ∙ take-append_length (reverse rest) (x ∷ []) in
      reverse-append rest (sig ∷ [])
      ∙ ap (λ xs. sig ∷ xs) (sym front ∙ ap (λ xs. take n xs) parts ∙ take-take-suc n past)

module _ (past : List Bytes) (sig : Bytes) (l : Subscriber) (v : Remembers past l) where
  remembered : has_sig (take recent_sig_cache past) sig ≡ has_sig l.recent sig
  remembered =
      ap (λ xs. has_sig xs sig) (sym v.newest)
      ∙ has_sig-reverse l.recent_order sig
      ∙ ap (λ xs. has_sig xs sig) (sym v.same)

  abbrev added : Subscriber
  added = record l { recent = l.recent ++ sig ∷ []; recent_order = l.recent_order ++ sig ∷ [] }

  evict-Remembers :
      (order : List Bytes)
      → l.recent_order ≡ order
      → ltb recent_sig_cache (length (order ++ sig ∷ [])) ≡ true
      → has_sig l.recent sig ≡ false
      → Remembers (sig ∷ past) (evict added (order ++ sig ∷ []))
  unfolding evict delete_sig
  evict-Remembers [] e full new = absurd (ground arith)
  evict-Remembers (x ∷ rest) e full new =
      let long : 256 < length (rest ++ sig ∷ []) + 1 = ground arith in
      let measured : length l.recent_order ≡ length rest + 1 = rw e (omega arith) in
      let size : length l.recent_order ≡ 256 =
        omega (arith, long, measured, v.few, length-append rest (sig ∷ [])) in
      record {
        same = rw (v.same, e, bytes_eq_refl x) refl;
        few = omega (arith, measured, size, length-append rest (sig ∷ []));
        newest = reverse-shifted 255 l.recent_order past sig x rest e v.newest size;
        fresh = (remembered ∙ new, v.fresh);
      }

  pub remember_new-Remembers :
      has_sig l.recent sig ≡ false → Remembers (sig ∷ past) (remember_new sig l)
  unfolding remember_new
  remember_new-Remembers new =
      elim (Bool-cases (ltb recent_sig_cache (length (l.recent_order ++ sig ∷ [])))) [
        | inl full ↦ rw full (evict-Remembers l.recent_order refl full new)
        | inr room ↦
            let few : length (l.recent_order ++ sig ∷ []) ≤ 256 = ground arith in
            rw room (record {
              same = ap (λ xs. xs ++ sig ∷ []) v.same;
              few = few;
              newest =
                  reverse-grown 255 l.recent_order past sig v.newest
                    (omega (arith, few, length-append l.recent_order (sig ∷ [])));
              fresh = (remembered ∙ new, v.fresh);
            })
      ]

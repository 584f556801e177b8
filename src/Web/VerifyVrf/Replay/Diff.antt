-- ===== src/Web/VerifyVrf/Replay/Diff.antt =====
-- A diff in the delegation program's layout, what it says, and `applyDiff` on it.
use playkaboom.Common.{
  ℕ, suc, ◌+◌, ◌-◌, ◌*◌, ◌^◌, ◌≤◌, ◌<◌, ◌≡◌, refl, ap, ◌∙◌, arith, false, ◌||◌, some, List, [], ◌∷◌,
  ◌++◌, ok, ltb, leb, ==_refl, if◌then◌else◌, length, take, drop, drop-add, length-append,
  length-take, length-drop, All, le→ltb, lt→ltb,
}
use mathlib.Core.List.{append_assoc}
use playkaboom.Sdk.Buffer.{Bytes, le_bytes, read_le, copy, subarray}
use playkaboom.Sdk.Buffer.Laws.{read_le_lem, drop-append, take-append, length-le_bytes}
use playkaboom.Web.VerifyVrf.Replay.{diff_loop, apply_diff}

-- A change: where it goes, and its bytes.
abbrev pub Change : Type 0
Change = ℕ × Bytes

unfoldable pub changed_bytes : List Change → Bytes
changed_bytes [] = []
changed_bytes ((at, bs) ∷ cs) = bs ++ changed_bytes cs

-- Where each change stands in the diff's bytes, and where it goes.
unfoldable pub places : ℕ → List Change → Bytes
places start [] = []
places start ((at, bs) ∷ cs) = le_bytes 4 start ++ (le_bytes 4 at ++ places (start + length bs) cs)

-- The changed state's length, the number of changes, their places, and their bytes.
unfoldable pub encode_diff : ℕ → List Change → Bytes
encode_diff len cs = le_bytes 4 len ++ (le_bytes 4 (length cs) ++ (places 0 cs ++ changed_bytes cs))

-- What the changes say.
unfoldable pub overwrite : List Change → Bytes → Bytes
overwrite [] s = s
overwrite ((at, bs) ∷ cs) s = overwrite cs (copy bs s at)

-- Each change has bytes, and they fit the state of length `len`.
abbrev pub Fits : ℕ → Change → Type 0
Fits len (at, bs) = (0 < length bs) × (at < 2 ^ 32) × (at + length bs ≤ len)

pub length-copy :
    (bs s : Bytes) (at : ℕ) → at + length bs ≤ length s → length (copy bs s at) ≡ length s
unfolding copy
length-copy bs s at h = omega (
  arith,
  length-append (take at s) (take (length s - at) bs ++ drop (at + length bs) s),
  length-append (take (length s - at) bs) (drop (at + length bs) s),
  length-take at s,
  length-take (length s - at) bs,
  length-drop (at + length bs) s,
)

pub drop_next :
    (n at : ℕ) (b xs ys : Bytes) → length xs ≡ n → drop at b ≡ xs ++ ys → drop (at + n) b ≡ ys
drop_next n at b xs ys h e = drop-add at n b ∙ rw e (drop-append n xs ys h)

length-places : (start : ℕ) (cs : List Change) → length (places start cs) ≡ 8 * length cs
unfolding places
length-places start [] = refl
length-places start ((at, bs) ∷ cs) =
    let next = start + length bs in
    omega (
      arith,
      length-append (le_bytes 4 start) (le_bytes 4 at ++ places next cs),
      length-append (le_bytes 4 at) (places next cs),
      length-le_bytes 4 start,
      length-le_bytes 4 at,
      length-places next cs,
    )

-- The number at a place of the diff, and what stands behind it.
read_next :
    (v at : ℕ) (b rest : Bytes)
    → v < 2 ^ 32
    → drop at b ≡ le_bytes 4 v ++ rest
    → (read_le 4 b at ≡ ok v) × (drop (at + 4) b ≡ rest)
read_next v at b rest h e =
    (read_le_lem 4 v b rest at h e, drop_next 4 at b (le_bytes 4 v) rest (length-le_bytes 4 v) e)

places_next :
    (start at : ℕ) (bs : Bytes) (cs : List Change) (tail : Bytes)
    → places start ((at, bs) ∷ cs) ++ tail
      ≡ le_bytes 4 start ++ (le_bytes 4 at ++ (places (start + length bs) cs ++ tail))
unfolding places
places_next start at bs cs tail =
    rw
      (
        append_assoc (le_bytes 4 start) (le_bytes 4 at ++ places (start + length bs) cs) tail,
        append_assoc (le_bytes 4 at) (places (start + length bs) cs) tail,
      )
      refl

-- Where the bytes of a change end: where those of the next begin, or the bytes end.
ends_at :
    (i start : ℕ) (cs : List Change) (diff body tail : Bytes)
    → start < 2 ^ 32
    → drop (16 + 8 * i) diff ≡ places start cs ++ tail
    → drop start body ≡ changed_bytes cs
    → start ≤ length body
    → (if ltb (i + 1) (i + suc (length cs)) then read_le 4 diff (16 + 8 * i) else ok (length body))
      ≡ ok start
unfolding places changed_bytes
ends_at i start [] diff body tail h e e₁ le =
    rw (le→ltb (i + 1) (i + 1) (omega arith))
      (ap ok (omega (arith, length-drop start body, ap length e₁)))
ends_at i start ((at, bs) ∷ cs) diff body tail h e e₁ le =
    rw (lt→ltb (i + 1) (i + suc (suc (length cs))) (omega arith))
      (read_next start (16 + 8 * i) diff (le_bytes 4 at ++ (places (start + length bs) cs ++ tail))
        h (e ∙ places_next start at bs cs tail)).0

length_from :
    (start : ℕ) (b xs : Bytes) → start ≤ length b → drop start b ≡ xs → length b ≡ start + length xs
length_from start b xs le e = omega (arith, length-drop start b, ap length e)

change_accepted :
    (from to body state at : ℕ)
    → from < to
    → to ≤ body
    → at + (to - from) ≤ state
    → (leb to from || ltb body to || ltb state (at + (to - from))) ≡ false
change_accepted from to body state at h h₁ h₂ = ground arith

diff_loop_lem :
    (cs : List Change) (i start : ℕ) (diff body s tail : Bytes)
    → All (Fits (length s)) cs
    → length body < 2 ^ 32
    → start ≤ length body
    → drop (8 + 8 * i) diff ≡ places start cs ++ tail
    → drop start body ≡ changed_bytes cs
    → diff_loop (length cs) i (i + length cs) diff body s ≡ ok (some (overwrite cs s))
unfolding diff_loop overwrite changed_bytes
diff_loop_lem [] i start diff body s tail f small le e e₁ = refl
diff_loop_lem ((at, bs) ∷ cs) i start diff body s tail ((some_bytes, place, room), f) small le e
      e₁ =
    let next = start + length bs in
    let size : length body ≡ start + length (bs ++ changed_bytes cs) =
      length_from start body (bs ++ changed_bytes cs) le e₁ in
    let whole : length (bs ++ changed_bytes cs) ≡ length bs + length (changed_bytes cs) =
      length-append bs (changed_bytes cs) in
    let (from_read, after_from) =
      read_next start (8 + 8 * i) diff (le_bytes 4 at ++ (places next cs ++ tail)) (omega arith)
        (e ∙ places_next start at bs cs tail) in
    let (at_read, after_at) =
      read_next at (12 + 8 * i) diff (places next cs ++ tail) place
        (ap (λ o. drop o diff) (omega arith) ∙ after_from) in
    let places_on : drop (16 + 8 * i) diff ≡ places next cs ++ tail =
      ap (λ o. drop o diff) (omega arith) ∙ after_at in
    let body_on : drop next body ≡ changed_bytes cs =
      drop_next (length bs) start body bs (changed_bytes cs) refl e₁ in
    let to_read = ends_at i next cs diff body tail (omega arith) places_on body_on (omega arith) in
    let width : next - start ≡ length bs = omega arith in
    let piece : subarray start next body ≡ bs =
      rw (width, e₁) (take-append (length bs) bs (changed_bytes cs) refl) in
    let accepted =
      change_accepted start next (length body) (length s) at (omega arith) (omega arith)
        (omega arith) in
    let kept : length (copy bs s at) ≡ length s = length-copy bs s at room in
    let ih =
      diff_loop_lem cs (i + 1) next diff body (copy bs s at) tail (rw kept f) small (omega arith)
        (ap (λ o. drop o diff) (omega arith) ∙ places_on) body_on in
    let count : i + 1 + length cs ≡ i + suc (length cs) = omega arith in
    rw (from_read, at_read, to_read, piece, accepted) (rw count at ih)

-- `applyDiff` of a diff in the delegation program's layout returns the state with its changes
-- written over it, in order, where each change has bytes and fits the state, and the diff's numbers
-- have 32 bits.
pub apply_diff-encode_diff :
    (cs : List Change) (s : Bytes)
    → All (Fits (length s)) cs
    → length s < 2 ^ 32
    → length cs < 2 ^ 32
    → length (changed_bytes cs) < 2 ^ 32
    → apply_diff (encode_diff (length s) cs) s ≡ ok (some (overwrite cs s))
unfolding apply_diff encode_diff
apply_diff-encode_diff cs s f small few bounded =
    let len = length s in
    let body = changed_bytes cs in
    let (len_read, after_len) =
      read_next len 0 (encode_diff len cs) (le_bytes 4 (length cs) ++ (places 0 cs ++ body)) small
        refl in
    let (count_read, after_count) =
      read_next (length cs) 4 (encode_diff len cs) (places 0 cs ++ body) few after_len in
    let body_on : drop (8 + 8 * length cs) (encode_diff len cs) ≡ body =
      drop_next (8 * length cs) 8 (encode_diff len cs) (places 0 cs) body (length-places 0 cs)
        after_count in
    let whole : 0 + length cs ≡ length cs = omega arith in
    rw (len_read, ==_refl len, count_read, body_on)
      (rw whole at (
        diff_loop_lem cs 0 0 (encode_diff len cs) body s body f bounded (omega arith) after_count
          refl))

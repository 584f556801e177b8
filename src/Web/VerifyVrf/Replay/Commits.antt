-- ===== src/Web/VerifyVrf/Replay/Commits.antt =====
-- The delegation program's commits in their layouts, and `replayCommits` on them.
use playkaboom.Common.{
  ℕ, zero, suc, ◌+◌, ◌-◌, ◌^◌, ◌<◌, ◌≡◌, refl, ◌∙◌, arith, some, List, [], ◌∷◌, ◌++◌, map, ok,
  ==_refl, length, take, drop, get_elem?, length-append, All, take-append_length,
}
use mathlib.Core.List.{append_assoc, append-nil}
use playkaboom.Sdk.Buffer.{Bytes, le_bytes, read_le, copy}
use playkaboom.Sdk.Buffer.Laws.{read_le_lem, drop-append, take-append, length-le_bytes}
use playkaboom.Web.VerifyVrf.Replay.{
  commit_state, commit_diff, commit_finalize, finalize_with, replay_one, replay_all,
}
use playkaboom.Web.VerifyVrf.Replay.Diff.{
  Change, Fits, overwrite, changed_bytes, encode_diff, length-copy, apply_diff-encode_diff,
  drop_next,
}

-- A commit of a whole state or of a diff, or one that is finalised with either. `head` and `rest`
-- are the fields that the replay does not read, `tail` what stands behind.
pub data Commit : Type 0 where
  state : (head new tail : Bytes) → Commit
  diff : List Change → (tail : Bytes) → Commit
  final_state : (head rest new : Bytes) → Commit
  final_diff : (flag : ℕ) (head rest : Bytes) → List Change → Commit

unfoldable pub encode_commit : ℕ → Commit → Bytes
encode_commit len (state head new tail) =
    le_bytes 8 1 ++ (head ++ (le_bytes 4 (length new) ++ (new ++ tail)))
encode_commit len (diff cs tail) =
    le_bytes 8 16 ++ (le_bytes 4 (length (encode_diff len cs)) ++ (encode_diff len cs ++ tail))
encode_commit len (final_state head rest new) = le_bytes 8 21 ++ (head ++ 0 ∷ (rest ++ new))
encode_commit len (final_diff flag head rest cs) =
    le_bytes 8 21 ++ (head ++ suc flag ∷ (rest ++ encode_diff len cs))

-- The state after a commit.
unfoldable pub committed : Bytes → Commit → Bytes
committed s (state head new tail) = new
committed s (diff cs tail) = overwrite cs s
committed s (final_state head rest new) = new
committed s (final_diff flag head rest cs) = overwrite cs s

unfoldable pub all_committed : Bytes → List Commit → Bytes
all_committed s [] = s
all_committed s (c ∷ cs) = all_committed (committed s c) cs

abbrev pub FitsDiff : ℕ → List Change → Type 0
FitsDiff len cs =
    All (Fits len) cs
    × (length cs < 2 ^ 32)
    × (length (changed_bytes cs) < 2 ^ 32)
    × (length (encode_diff len cs) < 2 ^ 32)

-- A commit of a state of length `len`.
abbrev pub FitsCommit : ℕ → Commit → Type 0
FitsCommit len (state head new tail) = (length head ≡ 17) × (length new ≡ len)
FitsCommit len (diff cs tail) = FitsDiff len cs
FitsCommit len (final_state head rest new) =
    (length head ≡ 17) × (length rest ≡ 6) × (length new ≡ len)
FitsCommit len (final_diff flag head rest cs) =
    (length head ≡ 17) × (length rest ≡ 6) × FitsDiff len cs

take_all : (n : ℕ) (xs : Bytes) → length xs ≡ n → take n xs ≡ xs
take_all n xs h = rw (append-nil xs) at (take-append n xs [] h)

drop_all : (n : ℕ) (xs : Bytes) → length xs ≡ n → drop n xs ≡ []
drop_all n xs h = rw (append-nil xs) at (drop-append n xs [] h)

copy_whole : (new s : Bytes) → length new ≡ length s → copy new s 0 ≡ new
unfolding copy
copy_whole new s h =
    let size : length s - 0 ≡ length s = omega arith in
    let end : 0 + length new ≡ length s = omega arith in
    rw (size, end, take_all (length s) new h, drop_all (length s) s refl) (append-nil new)

length-overwrite :
    (cs : List Change) (s : Bytes) → All (Fits (length s)) cs → length (overwrite cs s) ≡ length s
unfolding overwrite
length-overwrite [] s f = refl
length-overwrite ((at, bs) ∷ cs) s ((_, _, room), f) =
    let kept : length (copy bs s at) ≡ length s = length-copy bs s at room in
    length-overwrite cs (copy bs s at) (rw kept f) ∙ kept

disc_read : (v : ℕ) (rest : Bytes) → v < 256 → read_le 8 (le_bytes 8 v ++ rest) 0 ≡ ok v
disc_read v rest h = read_le_lem 8 v (le_bytes 8 v ++ rest) rest 0 (omega arith) refl

behind_disc : (v : ℕ) (rest : Bytes) → drop 8 (le_bytes 8 v ++ rest) ≡ rest
behind_disc v rest = drop-append 8 (le_bytes 8 v) rest (length-le_bytes 8 v)

replay-diff :
    (cs : List Change) (tail s : Bytes)
    → FitsDiff (length s) cs
    → length s < 2 ^ 32
    → commit_diff (encode_commit (length s) (diff cs tail)) s ≡ ok (some (overwrite cs s))
unfolding commit_diff encode_commit
replay-diff cs tail s (f, few, bounded, short) small =
    let d = encode_diff (length s) cs in
    let whole = encode_commit (length s) (diff cs tail) in
    let behind : drop 8 whole ≡ le_bytes 4 (length d) ++ (d ++ tail) = behind_disc 16 _ in
    let data_at : drop 12 whole ≡ d ++ tail =
      drop_next 4 8 whole (le_bytes 4 (length d)) (d ++ tail) (length-le_bytes 4 (length d))
        behind in
    let width : 12 + length d - 12 ≡ length d = omega arith in
    rw
      (
        read_le_lem 4 (length d) whole (d ++ tail) 8 short behind,
        width,
        data_at,
        take-append_length d tail,
      )
      (apply_diff-encode_diff cs s f small few bounded)

replay-state :
    (head new tail s : Bytes)
    → FitsCommit (length s) (state head new tail)
    → length s < 2 ^ 32
    → commit_state (encode_commit (length s) (state head new tail)) s ≡ ok (some new)
unfolding commit_state encode_commit
replay-state head new tail s (seventeen, same) small =
    let whole = encode_commit (length s) (state head new tail) in
    let behind : drop 25 whole ≡ le_bytes 4 (length new) ++ (new ++ tail) =
      drop_next 17 8 whole head (le_bytes 4 (length new) ++ (new ++ tail)) seventeen
        (behind_disc 1 _) in
    let data_at : drop 29 whole ≡ new ++ tail =
      drop_next 4 25 whole (le_bytes 4 (length new)) (new ++ tail) (length-le_bytes 4 (length new))
        behind in
    let width : 29 + length new - 29 ≡ length new = omega arith in
    rw
      (
        read_le_lem 4 (length new) whole (new ++ tail) 25 (omega arith) behind,
        width,
        data_at,
        take-append_length new tail,
        copy_whole new s same,
        same,
        ==_refl (length s),
      )
      refl

get_at : (n : ℕ) (xs ys : Bytes) (y : ℕ) → length xs ≡ n → get_elem? (xs ++ y ∷ ys) n ≡ some y
get_at zero [] ys y h = refl
get_at zero (x ∷ xs) ys y h = absurd (omega arith)
get_at (suc n) [] ys y h = absurd (omega arith)
get_at (suc n) (x ∷ xs) ys y h = get_at n xs ys y (omega arith)

-- The flag and the body of a commit that is finalised.
module _ (head rest body : Bytes) (flag : ℕ) (seventeen : length head ≡ 17)
    (six : length rest ≡ 6) where
  abbrev finalised : Bytes
  finalised = le_bytes 8 21 ++ (head ++ flag ∷ (rest ++ body))

  flag_at : get_elem? finalised 25 ≡ some flag
  flag_at =
      let grouped = append_assoc (le_bytes 8 21) head (flag ∷ (rest ++ body)) in
      rw (← grouped) (
        get_at 25 (le_bytes 8 21 ++ head) (rest ++ body) flag
          (omega (arith, length-append (le_bytes 8 21) head, length-le_bytes 8 21)))

  body_at : drop 32 finalised ≡ body
  body_at =
      let behind : drop 25 finalised ≡ (flag ∷ []) ++ (rest ++ body) =
        drop_next 17 8 finalised head (flag ∷ (rest ++ body)) seventeen (behind_disc 21 _) in
      drop_next 6 26 finalised rest body six
        (drop_next 1 25 finalised (flag ∷ []) (rest ++ body) refl behind)

replay-final_state :
    (head rest new s : Bytes)
    → FitsCommit (length s) (final_state head rest new)
    → commit_finalize (encode_commit (length s) (final_state head rest new)) s ≡ ok (some new)
unfolding commit_finalize finalize_with encode_commit
replay-final_state head rest new s (seventeen, six, same) =
    rw
      (
        flag_at head rest new 0 seventeen six,
        body_at head rest new 0 seventeen six,
        copy_whole new s same,
        same,
        ==_refl (length s),
      )
      refl

replay-final_diff :
    (flag : ℕ) (head rest s : Bytes) (cs : List Change)
    → FitsCommit (length s) (final_diff flag head rest cs)
    → length s < 2 ^ 32
    → commit_finalize (encode_commit (length s) (final_diff flag head rest cs)) s
      ≡ ok (some (overwrite cs s))
unfolding commit_finalize finalize_with encode_commit
replay-final_diff flag head rest s cs (seventeen, six, (f, few, bounded, _)) small =
    let body = encode_diff (length s) cs in
    rw
      (
        flag_at head rest body (suc flag) seventeen six,
        body_at head rest body (suc flag) seventeen six,
      )
      (apply_diff-encode_diff cs s f small few bounded)

replay_one-encode_commit :
    (c : Commit) (s : Bytes)
    → FitsCommit (length s) c
    → length s < 2 ^ 32
    → replay_one (encode_commit (length s) c) s ≡ ok (some (committed s c))
unfolding replay_one committed encode_commit
replay_one-encode_commit (state head new tail) s f small =
    rw (disc_read 1 (head ++ (le_bytes 4 (length new) ++ (new ++ tail))) (omega arith))
      (replay-state head new tail s f small)
replay_one-encode_commit (diff cs tail) s f small =
    let d = encode_diff (length s) cs in
    rw (disc_read 16 (le_bytes 4 (length d) ++ (d ++ tail)) (omega arith))
      (replay-diff cs tail s f small)
replay_one-encode_commit (final_state head rest new) s f small =
    rw (disc_read 21 (head ++ 0 ∷ (rest ++ new)) (omega arith))
      (replay-final_state head rest new s f)
replay_one-encode_commit (final_diff flag head rest cs) s f small =
    rw (disc_read 21 (head ++ suc flag ∷ (rest ++ encode_diff (length s) cs)) (omega arith))
      (replay-final_diff flag head rest s cs f small)

length-committed :
    (c : Commit) (s : Bytes) → FitsCommit (length s) c → length (committed s c) ≡ length s
unfolding committed
length-committed (state head new tail) s (_, same) = same
length-committed (diff cs tail) s (f, _, _, _) = length-overwrite cs s f
length-committed (final_state head rest new) s (_, _, same) = same
length-committed (final_diff flag head rest cs) s (_, _, (f, _, _, _)) = length-overwrite cs s f

-- The replay of a round's commits, each in the delegation program's layout and of a state of the
-- same length, leaves the state that the commits say, one after the other: a whole state takes the
-- place of the one before, and a diff is written over it.
pub replay_all-encode_commit :
    (cs : List Commit) (s : Bytes)
    → All (FitsCommit (length s)) cs
    → length s < 2 ^ 32
    → replay_all (map (encode_commit (length s)) cs) s ≡ ok (some (all_committed s cs))
unfolding replay_all all_committed
replay_all-encode_commit [] s f small = refl
replay_all-encode_commit (c ∷ cs) s (fc, f) small =
    let same : length (committed s c) ≡ length s = length-committed c s fc in
    let ih = replay_all-encode_commit cs (committed s c) (rw same f) (omega (arith, same)) in
    rw (replay_one-encode_commit c s fc small) (rw same at ih)

-- ===== src/Web/VerifyVrf/Replay.antt =====
-- `applyDiff` and `replayCommits`: the game state that the rollup's commits leave. A buffer that a
-- refused or failed diff has changed in part is dropped by the callers, so it is not returned.
pub mod Diff
pub mod Commits
pub mod Round
use playkaboom.Common.{
  ℕ, zero, suc, ◌+◌, ◌-◌, ◌*◌, ◌%◌, Bool, true, false, ◌&&◌, ◌||◌, Option, none, some, List, [],
  ◌∷◌, ◌++◌, Result, ok, err, ◌>>=◌, ltb, leb, ◌==◌, if◌then◌else◌, length, get_elem?, drop,
}
use playkaboom.Sdk.Buffer.{Bytes, alloc, subarray, read_le, copy, write_le}
use playkaboom.Sdk.Web3.{Web3}
use playkaboom.Sdk.Discriminator.{account_discriminator}
use playkaboom.Sdk.Vrf.{VrfGameAccount, decode_vrf_game}

abbrev pub vrf_game_space : ℕ
vrf_game_space = 621

abbrev pub vg_mine_count : ℕ
vg_mine_count = 74

abbrev pub vg_multiplier_bps : ℕ
vg_multiplier_bps = 85

-- The loop: `k` changes are left of `n`, `i` is the number of the next. `none` is `false`.
unfoldable pub diff_loop : ℕ → ℕ → ℕ → Bytes → Bytes → Bytes → Result (Option Bytes)
diff_loop zero i n diff body s = ok (some s)
diff_loop (suc k) i n diff body s = read_le 4 diff (8 + 8 * i) >>= λ from.
    read_le 4 diff (12 + 8 * i) >>= λ at.
    (if ltb (i + 1) n then read_le 4 diff (16 + 8 * i) else ok (length body)) >>= λ to.
    let rest = diff_loop k (i + 1) n diff body (copy (subarray from to body) s at) in
    if leb to from || ltb (length body) to || ltb (length s) (at + (to - from))
    then ok none
    else rest

unfoldable pub apply_diff : Bytes → Bytes → Result (Option Bytes)
apply_diff diff s = read_le 4 diff 0 >>= λ changed.
    if changed == length s
    then (read_le 4 diff 4 >>= λ n. diff_loop n 0 n diff (drop (8 + 8 * n) diff) s)
    else ok none

-- A whole state, from behind its length.
unfoldable pub commit_state : Bytes → Bytes → Result (Option Bytes)
commit_state d s = read_le 4 d 25 >>= λ n.
    if n == length s then ok (some (copy (subarray 29 (29 + n) d) s 0)) else ok none

unfoldable pub commit_diff : Bytes → Bytes → Result (Option Bytes)
commit_diff d s = read_le 4 d 8 >>= λ n. apply_diff (subarray 12 (12 + n) d) s

-- A diff where the flag is there and not 0, else a whole state.
unfoldable pub finalize_with : Option ℕ → Bytes → Bytes → Result (Option Bytes)
finalize_with (some (suc flag)) body s = apply_diff body s
finalize_with (some zero) body s =
    if length body == length s then ok (some (copy body s 0)) else ok none
finalize_with none body s = if length body == length s then ok (some (copy body s 0)) else ok none

unfoldable pub commit_finalize : Bytes → Bytes → Result (Option Bytes)
commit_finalize d s = finalize_with (get_elem? d 25) (drop 32 d) s

-- One commit; `none` is a `return null`.
unfoldable pub replay_one : Bytes → Bytes → Result (Option Bytes)
replay_one d s = read_le 8 d 0 >>= λ disc.
    if disc == 1
    then commit_state d s
    else if disc == 16
    then commit_diff d s
    else if disc == 21
    then commit_finalize d s
    else if disc == 13 || disc == 17 || disc == 22
    then ok none
    else ok (some s)

unfoldable pub replay_all : List Bytes → Bytes → Result (Option Bytes)
replay_all [] s = ok (some s)
replay_all (d ∷ ds) s =
    replay_one d s >>= λ r. elim r [ none ↦ ok none | some s' ↦ replay_all ds s' ]

-- The state that `start_game_vrf` writes.
unfoldable pub started : Web3 → ℕ → Result Bytes
started w mine_count =
    let s = copy (account_discriminator w "VrfGame") (alloc vrf_game_space) 0 in
    write_le 8 10000 (copy (mine_count % 256 ∷ []) s vg_mine_count) vg_multiplier_bps

-- `decodeVrfGame`, where what is thrown is caught.
unfoldable pub game_in : (w : Web3) → Bytes → Option (VrfGameAccount w.PublicKey)
game_in w s = elim (decode_vrf_game w s) [ ok game ↦ some game | err e ↦ none ]

unfoldable pub game_of : (w : Web3) → Result (Option Bytes) → Option (VrfGameAccount w.PublicKey)
game_of w (ok (some s)) = game_in w s
game_of w (ok none) = none
game_of w (err e) = none

-- `replayCommits`
unfoldable pub replay_commits : (w : Web3) → List Bytes → ℕ → Option (VrfGameAccount w.PublicKey)
replay_commits w commits mine_count = game_of w (started w mine_count >>= replay_all commits)

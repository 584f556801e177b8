-- ===== src/Web/VerifyVrf/History/Walk.antt =====
-- The walk finds the round's start, and replays the commits since then in their order.
use playkaboom.Common.{
  ℕ, ◌≡◌, refl, sym, ap, ap₂, ◌∙◌, ◌||◌, Bool, true, false, Option, none, some, List, [], ◌∷◌, ◌++◌,
  ◌⊎◌, inl, inr, Result, ok, err, if◌then◌else◌, All,
}
use mathlib.Core.List.{
  reverse, reverse-append, reverse-cons, reverse-reverse, append_assoc, append-nil,
}
use playkaboom.Sdk.Buffer.{Bytes}
use playkaboom.Sdk.Web3.{Web3}
use playkaboom.Web.VerifyVrf.Replay.{replay_commits}
use playkaboom.Web.VerifyVrf.History.{
  RawIx, RawTx, HistoryEntry, IxKind, other, commit, start, kind_of, scan, found, walk, vrf_round,
}

or_false : (b : Bool) → (b || false) ≡ b
or_false true = refl
or_false false = refl

or_assoc : (a b c : Bool) → ((a || b) || c) ≡ (a || (b || c))
or_assoc true b c = refl
or_assoc false b c = refl

or_true : (b : Bool) → (b || true) ≡ true
or_true true = refl
or_true false = refl

module _ (kind : RawIx → Result IxKind) where
  commit_of : Result IxKind → List Bytes
  commit_of (ok (commit bytes)) = bytes ∷ []
  commit_of _ = []

  -- The commits of instructions, in their order
  unfoldable pub commits_in : List RawIx → List Bytes
  unfolding commit_of
  commits_in [] = []
  commits_in (ix ∷ ixs) = commit_of (kind ix) ++ commits_in ixs

  -- An instruction that is readable and no start
  abbrev pub IsPlain : RawIx → Type 0
  IsPlain ix = (kind ix ≡ ok other) ⊎ ((bytes : Bytes) × (kind ix ≡ ok (commit bytes)))

  scan-plain :
      (ixs rest : List RawIx) (commits : List Bytes)
      → All IsPlain ixs
      → scan kind (ixs ++ rest) commits ≡ scan kind rest (commits ++ commits_in ixs)
  unfolding scan commits_in commit_of
  scan-plain [] rest commits plain = rw append-nil refl
  scan-plain (ix ∷ ixs) rest commits (inl e, plain) =
      rw (e, scan, commit_of) (scan-plain ixs rest commits plain)
  scan-plain (ix ∷ ixs) rest commits (inr (bytes, e), plain) =
      let eq = append_assoc commits (bytes ∷ []) (commits_in ixs) in
      rw (e, scan, commit_of)
        (scan-plain ixs rest (commits ++ bytes ∷ []) plain ∙ ap (λ cs. scan kind rest cs) eq)

  reverse-commit_of : (r : Result IxKind) → reverse (commit_of r) ≡ commit_of r
  unfolding commit_of
  reverse-commit_of (ok (commit bytes)) = refl
  reverse-commit_of (ok other) = refl
  reverse-commit_of (ok (start m b)) = refl
  reverse-commit_of (err e) = refl

  commits_in-append : (xs ys : List RawIx) → commits_in (xs ++ ys) ≡ commits_in xs ++ commits_in ys
  unfolding commits_in
  commits_in-append [] ys = refl
  commits_in-append (x ∷ xs) ys =
      rw (commits_in-append xs ys)
        (sym (append_assoc (commit_of (kind x)) (commits_in xs) (commits_in ys)))

  commits_in-reverse : (xs : List RawIx) → commits_in (reverse xs) ≡ reverse (commits_in xs)
  unfolding commits_in
  commits_in-reverse [] = refl
  commits_in-reverse (x ∷ xs) =
      rw
        (
          reverse-cons x xs,
          commits_in-append (reverse xs) (x ∷ []),
          commits_in-reverse xs,
          reverse-append (commit_of (kind x)) (commits_in xs),
          reverse-commit_of (kind x),
          append-nil,
        )
        refl

  IsPlain-append : (xs ys : List RawIx) → All IsPlain xs → All IsPlain ys → All IsPlain (xs ++ ys)
  IsPlain-append [] ys h k = k
  IsPlain-append (x ∷ xs) ys (h, hs) k = (h, IsPlain-append xs ys hs k)

  IsPlain-reverse : (xs : List RawIx) → All IsPlain xs → All IsPlain (reverse xs)
  IsPlain-reverse [] h = tt
  IsPlain-reverse (x ∷ xs) (h, hs) =
      rw (reverse-cons x xs) (IsPlain-append (reverse xs) (x ∷ []) (IsPlain-reverse xs hs) (h, tt))

  -- A transaction that leaves the walk going, with the commits that it holds
  abbrev pub IsQuiet : HistoryEntry → Type 0
  IsQuiet entry =
      (entry.failed ≡ true)
      ⊎ ((entry.failed ≡ false) × (entry.read ≡ none))
      ⊎ ((entry.failed ≡ false)
          × (tx : RawTx) × (entry.read ≡ some tx)
          × ((tx.tx_failed ≡ true) ⊎ ((tx.tx_failed ≡ false) × All IsPlain tx.instructions)))

  unfoldable pub commits_of_tx : Option RawTx → List Bytes
  commits_of_tx none = []
  commits_of_tx (some tx) = if tx.tx_failed then [] else commits_in tx.instructions

  unfoldable pub entry_commits : HistoryEntry → List Bytes
  unfolding commits_of_tx
  entry_commits entry = if entry.failed then [] else commits_of_tx entry.read

  -- The commits of a history that is newest first, from the oldest on
  unfoldable pub chronological : List HistoryEntry → List Bytes
  chronological [] = []
  chronological (entry ∷ entries) = chronological entries ++ entry_commits entry

  unfoldable pub unread : HistoryEntry → Bool
  unread entry = if entry.failed then false else elim entry.read [ none ↦ true | some tx ↦ false ]

  unfoldable pub any_unread : List HistoryEntry → Bool
  any_unread [] = false
  any_unread (entry ∷ entries) = unread entry || any_unread entries

  module _ (w : Web3) where
    walk_step :
        (entry : HistoryEntry) (rest : List HistoryEntry) (commits : List Bytes) (gap : Bool)
        → IsQuiet entry
        → walk w kind (entry ∷ rest) commits gap
          ≡ walk w kind rest (commits ++ reverse (entry_commits entry)) (gap || unread entry)
    unfolding walk entry_commits commits_of_tx unread scan
    walk_step entry rest commits gap (inl failed) = rw (failed, append-nil, or_false gap) refl
    walk_step entry rest commits gap (inr (inl (fine, absent))) =
        rw (fine, absent, commits_of_tx, append-nil, or_true gap) refl
    walk_step entry rest commits gap (inr (inr (fine, tx, read, inl failed))) =
        rw (fine, read, commits_of_tx) (rw (failed, append-nil, or_false gap) refl)
    walk_step entry rest commits gap (inr (inr (fine, tx, read, inr (went, plain)))) =
        let scanned =
          ap (λ ixs. scan kind ixs commits) (sym (append-nil (reverse tx.instructions)))
          ∙ scan-plain (reverse tx.instructions) [] commits
              (IsPlain-reverse tx.instructions plain) in
        rw (fine, read, commits_of_tx)
          (rw (went, scanned, scan, commits_in-reverse tx.instructions, or_false gap) refl)

    walk-quiet :
        (newer rest : List HistoryEntry) (commits : List Bytes) (gap : Bool)
        → All IsQuiet newer
        → walk w kind (newer ++ rest) commits gap
          ≡ walk w kind rest (commits ++ reverse (chronological newer)) (gap || any_unread newer)
    unfolding chronological any_unread
    walk-quiet [] rest commits gap quiet = rw (append-nil, or_false gap) refl
    walk-quiet (entry ∷ newer) rest commits gap (first, quiet) =
        let here = reverse (entry_commits entry) in
        let there = reverse (chronological newer) in
        let joined : commits ++ reverse (chronological newer ++ entry_commits entry)
            ≡ (commits ++ here) ++ there =
          ap (λ cs. commits ++ cs) (reverse-append (chronological newer) (entry_commits entry))
          ∙ sym (append_assoc commits here there) in
        walk_step entry (newer ++ rest) commits gap first
        ∙ walk-quiet newer rest (commits ++ here) (gap || unread entry) quiet
        ∙ ap₂ (λ cs g. walk w kind rest cs g) (sym joined)
            (or_assoc gap (unread entry) (any_unread newer))

    -- The transaction of a start, with the instructions before and after it
    walk-start :
        (entry : HistoryEntry) (older : List HistoryEntry) (before after : List RawIx)
        (begin : RawIx) (mine_count bet : ℕ) (commits : List Bytes) (gap : Bool)
        → entry.failed ≡ false
        → entry.read ≡ some (record { tx_failed = false; instructions = before ++ begin ∷ after })
        → kind begin ≡ ok (start mine_count bet)
        → All IsPlain after
        → walk w kind (entry ∷ older) commits gap
          ≡ ok (
              some (
                found w entry.signature gap
                  (commits ++ reverse (commits_in after))
                  (mine_count, bet)))
    unfolding walk scan
    walk-start entry older before after begin mine_count bet commits gap fine read is_start plain =
        let ixs = before ++ begin ∷ after in
        let turned : reverse ixs ≡ reverse after ++ begin ∷ reverse before =
          reverse-append before (begin ∷ after)
          ∙ ap (λ r. r ++ reverse before) (reverse-cons begin after)
          ∙ append_assoc (reverse after) (begin ∷ []) (reverse before) in
        let scanned =
          ap (λ r. scan kind r commits) turned
          ∙ scan-plain (reverse after) (begin ∷ reverse before) commits
              (IsPlain-reverse after plain) in
        rw (fine, read) (rw (scanned, scan, is_start, commits_in-reverse after) refl)

    walk_lem :
        (newer older : List HistoryEntry) (entry : HistoryEntry) (before after : List RawIx)
        (begin : RawIx) (mine_count bet : ℕ)
        → All IsQuiet newer
        → entry.failed ≡ false
        → entry.read ≡ some (record { tx_failed = false; instructions = before ++ begin ∷ after })
        → kind begin ≡ ok (start mine_count bet)
        → All IsPlain after
        → walk w kind (newer ++ entry ∷ older) [] false
          ≡ ok (
              some (
                record {
                  bet = bet;
                  mine_count = mine_count;
                  state =
                      if any_unread newer
                      then none
                      else replay_commits w (commits_in after ++ chronological newer) mine_count;
                },
                entry.signature,
              ))
    unfolding found
    walk_lem newer older entry before after begin mine_count bet quiet fine read is_start plain =
        let order : reverse (reverse (chronological newer) ++ reverse (commits_in after))
            ≡ commits_in after ++ chronological newer =
          ap (λ cs. reverse cs) (sym (reverse-append (commits_in after) (chronological newer)))
          ∙ reverse-reverse (commits_in after ++ chronological newer) in
        walk-quiet newer (entry ∷ older) [] false quiet
        ∙ walk-start entry older before after begin mine_count bet (reverse (chronological newer))
            (any_unread newer) fine read is_start plain
        ∙ rw order refl

-- Where the last start of the round on the game's history is known, with only readable transactions
-- or lost ones after it, `vrfRound` returns the start's bet and mine count and the replay of all
-- commits on the game since then, oldest first; it returns no state if one of those transactions
-- could not be read.
pub vrf_round_lem :
    (w : Web3) (bs58_decode : Bytes → Result Bytes) (to_base58 : w.PublicKey → Bytes)
    (program_id game claim : w.PublicKey) (newer older : List HistoryEntry) (entry : HistoryEntry)
    (before after : List RawIx) (begin : RawIx) (mine_count bet : ℕ)
    → All (IsQuiet (kind_of w bs58_decode to_base58 program_id game claim)) newer
    → entry.failed ≡ false
    → entry.read ≡ some (record { tx_failed = false; instructions = before ++ begin ∷ after })
    → kind_of w bs58_decode to_base58 program_id game claim begin ≡ ok (start mine_count bet)
    → All (IsPlain (kind_of w bs58_decode to_base58 program_id game claim)) after
    → vrf_round w bs58_decode to_base58 program_id game claim (newer ++ entry ∷ older)
      ≡ ok (
          some (
            record {
              bet = bet;
              mine_count = mine_count;
              state =
                  if any_unread (kind_of w bs58_decode to_base58 program_id game claim) newer
                  then none
                  else replay_commits w
                      (commits_in (kind_of w bs58_decode to_base58 program_id game claim) after
                        ++ chronological
                            (kind_of w bs58_decode to_base58 program_id game claim)
                            newer)
                      mine_count;
            },
            entry.signature,
          ))
unfolding vrf_round
vrf_round_lem w bs58_decode to_base58 program_id game claim =
    walk_lem (kind_of w bs58_decode to_base58 program_id game claim) w

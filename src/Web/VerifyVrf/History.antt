-- ===== src/Web/VerifyVrf/History.antt =====
-- `vrfRound`: the walk back over a game's transactions to the start of the round.
pub mod Walk
use playkaboom.Common.{
  ℕ, ◌+◌, ◌&&◌, ◌||◌, Bool, true, false, Option, none, some, List, [], ◌∷◌, ◌++◌, ◌⊎◌, inl, inr,
  Result, ok, err, ◌>>=◌, leb, if◌then◌else◌, length, get_elem?,
}
use mathlib.Core.List.{reverse}
use playkaboom.Sdk.Buffer.{Bytes, subarray, bytes_eq, read_le}
use playkaboom.Sdk.Web3.{Web3}
use playkaboom.Sdk.Pdas.{delegation_program}
use playkaboom.Sdk.Discriminator.{ix_discriminator}
use playkaboom.Web.VerifyVrf.{Round}
use playkaboom.Web.VerifyVrf.Replay.{replay_commits}

-- An instruction of a parsed transaction: texts in base58. A parsed one has no accounts or data.
pub record RawIx : Type 0 where
  pub program_id : Bytes
  pub accounts : Option (List Bytes)
  pub ix_data : Option Bytes

pub record RawTx : Type 0 where
  pub tx_failed : Bool
  pub instructions : List RawIx

-- An entry of the game's history, newest first, with what reading its transaction gave: nothing
-- where the node did not have it or answered with an error.
pub record HistoryEntry : Type 0 where
  pub failed : Bool
  pub signature : Bytes
  pub read : Option RawTx

-- What an instruction is to the walk
pub data IxKind : Type 0 where
  other : IxKind
  commit : Bytes → IxKind
  start : (mine_count bet : ℕ) → IxKind

unfoldable pub account_is : List Bytes → ℕ → Bytes → Bool
account_is accounts i key = elim (get_elem? accounts i) [ none ↦ false | some k ↦ bytes_eq k key ]

-- `bs58.decode` and `toBase58`, of packages that the code imports
module _ (w : Web3) (bs58_decode : Bytes → Result Bytes) (to_base58 : w.PublicKey → Bytes)
    (program_id game claim : w.PublicKey) where
  -- `data[8]` and the u64 behind it
  unfoldable pub start_args : Bytes → Result IxKind
  start_args bytes = elim (get_elem? bytes 8) [
    | none ↦ ok other
    | some mine_count ↦ read_le 8 bytes 9 >>= λ bet. ok (start mine_count bet)
  ]

  unfoldable pub decoded_kind : Bytes → List Bytes → Bytes → Result IxKind
  unfolding account_is start_args
  decoded_kind program accounts bytes =
      if bytes_eq program (to_base58 (delegation_program w))
        && account_is accounts 1 (to_base58 game)
      then ok (commit bytes)
      else if bytes_eq program (to_base58 program_id)
          && leb 17 (length bytes)
          && bytes_eq (subarray 0 8 bytes) (ix_discriminator w "start_game_vrf")
          && account_is accounts 3 (to_base58 claim)
          && account_is accounts 4 (to_base58 game)
      then start_args bytes
      else ok other

  unfoldable pub given_kind : Bytes → Option (List Bytes) → Option Bytes → Result IxKind
  unfolding decoded_kind
  given_kind program (some accounts) (some (c ∷ cs)) =
      bs58_decode (c ∷ cs) >>= λ bytes. decoded_kind program accounts bytes
  given_kind program _ _ = ok other

  unfoldable pub kind_of : RawIx → Result IxKind
  unfolding given_kind
  kind_of ix = given_kind ix.program_id ix.accounts ix.ix_data

-- The start that was found: its mine count and bet
abbrev pub Start : Type 0
Start = ℕ × ℕ

-- The loop over a transaction's instructions, from the last to the first: the commits, newest
-- first, and the start where it is reached
unfoldable pub scan :
    (RawIx → Result IxKind) → List RawIx → List Bytes → Result (List Bytes × Option Start)
scan kind [] commits = ok (commits, none)
scan kind (ix ∷ ixs) commits = elim (kind ix) [
  | err e ↦ err e
  | ok other ↦ scan kind ixs commits
  | ok (commit bytes) ↦ scan kind ixs (commits ++ bytes ∷ [])
  | ok (start mine_count bet) ↦ ok (commits, some (mine_count, bet))
]

module _ (w : Web3) where
  -- What is returned at the start
  unfoldable pub found : Bytes → (gap : Bool) → List Bytes → Start → Round w.PublicKey × Bytes
  found signature gap commits (mine_count, bet) = (
    record {
      bet = bet;
      mine_count = mine_count;
      state = if gap then none else replay_commits w (reverse commits) mine_count;
    },
    signature,
  )

  -- The loop over the history. `gap` says that a transaction could not be read.
  unfoldable pub walk :
      (RawIx → Result IxKind)
      → List HistoryEntry
      → List Bytes
      → (gap : Bool) → Result (Option (Round w.PublicKey × Bytes))
  unfolding found
  walk kind [] commits gap = ok none
  walk kind (entry ∷ entries) commits gap =
      if entry.failed then walk kind entries commits gap else elim entry.read [
        | none ↦ walk kind entries commits true
        | some tx ↦
            if tx.tx_failed
            then walk kind entries commits gap
            else elim (scan kind (reverse tx.instructions) commits) [
              | err e ↦ err e
              | ok (commits', some begin) ↦ ok (some (found entry.signature gap commits' begin))
              | ok (commits', none) ↦ walk kind entries commits' gap
            ]
      ]

-- The history is what getSignaturesForAddress returned: at most the last ten before the closing
-- transaction.
unfoldable pub vrf_round :
    (w : Web3) (bs58_decode : Bytes → Result Bytes) (to_base58 : w.PublicKey → Bytes)
    (program_id game claim : w.PublicKey)
    → List HistoryEntry
    → Result (Option (Round w.PublicKey × Bytes))
unfolding kind_of walk scan
vrf_round w bs58_decode to_base58 program_id game claim history =
    walk w (kind_of w bs58_decode to_base58 program_id game claim) history [] false

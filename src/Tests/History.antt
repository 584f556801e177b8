-- ===== src/Tests/History.antt =====
-- A round's history: a commit after its start.
use playkaboom.Common.{
  ◌≡◌, refl, true, false, none, some, [], ◌∷◌, ◌++◌, ok, Result, inl, inr, codes,
}
use playkaboom.Sdk.Buffer.{Bytes, bytes_eq, read_le, le_value, le_bytes}
use playkaboom.Sdk.Pdas.{delegation_program}
use playkaboom.Sdk.Discriminator.{ix_discriminator}
use playkaboom.Web.VerifyVrf.Replay.{replay_commits}
use playkaboom.Web.VerifyVrf.History.{
  RawIx, HistoryEntry, IxKind, kind_of, given_kind, decoded_kind, start_args, account_is, commit,
  start, vrf_round,
}
use playkaboom.Web.VerifyVrf.History.Walk.{
  vrf_round_lem, commits_in, chronological, any_unread, unread, entry_commits,
}
use playkaboom.Tests.Toy.{Key, zero_key, program_key, player_key, house_key, toy}

abbrev decode : Bytes → Result Bytes
decode text = ok text

abbrev name : Key → Bytes
name k = toy.to_bytes k

abbrev begin : RawIx
begin = record {
  program_id = name house_key;
  accounts =
      some
        (name house_key ∷ name house_key ∷ name house_key ∷ name zero_key ∷ name player_key ∷ []);
  ix_data = some (ix_discriminator toy "start_game_vrf" ++ (3 ∷ le_bytes 8 1000000));
}

abbrev committed : RawIx
committed = record {
  program_id = name program_key;
  accounts = some (name house_key ∷ name player_key ∷ []);
  ix_data = some (1 ∷ 2 ∷ 3 ∷ []);
}

is_start : kind_of toy decode name house_key player_key zero_key begin ≡ ok (start 3 1000000)
unfolding kind_of given_kind decoded_kind start_args account_is bytes_eq delegation_program
    ix_discriminator le_bytes read_le le_value
is_start = refl

is_commit :
    kind_of toy decode name house_key player_key zero_key committed ≡ ok (commit (1 ∷ 2 ∷ 3 ∷ []))
unfolding kind_of given_kind decoded_kind account_is bytes_eq delegation_program
is_commit = refl

abbrev later : HistoryEntry
later = record {
  failed = false;
  signature = codes "later";
  read = some (record { tx_failed = false; instructions = committed ∷ [] });
}

abbrev lost_entry : HistoryEntry
lost_entry = record { failed = true; signature = codes "lost"; read = none }

abbrev opening : HistoryEntry
opening = record {
  failed = false;
  signature = codes "opening";
  read = some (record { tx_failed = false; instructions = begin ∷ committed ∷ [] });
}

abbrev kind : RawIx → Result IxKind
kind ix = kind_of toy decode name house_key player_key zero_key ix

vrf_round_lem_example :
    vrf_round toy decode name house_key player_key zero_key (later ∷ lost_entry ∷ opening ∷ [])
    ≡ ok (
        some (
          record {
            bet = 1000000;
            mine_count = 3;
            state = replay_commits toy ((1 ∷ 2 ∷ 3 ∷ []) ∷ (1 ∷ 2 ∷ 3 ∷ []) ∷ []) 3;
          },
          codes "opening",
        ))
unfolding any_unread unread commits_in chronological kind_of bytes_eq delegation_program
    entry_commits
vrf_round_lem_example =
    vrf_round_lem toy decode name house_key player_key zero_key (later ∷ lost_entry ∷ []) [] opening
      [] (committed ∷ []) begin 3 1000000
      (
        inr (
            inr (
              refl,
              record { tx_failed = false; instructions = committed ∷ [] },
              refl,
              inr (refl, (inr (_, is_commit), tt)),
            )),
        (inl refl, tt),
      )
      refl refl is_start (inr (_, is_commit), tt)

-- ===== src/Tests/Session.antt =====
-- A session that is sealed by a toy cipher, kept and read back.
use playkaboom.Common.{
  ℕ, ◌≡◌, refl, true, none, some, Option, [], ◌∷◌, ◌++◌, ◌⊎◌, Result, ok, err, thrown, codes,
  replicate, length, take, drop, take-append_length, drop-append_length,
}
use playkaboom.Sdk.Buffer.{Bytes}
use playkaboom.Web.Session.{
  SessionPayload, Codec, IsCodec, SaveSessionMeta, SessionTable, save_session, load_session,
  upsert_row, encrypt_session, client_session,
}
use playkaboom.Web.Session.Resolve.{
  ClientSession, StoredSession, load_session-IsBound, load_session-save_session,
}

-- Games are told apart by their nonce alone here.
abbrev round : ℕ → SessionPayload
round nonce = record {
  player = codes "player";
  mine_count = 3;
  mine_layout = 67;
  salt = replicate 32 9;
  commitment = replicate 32 nonce;
  reveals = 4 ∷ [];
  nonce = nonce;
  created_at = 1700000000;
}

-- A payload as a list of numbers: the texts' lengths first, then the texts.
abbrev stringify : SessionPayload → Bytes
stringify p =
    p.mine_count
    ∷ p.mine_layout
    ∷ p.nonce
    ∷ p.created_at
    ∷ length p.player
    ∷ length p.salt
    ∷ length p.commitment
    ∷ (p.player ++ (p.salt ++ (p.commitment ++ p.reveals)))

abbrev parse : Bytes → Result (Option SessionPayload)
parse (count ∷ layout ∷ nonce ∷ created ∷ a ∷ b ∷ c ∷ rest) = ok (
    some (record {
      player = take a rest;
      mine_count = count;
      mine_layout = layout;
      salt = take b (drop a rest);
      commitment = take c (drop b (drop a rest));
      reveals = drop c (drop b (drop a rest));
      nonce = nonce;
      created_at = created;
    }))
parse _ = err (thrown "no session")

abbrev codec : Codec
codec = record {
  seal = λ iv plain. (plain, replicate 16 0);
  unseal = λ iv tag enc. ok enc;
  base64url = λ b. b;
  from_base64url = λ b. b;
  stringify = stringify;
  parse = parse;
}

parse-stringify : (p : SessionPayload) → parse (stringify p) ≡ ok (some p)
parse-stringify p =
    rw
      (
        take-append_length p.player (p.salt ++ (p.commitment ++ p.reveals)),
        drop-append_length p.player (p.salt ++ (p.commitment ++ p.reveals)),
        take-append_length p.salt (p.commitment ++ p.reveals),
        drop-append_length p.salt (p.commitment ++ p.reveals),
        take-append_length p.commitment p.reveals,
        drop-append_length p.commitment p.reveals,
      )
      refl

codec-IsCodec : IsCodec codec
codec-IsCodec = record {
  unseal-seal = λ iv plain. refl;
  length-tag = λ iv plain. refl;
  length-seal = λ iv plain. refl;
  from_base64url-base64url = λ b. refl;
  parse-stringify = parse-stringify;
  stringify-ne = λ p. (p.mine_count, _, refl);
}

-- An empty text is no key.
abbrev game_of : Bytes → Result Bytes
game_of [] = err (thrown "Invalid public key input")
game_of (c ∷ cs) = ok (103 ∷ c ∷ cs)

abbrev iv : Bytes
iv = replicate 12 5

abbrev meta : SaveSessionMeta
meta = record { bet_lamports = some 1000000; mine_count = some 3; start_slot = none }

abbrev kept : SessionTable
kept = upsert_row [] (record {
  game = codes "gplayer";
  player = codes "player";
  ciphertext = encrypt_session codec iv (round 1);
  created_slot = 100;
  bet_lamports = some 1000000;
  row_mine_count = some 3;
  start_slot = none;
})

saved :
    save_session codec game_of true iv (codes "player") (round 1) 100 meta []
    ≡ ok (kept, encrypt_session codec iv (round 1))
unfolding save_session
saved = refl

-- A client without a token of the second round gets the row that the first one left there.
load_session-save_session_example :
    load_session codec game_of true (codes "player") none (some (replicate 32 2)) kept
    ≡ ok (some (round 1))
unfolding client_session
load_session-save_session_example =
    load_session-save_session codec game_of codec-IsCodec iv (codes "player") (round 1) 100 meta []
      refl none (some (replicate 32 2)) kept (encrypt_session codec iv (round 1)) saved refl

load_session-IsBound_example :
    ClientSession codec game_of (codes "player") none (some (replicate 32 2)) (round 1)
    ⊎ StoredSession codec game_of (codes "player") kept (round 1)
load_session-IsBound_example =
    load_session-IsBound codec game_of true (codes "player") none (some (replicate 32 2)) kept
      (round 1) load_session-save_session_example

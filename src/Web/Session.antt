-- ===== src/Web/Session.antt =====
-- apps/web/src/server/session.ts and session-store.ts: the token of a game, and where it is kept.
pub mod Resolve
use playkaboom.Common.{
  ℕ, ◌+◌, ◌≡◌, Bool, true, false, not, ◌&&◌, ◌||◌, Option, none, some, List, [], ◌∷◌, ◌++◌, Result,
  ok, err, thrown, guard, ◌>>◌, ◌>>=◌, ltb, ◌==◌, if◌then◌else◌, length, take, drop, codes,
}
use playkaboom.Sdk.Buffer.{Bytes, subarray, bytes_eq}

pub record SessionPayload : Type 0 where
  pub player : Bytes
  pub mine_count : ℕ
  pub mine_layout : ℕ
  pub salt : Bytes
  pub commitment : Bytes
  pub reveals : List ℕ
  pub nonce : ℕ
  pub created_at : ℕ

-- AES-256-GCM under SESSION_ENC_KEY, base64url, and JSON with the shape check of the parsed value:
-- none where a field that it looks at has another type.
pub record Codec : Type 0 where
  pub seal : (iv plain : Bytes) → Bytes × Bytes
  pub unseal : (iv tag enc : Bytes) → Result Bytes
  pub base64url : Bytes → Bytes
  pub from_base64url : Bytes → Bytes
  pub stringify : SessionPayload → Bytes
  pub parse : Bytes → Result (Option SessionPayload)

-- What the documentation of the three states: each is undone, a tag has 16 bytes, and a sealed text
-- is as long as the text, which is not empty.
pub record IsCodec (k : Codec) : Type 0 where
  pub unseal-seal :
      (iv plain : Bytes) → k.unseal iv (k.seal iv plain).1 (k.seal iv plain).0 ≡ ok plain
  pub length-tag : (iv plain : Bytes) → length (k.seal iv plain).1 ≡ 16
  pub length-seal : (iv plain : Bytes) → length (k.seal iv plain).0 ≡ length plain
  pub from_base64url-base64url : (b : Bytes) → k.from_base64url (k.base64url b) ≡ b
  pub parse-stringify : (p : SessionPayload) → k.parse (k.stringify p) ≡ ok (some p)
  pub stringify-ne : (p : SessionPayload) → (b : ℕ) × (bs : Bytes) × (k.stringify p ≡ b ∷ bs)

abbrev pub prefix : Bytes
prefix = codes "pk1:"

module _ (k : Codec) where
  -- `encryptSession`, with the bytes that randomBytes returned; `seal` gives the text and the tag.
  unfoldable pub encrypt_session : (iv : Bytes) → SessionPayload → Bytes
  encrypt_session iv payload =
      let sealed = k.seal iv (k.stringify payload) in
      prefix ++ k.base64url (iv ++ (sealed.1 ++ sealed.0))

  unfoldable pub checked : Option SessionPayload → Result SessionPayload
  checked none = err (thrown "Token payload malformed")
  checked (some payload) = ok payload

  unfoldable pub unsealed : Bytes → Result SessionPayload
  unfolding checked
  unsealed buf =
      guard (not (ltb (length buf) (12 + 16 + 1))) (thrown "Token truncated")
      >> (k.unseal (subarray 0 12 buf) (subarray 12 28 buf) (drop 28 buf) >>= λ dec.
          k.parse dec >>= checked)

  -- `decryptSession`
  unfoldable pub decrypt_session : Bytes → Result SessionPayload
  unfolding unsealed
  decrypt_session token =
      guard (bytes_eq (take 4 token) prefix) (thrown "Unsupported session token version")
      >> unsealed (k.from_base64url (drop 4 token))

pub record SaveSessionMeta : Type 0 where
  pub bet_lamports : Option ℕ
  pub mine_count : Option ℕ
  pub start_slot : Option ℕ

-- A row of `game_sessions`, by its key `game`
pub record SessionRow : Type 0 where
  pub game : Bytes
  pub player : Bytes
  pub ciphertext : Bytes
  pub created_slot : ℕ
  pub bet_lamports : Option ℕ
  pub row_mine_count : Option ℕ
  pub start_slot : Option ℕ

abbrev pub SessionTable : Type 0
SessionTable = List SessionRow

unfoldable pub row_of : SessionTable → Bytes → Option SessionRow
row_of [] game = none
row_of (r ∷ rs) game = if bytes_eq r.game game then some r else row_of rs game

-- A column that the new row does not give stays as it is.
unfoldable pub or_old : Option ℕ → Option ℕ → Option ℕ
or_old (some new) old = some new
or_old none old = old

unfoldable pub merge_row : (old new : SessionRow) → SessionRow
unfolding or_old
merge_row old new = record new {
  bet_lamports = or_old new.bet_lamports old.bet_lamports;
  row_mine_count = or_old new.row_mine_count old.row_mine_count;
  start_slot = or_old new.start_slot old.start_slot;
}

-- `upsert("game_sessions", row, ["game"])`
unfoldable pub upsert_row : SessionTable → SessionRow → SessionTable
unfolding merge_row
upsert_row [] row = row ∷ []
upsert_row (r ∷ rs) row =
    let rest = upsert_row rs row in
    if bytes_eq r.game row.game then merge_row r row ∷ rs else r ∷ rest

unfoldable pub delete_row : SessionTable → Bytes → SessionTable
delete_row [] game = []
delete_row (r ∷ rs) game =
    let rest = delete_row rs game in if bytes_eq r.game game then rest else r ∷ rest

-- `game_of` is the base58 text of the player's derived game address, of the base58 text of the
-- player, from which `new PublicKey` throws where that is no key. `db_up` says whether the database
-- answers.
module _ (k : Codec) (game_of : Bytes → Result Bytes) where
  unfoldable pub save_session :
      (db_up : Bool)
      → (iv player : Bytes) → SessionPayload
      → (created_slot : ℕ) → SaveSessionMeta
      → SessionTable
      → Result (SessionTable × Bytes)
  unfolding encrypt_session upsert_row
  save_session db_up iv player payload created_slot meta table =
      let ciphertext = encrypt_session k iv payload in
      game_of player >>= λ game.
      let row : SessionRow = record {
        game = game;
        player = player;
        ciphertext = ciphertext;
        created_slot = created_slot;
        bet_lamports = meta.bet_lamports;
        row_mine_count = meta.mine_count;
        start_slot = meta.start_slot;
      } in
      ok (if db_up then upsert_row table row else table, ciphertext)

  unfoldable pub is_expected : Option Bytes → SessionPayload → Bool
  is_expected none payload = true
  is_expected (some commitment) payload = bytes_eq payload.commitment commitment

  -- The client's token, where it decrypts to a session of the player and of the round
  unfoldable pub from_client :
      (player : Bytes) → Option Bytes → Result SessionPayload → Option SessionPayload
  unfolding is_expected
  from_client player expected (err e) = none
  from_client player expected (ok decoded) =
      if bytes_eq decoded.player player && is_expected expected decoded then some decoded else none

  unfoldable pub client_session :
      (player : Bytes) → (token expected : Option Bytes) → Option SessionPayload
  unfolding from_client decrypt_session
  client_session player none expected = none
  client_session player (some []) expected = none
  client_session player (some (c ∷ cs)) expected =
      from_client player expected (decrypt_session k (c ∷ cs))

  unfoldable pub or_none : Result SessionPayload → Option SessionPayload
  or_none (err e) = none
  or_none (ok payload) = some payload

  unfoldable pub from_row : (player : Bytes) → Option SessionRow → Option SessionPayload
  unfolding or_none decrypt_session
  from_row player none = none
  from_row player (some row) =
      if bytes_eq row.player player then or_none (decrypt_session k row.ciphertext) else none

  unfoldable pub load_session :
      (db_up : Bool)
      → (player : Bytes) → (token expected : Option Bytes) → SessionTable
      → Result (Option SessionPayload)
  unfolding client_session from_row row_of
  load_session db_up player token expected table = elim (client_session player token expected) [
    | some decoded ↦ ok (some decoded)
    | none ↦
        game_of player >>= λ game. ok (if db_up then from_row player (row_of table game) else none)
  ]

  unfoldable pub delete_session :
      (db_up : Bool) → (player : Bytes) → SessionTable → Result SessionTable
  unfolding delete_row
  delete_session db_up player table =
      game_of player >>= λ game. ok (if db_up then delete_row table game else table)

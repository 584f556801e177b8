-- ===== src/Web/Session/Resolve.antt =====
-- Which session a request resolves to.
use playkaboom.Common.{
  ℕ, ◌≡◌, refl, ap, sym, ltb, le→ltb, ◌∙◌, arith, Bool, true, false, ◌⊎◌, inl, inr, Option, none,
  some, [], ◌∷◌, ◌++◌, Result, ok, err, length, take, drop, length-append, take-append_length,
  drop-append_length, drop-add, Bool-cases, Option-cases, Result-cases,
}
use playkaboom.Sdk.Buffer.{Bytes, bytes_eq}
use playkaboom.Sdk.Buffer.Laws.{bytes_eq_refl, bytes_eq_iff}
use playkaboom.Web.Session.{
  SessionPayload, Codec, IsCodec, encrypt_session, checked, unsealed, decrypt_session, SessionRow,
  SessionTable, SaveSessionMeta, row_of, merge_row, upsert_row, delete_row, save_session,
  is_expected, from_client, client_session, or_none, from_row, load_session, delete_session,
}

take-parts : (n : ℕ) (xs ys : Bytes) → length xs ≡ n → take n (xs ++ ys) ≡ xs
take-parts n xs ys h = ap (λ m. take m (xs ++ ys)) (sym h) ∙ take-append_length xs ys

drop-parts : (n : ℕ) (xs ys : Bytes) → length xs ≡ n → drop n (xs ++ ys) ≡ ys
drop-parts n xs ys h = ap (λ m. drop m (xs ++ ys)) (sym h) ∙ drop-append_length xs ys

module _ (k : Codec) (laws : IsCodec k) (iv : Bytes) (p : SessionPayload) (h : length iv ≡ 12) where
  unsealed-seal :
      unsealed k (iv ++ ((k.seal iv (k.stringify p)).1 ++ (k.seal iv (k.stringify p)).0)) ≡ ok p
  unfolding unsealed checked
  unsealed-seal =
      let plain = k.stringify p in
      let tag = (k.seal iv plain).1 in
      let enc = (k.seal iv plain).0 in
      let text = laws.stringify-ne p in
      let long : ltb (length (iv ++ (tag ++ enc))) 29 ≡ false = le→ltb _ 29 (
        omega (
          arith,
          length-append iv (tag ++ enc),
          length-append tag enc,
          laws.length-tag iv plain,
          laws.length-seal iv plain,
          ap length text.2,
          h,
        )) in
      let is_iv : take 12 (iv ++ (tag ++ enc)) ≡ iv = take-parts 12 iv (tag ++ enc) h in
      let rest : drop 12 (iv ++ (tag ++ enc)) ≡ tag ++ enc = drop-parts 12 iv (tag ++ enc) h in
      let is_tag : take 16 (tag ++ enc) ≡ tag = take-parts 16 tag enc (laws.length-tag iv plain) in
      let is_enc : drop 28 (iv ++ (tag ++ enc)) ≡ enc =
        drop-add 12 16 (iv ++ (tag ++ enc))
        ∙ ap (λ b. drop 16 b) rest
        ∙ drop-parts 16 tag enc (laws.length-tag iv plain) in
      rw (long, is_iv, rest, is_tag, is_enc, laws.unseal-seal iv plain, laws.parse-stringify p) refl

  pub decrypt_session-encrypt_session : decrypt_session k (encrypt_session k iv p) ≡ ok p
  unfolding decrypt_session encrypt_session bytes_eq
  decrypt_session-encrypt_session =
      rw
        (laws.from_base64url-base64url
          (iv ++ ((k.seal iv (k.stringify p)).1 ++ (k.seal iv (k.stringify p)).0)))
        unsealed-seal

-- The row that a save leaves: its player and token
row_of-upsert_row :
    (table : SessionTable) (row : SessionRow)
    → (r : SessionRow) × (row_of (upsert_row table row) row.game ≡ some r)
      × (r.player ≡ row.player)
      × (r.ciphertext ≡ row.ciphertext)
unfolding row_of upsert_row merge_row
row_of-upsert_row [] row = (row, rw (bytes_eq_refl row.game) refl, refl, refl)
row_of-upsert_row (r ∷ rs) row = elim (Bool-cases (bytes_eq r.game row.game)) [
  | inl here ↦ (merge_row r row, rw (here, bytes_eq_refl row.game) refl, refl, refl)
  | inr there ↦
      let rest = row_of-upsert_row rs row in (rest.0, rw (there, there) rest.1, rest.2, rest.3)
]

row_of-delete_row :
    (table : SessionTable) (game : Bytes) → row_of (delete_row table game) game ≡ none
unfolding row_of delete_row
row_of-delete_row [] game = refl
row_of-delete_row (r ∷ rs) game = ground (arith, row_of-delete_row rs game)

module _ (k : Codec) (game_of : Bytes → Result Bytes) where
  from_client-IsBound :
      (player : Bytes) (expected : Option Bytes) (r : Result SessionPayload) (p : SessionPayload)
      → from_client k game_of player expected r ≡ some p
      → (r ≡ ok p)
        × (p.player ≡ player)
        × ((commitment : Bytes) → expected ≡ some commitment → p.commitment ≡ commitment)
  unfolding from_client is_expected
  from_client-IsBound player expected (err e) p h = cc
  from_client-IsBound player none (ok d) p h =
      (ground arith, ground (arith, bytes_eq_iff d.player player), λ c e. cc)
  from_client-IsBound player (some x) (ok d) p h = (
    ground arith,
    ground (arith, bytes_eq_iff d.player player),
    λ c e. ground (arith, bytes_eq_iff d.commitment x),
  )

  -- A token of the client, as a session of the player and of the expected round
  abbrev pub ClientSession :
      (player : Bytes) (token expected : Option Bytes) → SessionPayload → Type 0
  ClientSession player token expected p =
      (t : Bytes) × (token ≡ some t)
      × (decrypt_session k t ≡ ok p)
      × (p.player ≡ player)
      × ((commitment : Bytes) → expected ≡ some commitment → p.commitment ≡ commitment)

  -- The server's row for the player's game address, as a session
  abbrev pub StoredSession : (player : Bytes) → SessionTable → SessionPayload → Type 0
  StoredSession player table p =
      (game : Bytes) × (game_of player ≡ ok game)
      × (row : SessionRow) × (row_of table game ≡ some row)
      × (row.player ≡ player)
      × (decrypt_session k row.ciphertext ≡ ok p)

  client_session-IsBound :
      (player : Bytes) (token expected : Option Bytes) (p : SessionPayload)
      → client_session k game_of player token expected ≡ some p
      → ClientSession player token expected p
  unfolding client_session
  client_session-IsBound player none expected p h = cc
  client_session-IsBound player (some []) expected p h = cc
  client_session-IsBound player (some (c ∷ cs)) expected p h =
      let bound = from_client-IsBound player expected (decrypt_session k (c ∷ cs)) p h in
      (c ∷ cs, refl, bound.0, bound.1, bound.2)

  from_row-IsBound :
      (player game : Bytes) (table : SessionTable) (r : Option SessionRow) (p : SessionPayload)
      → game_of player ≡ ok game
      → row_of table game ≡ r
      → from_row k game_of player r ≡ some p
      → StoredSession player table p
  unfolding from_row or_none
  from_row-IsBound player game table none p g e h = cc
  from_row-IsBound player game table (some row) p g e h =
      elim (Result-cases (decrypt_session k row.ciphertext)) [
        | inl (error, bad) ↦ absurd (ground arith)
        | inr (decoded, good) ↦
            (game, g, row, e, ground (arith, bytes_eq_iff row.player player), ground arith)
      ]

  -- A session that a request resolves to is one of two: that of the client's token, which is then of
  -- the player and of the expected round, or that of the server's row for the player's game address.
  pub load_session-IsBound :
      (db_up : Bool) (player : Bytes) (token expected : Option Bytes) (table : SessionTable)
      (p : SessionPayload)
      → load_session k game_of db_up player token expected table ≡ ok (some p)
      → ClientSession player token expected p ⊎ StoredSession player table p
  unfolding load_session
  load_session-IsBound db_up player token expected table p h =
      elim (Option-cases (client_session k game_of player token expected)) [
        | inr (decoded, e) ↦
            let same : decoded ≡ p = ground arith in
            inl (client_session-IsBound player token expected p (e ∙ ap (λ d. some d) same))
        | inl e ↦ elim (Result-cases (game_of player)) [
          | inl (error, bad) ↦ absurd (ground arith)
          | inr (game, g) ↦
              inr (from_row-IsBound player game table (row_of table game) p g refl (ground arith))
        ]
      ]

  from_row-some :
      (player : Bytes) (row : SessionRow) (p : SessionPayload)
      → row.player ≡ player
      → decrypt_session k row.ciphertext ≡ ok p
      → from_row k game_of player (some row) ≡ some p
  unfolding from_row or_none
  from_row-some player row p own readable = ground (arith, bytes_eq_iff row.player player)

  module _ (laws : IsCodec k) (iv player : Bytes) (p : SessionPayload) (slot : ℕ)
      (meta : SaveSessionMeta) (table : SessionTable) (h : length iv ≡ 12) where
    read_back :
        (token expected : Option Bytes) (saved : SessionTable) (ciphertext game : Bytes)
        → game_of player ≡ ok game
        → save_session k game_of true iv player p slot meta table ≡ ok (saved, ciphertext)
        → client_session k game_of player token expected ≡ none
        → load_session k game_of true player token expected saved ≡ ok (some p)
    unfolding load_session save_session
    read_back token expected saved ciphertext game g took other =
        let row : SessionRow = record {
          game = game;
          player = player;
          ciphertext = encrypt_session k iv p;
          created_slot = slot;
          bet_lamports = meta.bet_lamports;
          row_mine_count = meta.mine_count;
          start_slot = meta.start_slot;
        } in
        let kept = row_of-upsert_row table row in
        let readable = decrypt_session-encrypt_session k laws iv p h in
        let whole : ok (upsert_row table row, encrypt_session k iv p) ≡ ok (saved, ciphertext) =
          rw (save_session, g) at took in
        let same : upsert_row table row ≡ saved = cc in
        rw (load_session, other, g, ← same, kept.1)
          (ap (λ s. ok s)
            (from_row-some player kept.0 p (kept.2)
              (ap (λ c. decrypt_session k c) kept.3 ∙ readable)))

    -- Where the database took the save, a request with no token of the round resolves to the saved
    -- session, whatever the client sends and the server had kept before.
    pub load_session-save_session :
        (token expected : Option Bytes) (saved : SessionTable) (ciphertext : Bytes)
        → save_session k game_of true iv player p slot meta table ≡ ok (saved, ciphertext)
        → client_session k game_of player token expected ≡ none
        → load_session k game_of true player token expected saved ≡ ok (some p)
    load_session-save_session token expected saved ciphertext took other =
        elim (Result-cases (game_of player)) [
          | inl (error, bad) ↦ absurd (unfold save_session in ground arith)
          | inr (game, g) ↦ read_back token expected saved ciphertext game g took other
        ]

  -- After a deletion that the database took, only the client's token resolves.
  pub load_session-delete_session :
      (player : Bytes) (token expected : Option Bytes) (table left : SessionTable)
      → delete_session k game_of true player table ≡ ok left
      → load_session k game_of true player token expected left
        ≡ ok (client_session k game_of player token expected)
  unfolding load_session delete_session from_row
  load_session-delete_session player token expected table left h =
      elim (Result-cases (game_of player)) [
        | inl (error, bad) ↦ absurd (ground arith)
        | inr (game, g) ↦ ground (arith, row_of-delete_row table game)
      ]

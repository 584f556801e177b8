-- ===== src/Web/GameStore.antt =====
-- apps/web/src/stores/game-store.ts: the page's state and its actions. Amounts are in lamports and
-- the multiplier in basis points; the source's are floats. A `Set` is the list of its members in
-- the order of insertion.
pub mod Consistent
use playkaboom.Common.{
  ℕ, zero, suc, ◌+◌, ◌-◌, ◌*◌, ◌/◌, ◌%◌, ◌^◌, Bool, true, false, not, ◌&&◌, ◌||◌, Option, none,
  some, List, [], ◌∷◌, ◌++◌, String, leb, ◌==◌, if◌then◌else◌, length,
}
use playkaboom.Common.Int.{ℤ, pos, ◌+ℤ◌, ◌-ℤ◌}
use playkaboom.Shared.Multiplier.{grid_size}

pub data GameStatus : Type 0 where
  idle starting playing revealing cashing won lost cleaning : GameStatus

pub record ResumeSnapshot : Type 0 where
  pub bet : ℤ
  pub mine_count : ℕ
  pub revealed_mask : ℕ
  pub revealed_safe_mask : ℕ
  pub multiplier : ℕ
  pub commitment : String
  pub game_token : String

-- `stored_token` is the browser's storage under TOKEN_KEY.
pub record GameState : Type 0 where
  pub status : GameStatus
  pub bet : ℤ
  pub mine_count : ℕ
  pub revealed_tiles : List ℕ
  pub safe_tiles : List ℕ
  pub mine_tiles : List ℕ
  pub multiplier : ℕ
  pub commitment : String
  pub payout : ℤ
  pub pending_tile : Option ℕ
  pub session_pnl : ℤ
  pub session_games : ℕ
  pub error : Option String
  pub last_tx_hash : Option String
  pub game_token : Option String
  pub pending_close : Bool
  pub stored_token : Option String

unfoldable pub has : List ℕ → ℕ → Bool
has [] i = false
has (x ∷ xs) i = x == i || has xs i

-- `set.add(i)`
unfoldable pub add : List ℕ → ℕ → List ℕ
add s i = if has s i then s else s ++ i ∷ []

-- `(mask & (1 << i)) !== 0`
unfoldable pub bit_set : ℕ → ℕ → Bool
bit_set mask i = mask / 2 ^ i % 2 == 1

-- The tiles from `i` on, of `k`, that a test holds of: a loop of `hydrateResume`.
unfoldable pub tiles : ℕ → ℕ → (ℕ → Bool) → List ℕ
tiles zero i p = []
tiles (suc k) i p = let rest = tiles k (suc i) p in if p i then i ∷ rest else rest

-- `initial`, beside what the browser has stored.
abbrev pub initial : Option String → GameState
initial stored = record {
  status = idle;
  bet = pos 10000000;
  mine_count = 3;
  revealed_tiles = [];
  safe_tiles = [];
  mine_tiles = [];
  multiplier = 10000;
  commitment = "";
  payout = pos 0;
  pending_tile = none;
  session_pnl = pos 0;
  session_games = 0;
  error = none;
  last_tx_hash = none;
  game_token = none;
  pending_close = false;
  stored_token = stored;
}

-- A token that is not empty.
unfoldable pub truthy : Option String → Option String
truthy none = none
truthy (some String.[]) = none
truthy (some (String.◌∷◌ c cs)) = some (String.◌∷◌ c cs)

-- The store as the page loads: a stored token is taken up.
abbrev pub boot : Option String → GameState
boot stored = record (initial stored) { game_token = truthy stored }

pub data Action : Type 0 where
  set_bet : ℤ → Action
  set_mine_count : ℕ → Action
  set_error : Option String → Action
  set_status : GameStatus → Action
  set_pending_tile : Option ℕ → Action
  set_game_token : Option String → Action
  set_pending_close : Bool → Action
  hydrate_resume : ResumeSnapshot → Action
  begin_game : (commitment tx_hash : String) → Action
  apply_safe_reveal : (idx multiplier : ℕ) (tx_hash : String) → Action
  apply_mine_reveal : (idx : ℕ) (tx_hash : String) → Action
  apply_cash_out : ℤ → Action
  reset : Action

unfoldable pub hydrate : ResumeSnapshot → GameState → GameState
hydrate s state = record state {
  status = playing;
  bet = s.bet;
  mine_count = s.mine_count;
  revealed_tiles = tiles 16 0 (bit_set s.revealed_mask);
  safe_tiles = tiles 16 0 (bit_set s.revealed_safe_mask);
  mine_tiles = tiles 16 0 (λ i. bit_set s.revealed_mask i && not (bit_set s.revealed_safe_mask i));
  multiplier = s.multiplier;
  commitment = s.commitment;
  game_token = some s.game_token;
  stored_token = some s.game_token;
  pending_tile = none;
  payout = pos 0;
  error = none;
}

unfoldable pub step : GameState → Action → GameState
step state (set_bet bet) = record state { bet = bet }
step state (set_mine_count count) = record state { mine_count = count }
step state (set_error text) = record state { error = text }
step state (set_status status) = record state { status = status }
step state (set_pending_tile idx) = record state { pending_tile = idx }
step state (set_game_token token) = record state { game_token = token; stored_token = truthy token }
step state (set_pending_close b) = record state { pending_close = b }
step state (hydrate_resume snapshot) = hydrate snapshot state
step state (begin_game commitment tx_hash) = record state {
  status = playing;
  revealed_tiles = [];
  safe_tiles = [];
  mine_tiles = [];
  multiplier = 10000;
  commitment = commitment;
  last_tx_hash = some tx_hash;
  pending_tile = none;
  payout = pos 0;
  error = none;
}
step state (apply_safe_reveal idx multiplier tx_hash) =
    let safe = add state.safe_tiles idx in
    record state {
      safe_tiles = safe;
      revealed_tiles = add state.revealed_tiles idx;
      multiplier = multiplier;
      pending_tile = none;
      last_tx_hash = some tx_hash;
      status = if leb (grid_size - state.mine_count) (length safe) then won else playing;
    }
step state (apply_mine_reveal idx tx_hash) = record state {
  mine_tiles = add state.mine_tiles idx;
  revealed_tiles = add state.revealed_tiles idx;
  pending_tile = none;
  last_tx_hash = some tx_hash;
  status = lost;
  session_games = state.session_games + 1;
  session_pnl = state.session_pnl -ℤ state.bet;
}
step state (apply_cash_out payout) = record state {
  status = won;
  payout = payout;
  session_games = state.session_games + 1;
  session_pnl = state.session_pnl +ℤ (payout -ℤ state.bet);
}
step state reset = record (initial state.stored_token) {
  bet = state.bet;
  mine_count = state.mine_count;
  session_pnl = state.session_pnl;
  session_games = state.session_games;
  pending_close = state.pending_close;
}

unfoldable pub run_actions : GameState → List Action → GameState
run_actions state [] = state
run_actions state (a ∷ rest) = run_actions (step state a) rest

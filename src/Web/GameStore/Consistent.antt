-- ===== src/Web/GameStore/Consistent.antt =====
-- The sets of tiles after a sequence of actions.
use playkaboom.Common.{
  ℕ, zero, suc, ◌≡◌, refl, arith, Bool, true, ◌||◌, Option, List, [], ◌∷◌, ◌++◌, String, ◌==◌, All,
}
use playkaboom.Web.GameStore.{
  GameState, Action, ResumeSnapshot, has, add, bit_set, tiles, hydrate, step, run_actions, boot,
}
use Action.{
  set_bet, set_mine_count, set_error, set_status, set_pending_tile, set_game_token,
  set_pending_close, hydrate_resume, begin_game, apply_safe_reveal, apply_mine_reveal,
  apply_cash_out, reset,
}

-- A tile is revealed exactly when it is a safe tile or a mine.
abbrev pub IsConsistent : GameState → Type 0
IsConsistent s = (i : ℕ) → has s.revealed_tiles i ≡ (has s.safe_tiles i || has s.mine_tiles i)

-- A snapshot's safe tiles are among its revealed ones.
abbrev pub Fits : Action → Type 0
Fits (hydrate_resume s) =
    (i : ℕ) → bit_set s.revealed_safe_mask i ≡ true → bit_set s.revealed_mask i ≡ true
Fits _ = Unit

has-append : (s : List ℕ) (i j : ℕ) → has (s ++ i ∷ []) j ≡ (has s j || i == j)
unfolding has
has-append [] i j = ground arith
has-append (x ∷ s) i j = ground (arith, has-append s i j)

has_same : (s : List ℕ) (i j : ℕ) → (i == j) ≡ true → has s i ≡ has s j
has_same s i j e = let same : i ≡ j = ground arith in cc

has-add : (s : List ℕ) (i j : ℕ) → has (add s i) j ≡ (has s j || i == j)
unfolding add
has-add s i j = ground (arith, has-append s i j, has_same s i j)

has-tiles_or :
    (k i j : ℕ) (p q r : ℕ → Bool)
    → ((x : ℕ) → p x ≡ (q x || r x))
    → has (tiles k i p) j ≡ (has (tiles k i q) j || has (tiles k i r) j)
unfolding has tiles
has-tiles_or zero i j p q r h = refl
has-tiles_or (suc k) i j p q r h = ground (arith, h i, has-tiles_or k (suc i) j p q r h)

hydrate-IsConsistent :
    (s : ResumeSnapshot) (state : GameState)
    → Fits (hydrate_resume s)
    → IsConsistent (hydrate s state)
unfolding hydrate
hydrate-IsConsistent s state f i = has-tiles_or 16 0 i _ _ _ (λ x. ground (arith, f x))

step-IsConsistent :
    (state : GameState) (a : Action) → Fits a → IsConsistent state → IsConsistent (step state a)
unfolding step has
step-IsConsistent state (hydrate_resume s) f h = hydrate-IsConsistent s state f
step-IsConsistent state (begin_game _ _) f h = λ i. refl
step-IsConsistent state (apply_safe_reveal idx _ _) f h =
    λ i. ground (arith, h i, has-add state.safe_tiles idx i, has-add state.revealed_tiles idx i)
step-IsConsistent state (apply_mine_reveal idx _) f h =
    λ i. ground (arith, h i, has-add state.mine_tiles idx i, has-add state.revealed_tiles idx i)
step-IsConsistent state reset f h = λ i. refl
step-IsConsistent state (set_bet _) f h = h
step-IsConsistent state (set_mine_count _) f h = h
step-IsConsistent state (set_error _) f h = h
step-IsConsistent state (set_status _) f h = h
step-IsConsistent state (set_pending_tile _) f h = h
step-IsConsistent state (set_game_token _) f h = h
step-IsConsistent state (set_pending_close _) f h = h
step-IsConsistent state (apply_cash_out _) f h = h

run-IsConsistent :
    (state : GameState) (actions : List Action)
    → All Fits actions
    → IsConsistent state
    → IsConsistent (run_actions state actions)
unfolding run_actions
run-IsConsistent state [] f h = h
run-IsConsistent state (a ∷ actions) (fa, f) h =
    run-IsConsistent (step state a) actions f (step-IsConsistent state a fa h)

-- From the page's start, whatever actions follow, the revealed tiles are exactly the safe tiles and
-- the mines, where each snapshot that is resumed has its safe tiles among its revealed ones.
pub run_actions-IsConsistent :
    (stored : Option String) (actions : List Action)
    → All Fits actions
    → IsConsistent (run_actions (boot stored) actions)
unfolding has
run_actions-IsConsistent stored actions f = run-IsConsistent (boot stored) actions f (λ i. refl)

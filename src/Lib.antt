-- ===== src/Lib.antt =====
-- PlayKaboom: a mines game on Solana. A player bets, the board hides mines among 16 tiles, each
-- safe reveal raises the multiplier, and a vault that liquidity providers fund pays the winnings.
-- This library is about the TypeScript of the repository: the SDK that speaks the program's binary
-- formats, the shared game mathematics, the web application's vault, verification, sessions, house
-- passes, points, rate limiting and game state, and the realtime relay's sockets.
--
-- Parts, and how they interact
--   Shared        packages/shared/src. Shared/Multiplier is multiplier.ts: calcMultiplierBps, which
--                 the capacity check and the pages call.
--   Sdk           packages/sdk/src. Sdk/Buffer is the part of Node's Buffer that the SDK uses; a
--                 buffer is the list of its bytes, and reads and writes out of range are errors.
--                 Sdk/Web3 is @solana/web3.js and SHA-256, a record that every module takes as a
--                 parameter, with the documented laws in IsWeb3. Sdk/Discriminator and Sdk/Pdas are
--                 discriminator.ts and pdas.ts. Sdk/Reader is the Reader class of accounts.ts, vrf.ts
--                 and events.ts: a state monad over a buffer and an offset. Sdk/Accounts is
--                 accounts.ts (decodeVault, decodeVaultV2State, decodeLpPosition, decodeGameSession,
--                 decodePlayerStats, decodeReferralAccount). Sdk/Vrf is the accounts of vrf.ts.
--                 Sdk/Builders is instructions.ts and the builders of vrf.ts: Game, Vault, Lp and Vrf
--                 have the build functions, one for each function of the source. Sdk/Events is
--                 events.ts: the nineteen decoders and extractEventsFromLogs with its invoke stack.
--   Web           apps/web/src. Web/VaultMath is server/vault-math.ts, Web/Capacity is
--                 lib/vault-capacity.ts, Web/VerifyVrf is server/verify-vrf.ts (settleVrfAccounts in
--                 its Settlement, applyDiff and replayCommits in its Replay, vrfRound in its
--                 History, the verdict of verifyVrfSettle in the module itself), Web/Session is
--                 server/session.ts and session-store.ts, Web/Cron/Tick is server/cron/tick.ts (the
--                 advisory lock and the passes' cadence), Web/Cron/VrfPasses is
--                 server/cron/vrf-passes.ts, Web/Cron/LpPoints is server/cron/lp-points-pass.ts
--                 (creditLpHour in its Ledger), Web/Confirm is lib/confirm.ts, Web/Points is
--                 server/points.ts, Web/RateLimit is the local limiter of server/ratelimit.ts, and
--                 Web/GameStore is stores/game-store.ts, its actions as a step function.
--   Realtime      apps/realtime/src. Realtime/Logs is alchemy-logs.ts, the client that posts the
--                 program's signatures. The others are index.ts: Realtime/Connections is the upgrade
--                 handler with its caps, and its counts by address (Connections/PerIp).
--                 Realtime/Proxy is handleRpcProxyConnection: the connection and the accounting of
--                 its subscriptions (Proxy/State), the gate for a client's frames (Proxy/Gate), the
--                 token bucket and the buffer before the upstream opens. What the upstream's messages
--                 can end is said in Proxy/Subscriptions/Ends. Realtime/Json is the JSON
--                 values that it looks into.
--   Tests         the theorems at concrete inputs, with a small concrete Web3 (Tests/Toy).
-- The decoders read the accounts whose amounts VaultMath and Capacity compute with; Capacity and
-- VerifyVrf call calcMultiplierBps, and VerifyVrf decodes the game that it replays; the builders make
-- the instructions that the program answers with the events that Events decodes. A tick runs the
-- passes of Cron under its lock, and VrfPasses decodes the claims and games that it acts on.
--
-- How the code is modelled
--   A function of the source is a function of the same name in snake case. bigint and number
--   arguments that may be negative are integers (Common/Int), the others natural numbers; division
--   rounds towards zero. What a function throws is a value of Result (Common/Outcome). Widths are
--   written out in the byte functions. Loops are structural recursion: the loop of calcMultiplierBps
--   on its count of rounds, those of extractEventsFromLogs and replayCommits on the lines and the
--   commits. What the page, the limiter, the ledger and a socket's handlers keep is a record or a
--   list that the step takes and returns; a handler also returns what it does to its sockets.
--   What is asked of a node, a database, a clock or a socket is an argument: a list of answers for
--   the loop of confirmByPolling, one for each round, which takes 100 ms of the clock from the second
--   on, so that the timeout bounds the rounds; the record Surroundings for the proxy's handlers,
--   LockRun for a lock's connection, DbRun for a transaction and Chain for a pass. The loop over
--   events is the order in which the process's loop runs the handlers, which do not interleave.
--   Where the source has fractions of numbers, the model has whole ones: the token bucket counts
--   thousandths of a token, whose refill per millisecond is whole, the length of a slot is kept as
--   the quotient it is computed from (SlotMs), and a multiplier of points is a ratio, or not finite.
--   The specifications are independent of the code: the layouts of accounts, events and arguments
--   (Layout modules), the draws of tiles without replacement (falling), a trace of program calls and
--   the log it renders to (Events/Logs/Trace), the changes that a diff encodes (VerifyVrf/Replay), the
--   program's rule on the house's share of units.
--
-- Parameters: the record Web3 (public keys, derived addresses, SHA-256), base64 in Events/Logs,
-- JSON.parse in Realtime/Proxy and Realtime/Logs, bs58.decode and toBase58 in VerifyVrf/History,
-- toBase58 in Cron/LpPoints, and in Session the player's game address, from which new PublicKey may
-- throw, and the record Codec (AES-256-GCM, base64url and JSON), with its documented laws in IsCodec.
--
-- Not modelled: floats (SOL amounts are in lamports), texts made for display and logs, base58 and
-- base64, React views, route handlers, the database beyond the rows above, RPC calls, the relay's
-- broadcast and heartbeat, the other house passes and the operation scripts, which are I/O or
-- presentation around the functions above or are left for later. The Rust programs appear only
-- through the layouts and rules above.
pub mod Common
pub mod Shared
pub mod Sdk
pub mod Web
pub mod Realtime
mod Tests

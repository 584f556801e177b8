-- ===== src/Web/VerifyVrf/Replay/Round.antt =====
-- A whole round, from the state that its start wrote.
use playkaboom.Sdk.Web3.{Web3}

-- ===== src/Tests/Replay.antt =====
-- A round whose commits change two places of the state, and then one of them again.
use playkaboom.Common.{List, [], ◌∷◌, replicate}
use playkaboom.Web.VerifyVrf.Replay.Diff.{Change}
use playkaboom.Web.VerifyVrf.Replay.Commits.{Commit}

abbrev first : List Change
first = (77, 1 ∷ []) ∷ (85, 228 ∷ 58 ∷ []) ∷ []

abbrev second : List Change
second = (77, 2 ∷ []) ∷ []

abbrev commits : List Commit
commits =
    Commit.diff first (0 ∷ []) ∷ Commit.final_diff 0 (replicate 17 0) (replicate 6 0) second ∷ []

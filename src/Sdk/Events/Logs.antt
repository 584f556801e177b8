-- ===== src/Sdk/Events/Logs.antt =====
-- `extractEventsFromLogs` of events.ts: the events in the log of a transaction. A line is the list
-- of its characters' codes.
pub mod Trace
use playkaboom.Common.{
  ℕ, ◌-◌, ◌≡◌, Bool, true, false, not, ◌&&◌, ◌||◌, Option, none, some, List, [], ◌∷◌, ◌++◌, codes,
  leb, ◌==◌, if◌then◌else◌, length,
}
use playkaboom.Sdk.Buffer.{Bytes, bytes_eq}
use playkaboom.Sdk.Web3.{Web3}
use playkaboom.Sdk.Events.{KaboomEvent}
use playkaboom.Sdk.Events.Decode.{payload_events}

abbrev between : ℕ → ℕ → ℕ → Bool
between lo hi c = leb lo c && leb c hi

-- `[1-9A-HJ-NP-Za-km-z]`
unfoldable pub is_base58 : ℕ → Bool
is_base58 c =
    between b'1' b'9' c
    || between b'A' b'H' c
    || between b'J' b'N' c
    || between b'P' b'Z' c
    || between b'a' b'k' c
    || between b'm' b'z' c

-- `\d`
unfoldable pub is_digit : ℕ → Bool
is_digit c = between b'0' b'9' c

-- The longest run of characters of a class, and what follows it.
unfoldable pub span : (ℕ → Bool) → List ℕ → List ℕ × List ℕ
span p [] = ([], [])
span p (c ∷ cs) = let (run, rest) = span p cs in if p c then (c ∷ run, rest) else ([], c ∷ cs)

-- What follows a literal text.
unfoldable pub strip : List ℕ → List ℕ → Option (List ℕ)
strip [] cs = some cs
strip (x ∷ xs) [] = none
strip (x ∷ xs) (c ∷ cs) = if x == c then strip xs cs else none

-- `Program ` and 32 to 44 base58 characters, with what follows them. The run ends at a blank in
-- both patterns, so the greedy match is the only one.
unfoldable pub program_line : List ℕ → Option (List ℕ × List ℕ)
unfolding span strip
program_line line = elim (strip (codes "Program ") line) [
  | none ↦ none
  | some after ↦
      let (id, rest) = span is_base58 after in
      if leb 32 (length id) && leb (length id) 44 then some (id, rest) else none
]

-- ` invoke [`, digits and `]`, to the end of the line
unfoldable pub is_invoke_end : List ℕ → Bool
unfolding span strip
is_invoke_end rest = elim (strip (codes " invoke [") rest) [
  | none ↦ false
  | some after ↦
      let (digits, close) = span is_digit after in
      not (length digits == 0) && bytes_eq close (codes "]")
]

-- ` success` or ` failed`, whatever follows
unfoldable pub is_exit : List ℕ → Bool
unfolding strip
is_exit rest = elim (strip (codes " success") rest) [
  | some _ ↦ true
  | none ↦ elim (strip (codes " failed") rest) [ some _ ↦ true | none ↦ false ]
]

-- What a line is to the loop.
pub data LogLine : Type 0 where
  invoke : List ℕ → LogLine
  exit : LogLine
  payload : List ℕ → LogLine
  other : LogLine

unfoldable pub data_line : List ℕ → LogLine
data_line line = elim (strip (codes "Program data: ") line) [
  | some text ↦ payload text
  | none ↦ other
]

unfoldable pub classify : List ℕ → LogLine
classify line = elim (program_line line) [
  | some (id, rest) ↦
      if is_invoke_end rest then invoke id else if is_exit rest then exit else data_line line
  | none ↦ data_line line
]

-- The invoke stack, its top at the head.
abbrev pub Stack : Type 0
Stack = List (List ℕ)

-- `stack.pop()` on an empty array does nothing.
abbrev pub pop : Stack → Stack
pop [] = []
pop (id ∷ ids) = ids

abbrev pub top_is : List ℕ → Stack → Bool
top_is want [] = false
top_is want (id ∷ ids) = bytes_eq id want

-- `decode64` is `Buffer.from(text, "base64")`, which never throws on a text.
module _ (w : Web3) (decode64 : List ℕ → Bytes) (want : List ℕ) where
  open w use {PublicKey}

  -- One round of the loop: the stack and the events that the line adds.
  unfoldable pub log_step : Stack → LogLine → Stack × List (KaboomEvent PublicKey)
  log_step stack (invoke id) = (id ∷ stack, [])
  log_step stack exit = (pop stack, [])
  log_step stack (payload text) =
      (stack, if top_is want stack then payload_events w (decode64 text) else [])
  log_step stack other = (stack, [])

  -- The loop over the lines.
  unfoldable pub extract_from : Stack → List (List ℕ) → List (KaboomEvent PublicKey)
  extract_from stack [] = []
  extract_from stack (line ∷ lines) =
      let (next, events) = log_step stack (classify line) in events ++ extract_from next lines

  unfoldable pub extract_events_from_logs : List (List ℕ) → List (KaboomEvent PublicKey)
  extract_events_from_logs logs = extract_from [] logs

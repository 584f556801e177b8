-- ===== src/Sdk/Events/Logs/Trace.antt =====
-- The log that a transaction's calls leave, and what is extracted from it.
use playkaboom.Common.{
  ℕ, ◌≤◌, ◌≡◌, ◌≢◌, Option-cases, inl, inr, refl, sym, arith, Bool, true, false, Option, none, some,
  List, [], ◌∷◌, ◌++◌, codes, if◌then◌else◌, length, All, ==_refl, le→leb,
}
use mathlib.Core.List.{append_assoc, append-nil}
use playkaboom.Sdk.Buffer.{Bytes, bytes_eq}
use playkaboom.Sdk.Web3.{Web3}
use playkaboom.Sdk.Events.{KaboomEvent}
use playkaboom.Sdk.Events.Decode.{payload_events}
use playkaboom.Sdk.Events.Logs.{
  is_base58, is_digit, span, strip, program_line, is_invoke_end, is_exit, invoke, exit, payload,
  other, data_line, classify, Stack, top_is, log_step, extract_from, extract_events_from_logs,
}

-- What programs do, as far as the log shows it, in order: they emit payloads, log messages with
-- `msg!`, which stand behind `Program log: `, write other lines as they are, and call programs. A
-- call leaves its depth at its start, and at its end that it succeeded or that it failed, with a
-- message.
pub data Trace : Type 0 where
  end : Trace
  emit : Bytes → Trace → Trace
  message : List ℕ → Trace → Trace
  line : List ℕ → Trace → Trace
  call : (id depth : List ℕ) (failure : Option (List ℕ)) → Trace → Trace → Trace

-- A program's address in base58.
pub record IsAddress (id : List ℕ) : Type 0 where
  pub chars : All (λ c. is_base58 c ≡ true) id
  pub at_least : 32 ≤ length id
  pub at_most : length id ≤ 44

span-append :
    (p : ℕ → Bool) (xs rest : List ℕ) (c : ℕ)
    → All (λ x. p x ≡ true) xs
    → p c ≡ false
    → span p (xs ++ c ∷ rest) ≡ (xs, c ∷ rest)
unfolding span
span-append p [] rest c h hc = rw hc
span-append p (x ∷ xs) rest c (hx, h) hc = rw (hx, span-append p xs rest c h hc)

strip-append : (xs rest : List ℕ) → strip xs (xs ++ rest) ≡ some rest
unfolding strip
strip-append [] rest = refl
strip-append (x ∷ xs) rest = rw (==_refl x, strip-append xs rest)

program_line-address :
    (id rest : List ℕ)
    → IsAddress id
    → program_line (codes "Program " ++ (id ++ b' ' ∷ rest)) ≡ some (id, b' ' ∷ rest)
unfolding program_line is_base58
program_line-address id rest a = rw (
  span-append is_base58 id rest b' ' a.chars blank,
  le→leb 32 (length id) a.at_least,
  le→leb (length id) 44 a.at_most,
)
  where
    blank : is_base58 b' ' ≡ false
    blank = refl

abbrev pub invoke_line : List ℕ → List ℕ → List ℕ
invoke_line id depth = codes "Program " ++ (id ++ (codes " invoke [" ++ (depth ++ codes "]")))

abbrev pub exit_line : List ℕ → Option (List ℕ) → List ℕ
exit_line id none = codes "Program " ++ (id ++ codes " success")
exit_line id (some text) = codes "Program " ++ (id ++ (codes " failed" ++ text))

abbrev pub IsDepth : List ℕ → Type 0
IsDepth depth = All (λ c. is_digit c ≡ true) depth × (1 ≤ length depth)

is_invoke_end-depth :
    (depth : List ℕ)
    → IsDepth depth
    → is_invoke_end (codes " invoke [" ++ (depth ++ codes "]")) ≡ true
unfolding is_invoke_end is_digit bytes_eq
is_invoke_end-depth depth (digits, some_digit) =
    rw (span-append is_digit depth [] b']' digits close) (ground arith)
  where
    close : is_digit b']' ≡ false
    close = refl

classify-invoke_line :
    (id depth : List ℕ) → IsAddress id → IsDepth depth → classify (invoke_line id depth) ≡ invoke id
unfolding classify
classify-invoke_line id depth a d = rw (
  program_line-address id (codes "invoke [" ++ (depth ++ codes "]")) a,
  is_invoke_end-depth depth d,
  classify,
)

classify-exit_line :
    (id : List ℕ) (failure : Option (List ℕ))
    → IsAddress id
    → classify (exit_line id failure) ≡ exit
unfolding classify is_invoke_end is_exit
classify-exit_line id none a = rw (program_line-address id (codes "success") a, classify)
classify-exit_line id (some text) a =
    rw (program_line-address id (codes "failed" ++ text) a, classify)

classify-payload : (text : List ℕ) → classify (codes "Program data: " ++ text) ≡ payload text
unfolding classify is_base58 program_line data_line
classify-payload text = refl

classify-message : (text : List ℕ) → classify (codes "Program log: " ++ text) ≡ other
unfolding classify is_base58 program_line data_line
classify-message text = refl

module _ (encode64 : Bytes → List ℕ) where
  -- The lines that a trace leaves in the log.
  unfoldable pub render : Trace → List (List ℕ)
  render end = []
  render (emit b t) = (codes "Program data: " ++ encode64 b) ∷ render t
  render (message text t) = (codes "Program log: " ++ text) ∷ render t
  render (line text t) = text ∷ render t
  render (call id depth failure body t) =
      invoke_line id depth ∷ (render body ++ exit_line id failure ∷ render t)

-- The line does not begin as those that the runtime writes.
abbrev pub IsPlain : List ℕ → Type 0
IsPlain text = (rest : List ℕ) → text ≢ codes "Program " ++ rest

-- The addresses and depths of a trace are written as the runtime writes them, and no program writes
-- a line that begins as the runtime's do.
abbrev pub IsTrace : Trace → Type 0
IsTrace end = Unit
IsTrace (emit b t) = IsTrace t
IsTrace (message text t) = IsTrace t
IsTrace (line text t) = IsPlain text × IsTrace t
IsTrace (call id depth failure body t) = IsAddress id × IsDepth depth × IsTrace body × IsTrace t

module _ (w : Web3) (want : List ℕ) where
  open w use {PublicKey}

  -- The events that the program `want` emits: a payload counts where the innermost call that it is
  -- emitted in is a call of `want`.
  unfoldable pub emitted : Bool → Trace → List (KaboomEvent PublicKey)
  emitted inside end = []
  emitted inside (emit b t) = (if inside then payload_events w b else []) ++ emitted inside t
  emitted inside (message text t) = emitted inside t
  emitted inside (line text t) = emitted inside t
  emitted inside (call id depth failure body t) =
      emitted (bytes_eq id want) body ++ emitted inside t

strip_sound : (xs ys rest : List ℕ) → strip xs ys ≡ some rest → ys ≡ xs ++ rest
unfolding strip
strip_sound [] ys rest h = cc
strip_sound (x ∷ xs) [] rest h = cc
strip_sound (x ∷ xs) (y ∷ ys) rest h = ground (arith, strip_sound xs ys rest)

classify-plain : (text : List ℕ) → IsPlain text → classify text ≡ other
unfolding classify program_line data_line
classify-plain text plain = elim (Option-cases (strip (codes "Program ") text)) [
  | inr (rest, e) ↦ absurd (plain rest (strip_sound (codes "Program ") text rest e))
  | inl away ↦ elim (Option-cases (strip (codes "Program data: ") text)) [
    | inr (rest, e) ↦
        absurd (plain (codes "data: " ++ rest) (strip_sound (codes "Program data: ") text rest e))
    | inl other_line ↦ rw (classify, program_line, away, data_line, other_line) refl
  ]
]

module _ (w : Web3) (encode64 : List ℕ → List ℕ) (decode64 : List ℕ → Bytes) (want : List ℕ)
    (inverse : (b : Bytes) → decode64 (encode64 b) ≡ b) where
  open w use {PublicKey}

  extract_from-render :
      (t : Trace) (stack : Stack) (rest : List (List ℕ))
      → IsTrace t
      → extract_from w decode64 want stack (render encode64 t ++ rest)
        ≡ emitted w want (top_is want stack) t ++ extract_from w decode64 want stack rest
  unfolding extract_from log_step render emitted
  extract_from-render end stack rest h = refl
  extract_from-render (emit b t) stack rest h =
      rw (classify-payload (encode64 b), inverse b, extract_from-render t stack rest h)
        (sym (
          append_assoc (if top_is want stack then payload_events w b else [])
            (emitted w want (top_is want stack) t) (extract_from w decode64 want stack rest)))
  extract_from-render (message text t) stack rest h =
      rw (classify-message text) (extract_from-render t stack rest h)
  extract_from-render (line text t) stack rest (plain, h) =
      rw (classify-plain text plain) (extract_from-render t stack rest h)
  extract_from-render (call id depth failure body t) stack rest (a, d, hb, ht) =
      rw
        (
          classify-invoke_line id depth a d,
          append_assoc (render encode64 body) (exit_line id failure ∷ render encode64 t) rest,
          extract_from-render body (id ∷ stack) (exit_line id failure ∷ (render encode64 t ++ rest))
              hb,
          classify-exit_line id failure a,
          extract_from-render t stack rest ht,
        )
        (sym (
          append_assoc (emitted w want (bytes_eq id want) body)
            (emitted w want (top_is want stack) t) (extract_from w decode64 want stack rest)))

  -- From the log of a transaction `extractEventsFromLogs` returns exactly the events that the wanted
  -- program emits, in order: those in the payloads of which a call of that program is the innermost
  -- call, whatever the other programs emit, call or log as messages, and however calls end. It is
  -- for logs in which messages stand behind `Program log: ` and no program writes any other line
  -- that begins with `Program `, as the forged lines of the function's comment would.
  pub extract_events-render :
      (t : Trace)
      → IsTrace t
      → extract_events_from_logs w decode64 want (render encode64 t) ≡ emitted w want false t
  unfolding extract_events_from_logs
  extract_events-render t h =
      let whole = extract_from-render t [] [] h in
      let nothing : extract_from w decode64 want [] [] ≡ [] = unfold extract_from in refl in
      rw (append-nil, nothing, append-nil) at whole

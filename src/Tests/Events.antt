-- ===== src/Tests/Events.antt =====
-- An event, and a log in which two programs emit one.
use playkaboom.Common.{
  ℕ, zero, suc, All, ◌≡◌, refl, arith, true, false, none, some, List, [], ◌++◌, ok, replicate,
  codes,
}
use playkaboom.Sdk.Buffer.{Bytes}
use playkaboom.Sdk.Discriminator.{event_discriminator}
use playkaboom.Sdk.Events.{KaboomEvent, EventKind}
use playkaboom.Sdk.Events.Decode.{decode_event}
use playkaboom.Sdk.Events.Layout.{event_layout}
use playkaboom.Sdk.Events.RoundTrip.{decode_event-layout}
use playkaboom.Sdk.Events.Logs.{extract_events_from_logs, is_base58, is_digit}
use playkaboom.Sdk.Events.Logs.Trace.{
  Trace, end, emit, call, line, message, invoke_line, exit_line, render, emitted, IsAddress,
  extract_events-render,
}
use playkaboom.Tests.Toy.{Key, player_key, house_key, toy, toy-IsWeb3}

abbrev referrer : KaboomEvent Key
referrer = KaboomEvent.referrer_set player_key house_key 1000

abbrev payload : Bytes
payload = event_discriminator toy "ReferrerSet" ++ (event_layout toy referrer ++ [])

decode_event-layout_example : decode_event toy EventKind.referrer_set_kind payload ≡ ok referrer
decode_event-layout_example = decode_event-layout toy-IsWeb3 referrer [] (omega arith)

abbrev kaboom : List ℕ
kaboom = replicate 44 b'K'

abbrev other_program : List ℕ
other_program = replicate 43 b'z'

-- The program emits, calls another that emits the same, and emits again.
abbrev trace : Trace
trace =
    call kaboom (codes "1") none
      (emit payload (
        call other_program (codes "2") (some (codes ": custom program error")) (emit payload end)
          (emit payload end)))
      end

-- Lines that another program would write as they are leave the log of a call that it does not make.
abbrev forged : Trace
forged =
    call other_program (codes "1") none
      (line (invoke_line kaboom (codes "2")) (emit payload (line (exit_line kaboom none) end))) end

abbrev called : Trace
called =
    call other_program (codes "1") none (call kaboom (codes "2") none (emit payload end) end) end

forged-like_called : render (λ b. b) forged ≡ render (λ b. b) called
unfolding render
forged-like_called = refl

-- The same text in messages leaves another log.
abbrev messages : Trace
messages =
    call other_program (codes "1") none
      (message (invoke_line kaboom (codes "2"))
        (emit payload (message (exit_line kaboom none) end)))
      end

All-base58 : (n c : ℕ) → is_base58 c ≡ true → All (λ c. is_base58 c ≡ true) (replicate n c)
All-base58 zero c h = tt
All-base58 (suc n) c h = (h, All-base58 n c h)

kaboom-IsAddress : IsAddress kaboom
unfolding is_base58
kaboom-IsAddress = record {
  chars = All-base58 44 b'K' refl;
  at_least = omega arith;
  at_most = omega arith;
}

other_program-IsAddress : IsAddress other_program
unfolding is_base58
other_program-IsAddress = record {
  chars = All-base58 43 b'z' refl;
  at_least = omega arith;
  at_most = omega arith;
}

extract_events-render_example :
    extract_events_from_logs toy (λ text. text) kaboom (render (λ b. b) trace)
    ≡ emitted toy kaboom false trace
unfolding is_digit
extract_events-render_example =
    extract_events-render toy (λ b. b) (λ text. text) kaboom (λ b. refl) trace
      (
        kaboom-IsAddress,
        ((refl, tt), omega arith),
        (other_program-IsAddress, ((refl, tt), omega arith), tt, tt),
        tt,
      )

messages_ignored :
    extract_events_from_logs toy (λ text. text) kaboom (render (λ b. b) messages)
    ≡ emitted toy kaboom false messages
unfolding is_digit
messages_ignored =
    extract_events-render toy (λ b. b) (λ text. text) kaboom (λ b. refl) messages
      (other_program-IsAddress, ((refl, tt), omega arith), tt, tt)

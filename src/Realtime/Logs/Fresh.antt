-- ===== src/Realtime/Logs/Fresh.antt =====
-- No signature is posted again soon.
pub mod Remembered
use playkaboom.Common.{
  ℕ, ◌+◌, ◌≤◌, ◌<◌, ◌≡◌, refl, sym, ap, ◌∙◌, arith, true, false, ◌||◌, inl, inr, Option, none, some,
  List, [], ◌∷◌, ◌++◌, ltb, length, take, Bool-cases, length-append, take-append_length,
  take-take-suc, take-length_le, length-reverse, suc,
}
use mathlib.Core.List.{reverse, reverse-append, reverse-cons}
use playkaboom.Sdk.Buffer.{Bytes}
use playkaboom.Sdk.Buffer.Laws.{bytes_eq_refl}
use playkaboom.Realtime.Json.{Json, null, boolean, number, text, array, object}
use playkaboom.Realtime.Logs.{
  recent_sig_cache, Subscriber, Effect, open_socket, subscribe, post_signature, connect_in,
  close_socket, throws, has_sig, delete_sig, evict, remember_new, on_signature, on_notification,
  is_notification, signature_of, on_value, on_read, on_parsed, connect, on_close, Event, opened,
  message, closed, timer, stop, started, on_message, handle, run,
}
use Remembered.{Fresh, Remembers, remember_new-Remembers}

-- The signatures that effects post, the newest first, before others
unfoldable pub posts_before : List Bytes → List Effect → List Bytes
posts_before past [] = past
posts_before past (post_signature sig ∷ es) = posts_before (sig ∷ past) es
posts_before past (_ ∷ es) = posts_before past es

posts_before-append :
    (past : List Bytes) (es fs : List Effect)
    → posts_before past (es ++ fs) ≡ posts_before (posts_before past es) fs
unfolding posts_before
posts_before-append past [] fs = refl
posts_before-append past (post_signature sig ∷ es) fs = posts_before-append (sig ∷ past) es fs
posts_before-append past (open_socket ∷ es) fs = posts_before-append past es fs
posts_before-append past (subscribe ∷ es) fs = posts_before-append past es fs
posts_before-append past (connect_in d ∷ es) fs = posts_before-append past es fs
posts_before-append past (close_socket ∷ es) fs = posts_before-append past es fs
posts_before-append past (throws ∷ es) fs = posts_before-append past es fs

abbrev Step : List Bytes → Subscriber × List Effect → Type 0
Step past r = Remembers (posts_before past r.1) r.0

on_signature-Step :
    (past : List Bytes) (sig : Bytes) (l : Subscriber)
    → Remembers past l
    → Step past (on_signature sig l)
unfolding on_signature posts_before
on_signature-Step past sig l v = elim (Bool-cases (ltb (length sig) 64)) [
  | inl short ↦ rw short v
  | inr long ↦ elim (Bool-cases (has_sig l.recent sig)) [
    | inl old ↦ rw (long, old) v
    | inr new ↦ rw (long, new) (remember_new-Remembers past sig l v new)
  ]
]

on_notification-Step :
    (past : List Bytes) (value : Option Json) (l : Subscriber)
    → Remembers past l
    → Step past (on_notification value l)
unfolding on_notification posts_before
on_notification-Step past none l v = v
on_notification-Step past (some (text sig)) l v = on_signature-Step past sig l v
on_notification-Step past (some null) l v = v
on_notification-Step past (some (boolean b)) l v = v
on_notification-Step past (some (number n)) l v = v
on_notification-Step past (some (array items)) l v = v
on_notification-Step past (some (object fields)) l v = v

on_value-Step :
    (past : List Bytes) (msg : Json) (l : Subscriber)
    → Remembers past l
    → Step past (on_value msg l)
unfolding on_value posts_before
on_value-Step past msg l v = elim (Bool-cases (is_notification msg)) [
  | inl named ↦ rw named (on_notification-Step past (signature_of msg) l v)
  | inr other ↦ rw other v
]

on_parsed-Step :
    (past : List Bytes) (msg : Json) (l : Subscriber)
    → Remembers past l
    → Step past (on_parsed msg l)
unfolding on_parsed posts_before
on_parsed-Step past null l v = v
on_parsed-Step past (boolean b) l v = on_value-Step past (boolean b) l v
on_parsed-Step past (number n) l v = on_value-Step past (number n) l v
on_parsed-Step past (text t) l v = on_value-Step past (text t) l v
on_parsed-Step past (array xs) l v = on_value-Step past (array xs) l v
on_parsed-Step past (object fs) l v = on_value-Step past (object fs) l v

on_read-Step :
    (past : List Bytes) (read : Option Json) (l : Subscriber)
    → Remembers past l
    → Step past (on_read read l)
unfolding on_read posts_before
on_read-Step past none l v = v
on_read-Step past (some msg) l v = on_parsed-Step past msg l v

module _ (json_parse : Bytes → Option Json) where
  handle-Step :
      (event : Event) (past : List Bytes) (l : Subscriber)
      → Remembers past l
      → Step past (handle json_parse event l)
  unfolding handle on_message connect on_close posts_before
  handle-Step opened past l v = record {
    same = v.same;
    few = v.few;
    newest = v.newest;
    fresh = v.fresh;
  }
  handle-Step (message raw) past l v = on_read-Step past (json_parse raw) l v
  handle-Step closed past l v = elim (Bool-cases l.stopped) [
    | inl over ↦ rw over (record { same = v.same; few = v.few; newest = v.newest; fresh = v.fresh })
    | inr on ↦ rw on (record { same = v.same; few = v.few; newest = v.newest; fresh = v.fresh })
  ]
  handle-Step timer past l v = elim (Bool-cases l.stopped) [
    | inl over ↦ rw over (record { same = v.same; few = v.few; newest = v.newest; fresh = v.fresh })
    | inr on ↦ rw on (record { same = v.same; few = v.few; newest = v.newest; fresh = v.fresh })
  ]
  handle-Step stop past l v = record {
    same = v.same;
    few = v.few;
    newest = v.newest;
    fresh = v.fresh;
  }

  run-Step :
      (events : List Event) (past : List Bytes) (l : Subscriber)
      → Remembers past l
      → Step past (run json_parse events l)
  unfolding run posts_before
  run-Step [] past l v = v
  run-Step (event ∷ events) past l v =
      let r = handle json_parse event l in
      let here = handle-Step event past l v in
      rw (posts_before-append past r.1 (run json_parse events r.0).1)
        (run-Step events (posts_before past r.1) r.0 here)

  -- However often the socket reconnects and replays, each signature that is posted differs from the
  -- 256 that were posted before it, and no more than 256 are kept.
  pub run-IsFresh :
      (events : List Event)
      → Fresh (posts_before [] (run json_parse events started).1)
        × (length (run json_parse events started).0.recent ≤ recent_sig_cache)
  run-IsFresh events =
      let v =
        run-Step events [] started
          (record { same = refl; few = omega arith; newest = refl; fresh = tt }) in
      (v.fresh, rw v.same v.few)

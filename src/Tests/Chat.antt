-- ===== src/Tests/Chat.antt =====
-- A sender with messages stored out of order.
use eki.Chat.Recent.{count_if}
use eki.Chat.Limits.{evaluate_chat_rate-allowed_iff, is_allowed}
use eki.Chat.Defs.{
  max_messages_per_minute, minute_ms, max_messages_per_hour, hour_ms, min_gap_ms, is_within,
  cooldown, burst, ChatDocument, denied, allowed, evaluate_chat_rate, repeated, sort,
  legacy_previous, last_of, keep_last, check_rate, insert,
}
use eki.Prelude.{some, none, [], ◌∷◌, ◌≡◌, true, refl, ◌↔◌, ◌<◌}

abbrev sender : ChatDocument
sender = record {
  sent_at = some (9_000_000 ∷ 8_950_000 ∷ 5_000_000 ∷ []);
  last_sent_at = some 9_010_000;
  window_started_at = none;
  count = none;
}

too_soon : evaluate_chat_rate (some sender) 9_012_000 ≡ denied cooldown 1_000
unfolding evaluate_chat_rate check_rate sort insert keep_last last_of
too_soon = refl

in_time :
    evaluate_chat_rate (some sender) 9_020_000 ≡ allowed (8_950_000 ∷ 9_000_000 ∷ 9_010_000 ∷ [])
unfolding evaluate_chat_rate check_rate sort insert keep_last last_of
in_time = refl

old_form :
    evaluate_chat_rate
      (some (record sender { sent_at = none; window_started_at = some 9_000_000; count = some 12 }))
      9_020_000
    ≡ denied burst 40_000
unfolding evaluate_chat_rate check_rate legacy_previous repeated
old_form = refl

evaluate_chat_rate-allowed_iff_example :
    (is_allowed (evaluate_chat_rate (some sender) 9_020_000) ≡ true) ↔ (
      (count_if
          (is_within min_gap_ms 9_020_000)
          (9_000_000 ∷ 8_950_000 ∷ 5_000_000 ∷ 9_010_000 ∷ [])
        ≡ 0)
      × (count_if (is_within hour_ms 9_020_000) (9_000_000 ∷ 8_950_000 ∷ 5_000_000 ∷ 9_010_000 ∷ [])
          < max_messages_per_hour)
      × (count_if
            (is_within minute_ms 9_020_000)
            (9_000_000 ∷ 8_950_000 ∷ 5_000_000 ∷ 9_010_000 ∷ [])
          < max_messages_per_minute))
evaluate_chat_rate-allowed_iff_example =
    evaluate_chat_rate-allowed_iff sender (9_000_000 ∷ 8_950_000 ∷ 5_000_000 ∷ []) 9_020_000 refl

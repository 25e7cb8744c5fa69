-- ===== src/Chat/Limits.antt =====
-- What `evaluateChatRate` of backend/src/services/chatRateLimit.ts admits, in terms of all stored
-- times.
use eki.Chat.Defs.{
  to_list, evaluate_chat_rate, ChatDocument, max_messages_per_minute, minute_ms, hour_ms, denied,
  min_gap_ms, allowed, max_messages_per_hour, ChatRateCheck, is_within, sort, check_rate, last_of,
  keep_last,
}
use eki.Chat.Recent.{
  all_recent, tail_sorted, is_sorted-sort, length-filter, count_if-drop, count_if-le, count_if-sort,
  length-insert, is_sorted, count_if,
}
use eki.Prelude.{
  Option-cases, ◌++◌, inr, inl, zero, Bool-cases, some, filter, ◌-◌, ap, refl, ◌∙◌, false, suc,
  arith, min, [], drop, ◌∷◌, length, none, ℕ, List, Bool, ◌≡◌, ◌<◌, true, ◌↔◌,
}

abbrev pub is_allowed : ChatRateCheck → Bool
is_allowed (allowed _) = true
is_allowed (denied _ _) = false

is_sorted-drop : (k : ℕ) (ts : List ℕ) → is_sorted ts ≡ true → is_sorted (drop k ts) ≡ true
is_sorted-drop zero ts h = h
is_sorted-drop (suc k) [] h = refl
is_sorted-drop (suc k) (t ∷ us) h = is_sorted-drop k us (tail_sorted t us h)

length-sort : (ts : List ℕ) → length (sort ts) ≡ length ts
unfolding sort
length-sort [] = refl
length-sort (t ∷ ts) = length-insert t (sort ts) ∙ ap suc (length-sort ts)

-- The last time of a sorted list is recent exactly if any is.
last_lem :
    (s now y : ℕ) (ts : List ℕ)
    → is_sorted ts ≡ true
    → last_of ts ≡ some y
    → (is_within s now y ≡ false) ↔ (count_if (is_within s now) ts ≡ 0)
unfolding last_of count_if
last_lem s now y [] h e = absurd (ground arith)
last_lem s now y (t ∷ []) h e = ground arith
last_lem s now y (t ∷ u ∷ us) h e =
    let ih = last_lem s now y (u ∷ us) (ground (arith, h)) e in
    elim (Bool-cases (is_within s now t)) [
      | inl r ↦ let all = all_recent s now t (u ∷ us) h r in ground (arith, ih, all, r)
      | inr r ↦ ground (arith, ih, r)
    ]

none_lem : (ts : List ℕ) → last_of ts ≡ none → ts ≡ []
unfolding last_of
none_lem [] h = refl
none_lem (t ∷ []) h = ground arith
none_lem (t ∷ u ∷ us) h = absurd (ground (arith, none_lem (u ∷ us) h))

-- The messages of the last minute are among those of the last hour.
minute_lem :
    (now : ℕ) (ts : List ℕ)
    → count_if (is_within minute_ms now) (filter (is_within hour_ms now) ts)
      ≡ count_if (is_within minute_ms now) ts
unfolding count_if
minute_lem now [] = refl
minute_lem now (t ∷ ts) = let ih = minute_lem now ts in ground (arith, ih)

check_rate-allowed_iff :
    (previous : List ℕ) (last now : ℕ)
    → (is_allowed (check_rate previous last now) ≡ true) ↔ (
        (is_within min_gap_ms now last ≡ false)
        × (count_if (is_within hour_ms now) previous < max_messages_per_hour)
        × (count_if (is_within minute_ms now) previous < max_messages_per_minute))
unfolding check_rate
check_rate-allowed_iff previous last now =
    let hours = length-filter (is_within hour_ms now) previous in
    let minutes =
      length-filter (is_within minute_ms now) (filter (is_within hour_ms now) previous)
      ∙ minute_lem now previous in
    ground (arith, hours, minutes)

-- Of the recent times, the last sixty in order tell as much as all of them.
kept_lem :
    (s now : ℕ) (ts : List ℕ)
    → count_if (is_within s now) (keep_last max_messages_per_hour (sort ts))
      ≡ min (count_if (is_within s now) ts) max_messages_per_hour
unfolding keep_last
kept_lem s now ts =
    let n = length-sort ts in
    let count = count_if-sort (is_within s now) ts in
    let le = count_if-le (is_within s now) ts in
    let dropped =
      count_if-drop s now (length (sort ts) - max_messages_per_hour) (sort ts)
        (is_sorted-sort ts) in
    grind (arith, n, count, le, dropped)

none_kept :
    (s now : ℕ) (ts : List ℕ)
    → last_of (keep_last max_messages_per_hour (sort ts)) ≡ none
    → count_if (is_within s now) ts ≡ 0
none_kept s now ts n =
    let kept = kept_lem s now ts in
    let empty =
      ap (count_if (is_within s now)) (none_lem (keep_last max_messages_per_hour (sort ts)) n) in
    let zero_count : count_if (is_within s now) [] ≡ 0 = unfold count_if in refl in
    grind (arith, kept, empty, zero_count)

last-kept :
    (now last : ℕ) (ts : List ℕ)
    → last_of (keep_last max_messages_per_hour (sort ts)) ≡ some last
    → (is_allowed (check_rate (keep_last max_messages_per_hour (sort ts)) last now) ≡ true) ↔ (
        (count_if (is_within min_gap_ms now) ts ≡ 0)
        × (count_if (is_within hour_ms now) ts < max_messages_per_hour)
        × (count_if (is_within minute_ms now) ts < max_messages_per_minute))
last-kept now last ts e =
    let sorted : is_sorted (keep_last max_messages_per_hour (sort ts)) ≡ true =
      unfold keep_last in is_sorted-drop (length (sort ts) - 60) (sort ts) (is_sorted-sort ts) in
    let gap = last_lem min_gap_ms now last (keep_last max_messages_per_hour (sort ts)) sorted e in
    let checked = check_rate-allowed_iff (keep_last max_messages_per_hour (sort ts)) last now in
    let gaps = kept_lem min_gap_ms now ts in
    let hours = kept_lem hour_ms now ts in
    let minutes = kept_lem minute_ms now ts in grind (arith, gap, checked, gaps, hours, minutes)

-- For a document of the current form: a message is allowed exactly when, of all stored times and
-- wherever they stand, none is within 3 s, fewer than 60 are within an hour and fewer than 10 within
-- a minute, a time of the future included in each.
pub evaluate_chat_rate-allowed_iff :
    (d : ChatDocument) (sent : List ℕ) (now : ℕ)
    → d.sent_at ≡ some sent
    → (is_allowed (evaluate_chat_rate (some d) now) ≡ true) ↔ (
        (count_if (is_within min_gap_ms now) (sent ++ to_list d.last_sent_at) ≡ 0)
        × (count_if (is_within hour_ms now) (sent ++ to_list d.last_sent_at)
            < max_messages_per_hour)
        × (count_if (is_within minute_ms now) (sent ++ to_list d.last_sent_at)
            < max_messages_per_minute))
evaluate_chat_rate-allowed_iff d sent now stored =
    let ts = sent ++ to_list d.last_sent_at in
    elim (Option-cases (last_of (keep_last max_messages_per_hour (sort ts)))) [
      | inl n ↦
          let same : evaluate_chat_rate (some d) now ≡ allowed [] =
            unfold evaluate_chat_rate in ground (arith, stored, n) in
          let gaps = none_kept min_gap_ms now ts n in
          let hours = none_kept hour_ms now ts n in
          let minutes = none_kept minute_ms now ts n in
          rw (same, gaps, hours, minutes) (ground arith)
      | inr (last, e) ↦
          let same : evaluate_chat_rate (some d) now
              ≡ check_rate (keep_last max_messages_per_hour (sort ts)) last now =
            unfold evaluate_chat_rate in ground (arith, stored, e) in
          rw (same) (last-kept now last ts e)
    ]

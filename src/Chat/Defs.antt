-- ===== src/Chat/Defs.antt =====
-- `evaluateChatRate` of backend/src/services/chatRateLimit.ts. Times are whole milliseconds, and a
-- stored value that is not finite is left out before. `sort` is the language's numeric sort.
use eki.Prelude.{
  ℕ, suc, zero, List, [], ◌∷◌, ◌++◌, Option, some, none, Bool, if◌then◌else◌, ltb, leb, ◌+◌, ◌-◌,
  min, max, length, drop, filter, get_or,
}

abbrev pub max_messages_per_hour : ℕ
max_messages_per_hour = 60

abbrev pub max_messages_per_minute : ℕ
max_messages_per_minute = 10

abbrev pub min_gap_ms : ℕ
min_gap_ms = 3_000

abbrev pub hour_ms : ℕ
hour_ms = 3_600_000

abbrev pub minute_ms : ℕ
minute_ms = 60_000

pub data ChatDenial : Type 0 where
  hourly burst cooldown : ChatDenial

pub data ChatRateCheck : Type 0 where
  allowed : List ℕ → ChatRateCheck
  denied : ChatDenial → ℕ → ChatRateCheck

-- The stored document, in its current and in its legacy form.
pub record ChatDocument : Type 0 where
  pub sent_at : Option (List ℕ)
  pub last_sent_at : Option ℕ
  pub window_started_at : Option ℕ
  pub count : Option ℕ

unfoldable pub insert : ℕ → List ℕ → List ℕ
insert t [] = t ∷ []
insert t (u ∷ us) = let rest = insert t us in if leb t u then t ∷ u ∷ us else u ∷ rest

unfoldable pub sort : List ℕ → List ℕ
sort [] = []
sort (t ∷ ts) = insert t (sort ts)

-- `slice(-count)`.
unfoldable pub keep_last : ℕ → List ℕ → List ℕ
keep_last n ts = drop (length ts - n) ts

-- `ts[ts.length - 1]`, if there is one.
unfoldable pub last_of : List ℕ → Option ℕ
last_of [] = none
last_of (t ∷ []) = some t
last_of (t ∷ u ∷ us) = last_of (u ∷ us)

abbrev pub to_list : Option ℕ → List ℕ
to_list none = []
to_list (some t) = t ∷ []

unfoldable pub repeated : ℕ → ℕ → List ℕ
repeated zero t = []
repeated (suc n) t = t ∷ repeated n t

-- `now - t < span`.
abbrev pub is_within : ℕ → ℕ → ℕ → Bool
is_within span now t = ltb now (t + span)

unfoldable pub legacy_previous : ℕ → ℕ → Option ℕ → ℕ → List ℕ
legacy_previous started last count now =
    let stored : ℕ = elim count [ none ↦ 1 | some n ↦ max 1 (min max_messages_per_hour n) ] in
    if is_within hour_ms now started then repeated (stored - 1) started ++ last ∷ [] else []

-- What follows once the times and the last of them are read.
unfoldable pub check_rate : List ℕ → ℕ → ℕ → ChatRateCheck
check_rate previous last now =
    let hourly_window = filter (is_within hour_ms now) previous in
    let burst_window = filter (is_within minute_ms now) hourly_window in
    if is_within min_gap_ms now last
    then denied cooldown (min min_gap_ms (last + min_gap_ms - now))
    else if leb max_messages_per_hour (length hourly_window)
    then denied hourly (get_or hourly_window 0 0 + hour_ms - now)
    else if leb max_messages_per_minute (length burst_window)
    then denied burst (get_or burst_window 0 0 + minute_ms - now)
    else allowed hourly_window

unfoldable pub evaluate_chat_rate : Option ChatDocument → ℕ → ChatRateCheck
evaluate_chat_rate none now = allowed []
evaluate_chat_rate (some d) now = elim d.sent_at [
  | some sent ↦
      let previous = keep_last max_messages_per_hour (sort (sent ++ to_list d.last_sent_at)) in
      elim (last_of previous) [ none ↦ allowed [] | some last ↦ check_rate previous last now ]
  | none ↦ elim d.window_started_at [
    | none ↦ allowed []
    | some started ↦ elim d.last_sent_at [
      | none ↦ allowed []
      | some last ↦ check_rate (legacy_previous started last d.count now) last now
    ]
  ]
]

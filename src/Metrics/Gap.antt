-- ===== src/Metrics/Gap.antt =====
-- The samples of a gap: `GapSample` to `_ordered_gap_samples` of server/timing/metrics.py. A value
-- typed `int | None` is an optional integer, and a quotient is kept as its two parts.
use balchug_racing.Base.{
  ℕ, String, Bool, true, false, not, ◌&&◌, Option, none, some, List, [], ◌∷◌, leb, ◌==◌,
  if◌then◌else◌, is_some, str_eq,
}
use balchug_racing.Base.Int.{ℤ, pos, negsuc}

-- `_is_int(value, minimum=0)`, with the number
abbrev pub natural : Option ℤ → Option ℕ
natural none = none
natural (some (pos n)) = some n
natural (some (negsuc n)) = none

-- the number of a value that `_is_int(value, minimum=0)` accepts
abbrev pub number : Option ℤ → ℕ
number v = elim (natural v) [ none ↦ 0 | some n ↦ n ]

-- `value is b`
abbrev pub is_bool : Bool → Option Bool → Bool
is_bool b none = false
is_bool true (some c) = c
is_bool false (some c) = not c

abbrev pub is_text : String → Option String → Bool
is_text s none = false
is_text s (some r) = str_eq r s

pub record GapSample : Type 0 where
  pub target_participant_id : Option String
  pub observed_at_us : Option ℤ
  pub gap_ms : Option ℤ
  pub our_lap_number : Option ℤ
  pub target_lap_number : Option ℤ
  pub flag_kind : Option String
  pub our_state_kind : Option String
  pub target_state_kind : Option String
  pub has_feed_gap : Option Bool
  pub source_time_interval : Option Bool

abbrev pub is_target : Option String → Bool
is_target none = false
is_target (some s) = not (str_eq s "")

-- `same_lap` of `is_eligible_gap_sample`
unfoldable pub same_lap_axis : Option ℕ → Option ℕ → Option Bool → Bool
same_lap_axis (some ours) (some theirs) interval = ours == theirs
same_lap_axis (some ours) none interval = is_bool true interval
same_lap_axis none theirs interval = is_bool true interval

unfoldable pub is_eligible_gap_sample : GapSample → Bool
unfolding same_lap_axis
is_eligible_gap_sample s =
    is_target s.target_participant_id
    && is_some (natural s.observed_at_us)
    && is_some (natural s.gap_ms)
    && same_lap_axis (natural s.our_lap_number) (natural s.target_lap_number) s.source_time_interval
    && is_text "GREEN" s.flag_kind
    && is_text "ON_TRACK" s.our_state_kind
    && is_text "ON_TRACK" s.target_state_kind
    && is_bool false s.has_feed_gap

pub data Direction : Type 0 where
  closing losing_ground pulling_away being_caught stable : Direction

abbrev pub by_sign : ℤ → Direction → Direction → Direction
by_sign (pos n) up down = if n == 0 then stable else up
by_sign (negsuc _) up down = down

unfoldable pub gap_direction : String → ℤ → Direction
gap_direction relation change =
    if str_eq relation "AHEAD"
    then by_sign change losing_ground closing
    else by_sign change pulling_away being_caught

-- The sort key, without the index: a sample without a time comes last.
abbrev pub key_leb : Option ℕ → Option ℕ → Bool
key_leb none none = true
key_leb none (some b) = false
key_leb (some a) none = true
key_leb (some a) (some b) = leb a b

abbrev pub sample_leb : GapSample → GapSample → Bool
sample_leb a b = key_leb (natural a.observed_at_us) (natural b.observed_at_us)

-- the new sample stands before the later ones of its key, as its index is smaller
unfoldable pub insert_sample : GapSample → List GapSample → List GapSample
insert_sample s [] = s ∷ []
insert_sample s (r ∷ rs) = if sample_leb s r then s ∷ r ∷ rs else r ∷ insert_sample s rs

unfoldable pub ordered_gap_samples : List GapSample → List GapSample
unfolding insert_sample
ordered_gap_samples [] = []
ordered_gap_samples (s ∷ ss) = insert_sample s (ordered_gap_samples ss)

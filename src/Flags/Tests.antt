-- ===== src/Flags/Tests.antt =====
-- Flags and states as the provider writes them (server/timing/normalization.py).
use balchug_racing.Base.{◌≡◌, refl, some}
use balchug_racing.Base.Int.{pos, negsuc}
use balchug_racing.Wire.Json.{string}
use balchug_racing.Canonical.Duration.{parse_ts_time}
use balchug_racing.Grid.Text.{Texts}
use balchug_racing.Flags.Values.{
  green, not_started, canonical_flag, signed, parse_result_state, on_track, finished,
}

abbrev texts : Texts
texts = record { casefold = λ s. s; represent = λ _. "?" }

by_label :
    canonical_flag texts (string " green flag")
    ≡ some (record {
      raw = string " green flag";
      kind = green;
      provider_code = some (pos 6);
      provider_label = some "green flag";
    })
unfolding canonical_flag signed
by_label = refl

by_digits :
    canonical_flag texts (string "-1")
    ≡ some (record {
      raw = string "-1";
      kind = not_started;
      provider_code = some (negsuc 0);
      provider_label = some "Not started";
    })
unfolding canonical_flag signed
by_digits = refl

running : (parse_result_state texts (string "E 120")).kind ≡ on_track
unfolding parse_result_state parse_ts_time
running = refl

over : (parse_result_state texts (string "Sfinshd")).kind ≡ finished
unfolding parse_result_state parse_ts_time
over = refl

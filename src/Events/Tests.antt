-- ===== src/Events/Tests.antt =====
-- Two events of one frame, written and replayed (server/timing/stream_events.py).
use mathlib.Core.Path.{refl, ◌≡◌}
use balchug_racing.Base.{String, Option, none, some, List, [], ◌∷◌}
use balchug_racing.Base.Int.{pos}
use balchug_racing.Events.Append.{Candidate, Origin, Stream, returns, append_stream_events}
use balchug_racing.Events.Outbox.{left, append_stream_events-again}

-- a payload is its own JSON text here
abbrev as_text : String → Option String
as_text s = some s

abbrev frame : Origin
frame = record {
  analysis_session_id = "session";
  source_heat_id = pos 1;
  source_frame_id = pos 7;
  source_message_id = none;
  source_key = "feed";
  observed_at_us = pos 5;
}

abbrev two_events : List (Candidate String)
two_events =
    record { event_type = "lap"; event_key = "7:lap"; payload = "{}" }
    ∷ record { event_type = "pit"; event_key = "7:pit"; payload = "{}" }
    ∷ []

abbrev empty_stream : Stream
empty_stream = record { rows = []; last_id = 0 }

abbrev written : Stream
unfolding append_stream_events
written = left (append_stream_events as_text frame two_events empty_stream)

two_written : append_stream_events as_text frame two_events empty_stream ≡ returns 2 written
unfolding append_stream_events written
two_written = refl

append_stream_events-again_example :
    append_stream_events as_text frame two_events written ≡ returns 0 written
append_stream_events-again_example =
    append_stream_events-again as_text frame two_events empty_stream written 2 two_written

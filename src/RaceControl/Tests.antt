-- ===== src/RaceControl/Tests.antt =====
-- A board with a snapshot, a removal and a message that comes back (server/timing/screen_messages.py and
-- server/timing/race_control_store.py).
use mathlib.Core.Path.{refl, ◌≡◌}
use balchug_racing.Base.{String, true, Option, none, some, List, [], ◌∷◌}
use balchug_racing.Base.Int.{pos}
use balchug_racing.Wire.Json.{Json, integer, string, array, object, item, end, field, nil}
use balchug_racing.RaceControl.Board.{unknown, RaceControlSource, Board}
use balchug_racing.RaceControl.Project.{
  RaceControlProjectionResult, Projected, returns, raises, project_screen_message,
}
use balchug_racing.RaceControl.Rows.{stored}
use balchug_racing.RaceControl.Replay.{project_screen_message-again}
use balchug_racing.RaceControl.Wellformed.{
  IsWellFormed, board_of, project_screen_message-IsWellFormed,
}

abbrev dumps : Json → Option String
dumps j = some "{}"

abbrev frame_at : String → RaceControlSource
frame_at key = record {
  source_heat_id = pos 1;
  source_frame_id = pos 1;
  source_message_id = pos 1;
  source_message_ordinal = pos 0;
  source_key = key;
  observed_at_us = pos 5;
}

abbrev empty_board : Board
empty_board = record { observations = []; messages = [] }

-- two messages, of which the second is malformed
abbrev two_messages : List Json
two_messages =
    array (
      item (object (field "Id" (string "a") (field "t" (string "RED") nil)))
        (item (object (field "Id" (string "b") (field "l" (string "x") nil))) end))
    ∷ []

abbrev after_snapshot : Board
unfolding project_screen_message
after_snapshot =
    board_of (project_screen_message dumps (frame_at "1") "m_i" two_messages empty_board)

abbrev snapshot_answer : RaceControlProjectionResult
unfolding project_screen_message
snapshot_answer =
    answer_of (project_screen_message dumps (frame_at "1") "m_i" two_messages empty_board)
  where
    answer_of : Projected → RaceControlProjectionResult
    answer_of (returns r b) = r
    answer_of (raises b) = record {
      action = unknown;
      observations_written = 0;
      current_messages_affected = 0;
    }

snapshot_returns :
    project_screen_message dumps (frame_at "1") "m_i" two_messages empty_board
    ≡ returns snapshot_answer after_snapshot
unfolding project_screen_message after_snapshot snapshot_answer
snapshot_returns = refl

project_screen_message-again_example :
    project_screen_message dumps (frame_at "1") "m_i" two_messages after_snapshot
    ≡ returns
        (record {
          action = snapshot_answer.action;
          observations_written = 0;
          current_messages_affected = 0;
        })
        after_snapshot
project_screen_message-again_example =
    project_screen_message-again dumps (frame_at "1") "m_i" two_messages empty_board after_snapshot
      snapshot_answer snapshot_returns

project_screen_message-IsWellFormed_example :
    IsWellFormed
      (board_of (project_screen_message dumps (frame_at "1") "m_i" two_messages empty_board))
project_screen_message-IsWellFormed_example =
    project_screen_message-IsWellFormed dumps (frame_at "1") "m_i" two_messages empty_board
      (record { marked = tt; keyed = tt })

-- A removed message that comes back without a text has its old text again.
abbrev after_return : Board
unfolding project_screen_message
after_return = board_of (
    project_screen_message dumps (frame_at "3") "m_c" (object (field "Id" (string "a") nil) ∷ []) (
      board_of
        (project_screen_message dumps (frame_at "2") "m_d" (string "a" ∷ []) after_snapshot)))

old_text :
    stored (pos 1) after_return "a"
    ≡ some (
      true,
      record {
        text = some "RED";
        line = none;
        modality = none;
        background_color = none;
        font_color = none;
      },
    )
unfolding after_return project_screen_message after_snapshot
old_text = refl

-- A line that is too large for 64 bits is refused by the driver, and the board stays.
too_long :
    project_screen_message dumps
      (frame_at "2")
      "m_c"
      (object (field "Id" (string "a") (field "l" (integer (pos 9223372036854775808)) nil)) ∷ [])
      empty_board
    ≡ raises empty_board
unfolding project_screen_message
too_long = refl

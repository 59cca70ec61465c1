-- ===== src/Lib.antt =====
-- The timing service of a race team's site (server/timing): it records a race from a live feed,
-- rebuilds the laps of every car, and derives tactical metrics. Nine of its parts are modelled.
--
-- The session lifecycle (server/timing/lifecycle.py, in Lifecycle/): an analysis session is drafted,
-- started, stopped or aborted, each within one transaction of the database.
-- - Lifecycle.State: the rows of the tables and the values of the API (AnalysisSession, TimingSource,
--   MutationResult). A JSON document is kept as the value it encodes, and a digest as the text it is
--   taken of. The clock, the new ids and the digest are arguments.
-- - Lifecycle.Transaction: `_write_transaction`. An action changes the connection's tables and ends
--   with a value or an error; the transaction commits or rolls back. A commit that fails is left out.
-- - Lifecycle.Validation: the checks of arguments (`_validate_*`).
-- - Lifecycle.Store: the statements (`_seed_catalog`, `_get_session_row`, `_idempotency_replay`,
--   `_store_idempotency`, `_write_audit`), with the unique index on active sessions.
-- - Lifecycle.Operations: `create_session`, `_transition_session` and its three callers.
-- - Lifecycle.Listing: `list_active_sessions`, in which an insertion sort stands for the `ORDER BY`, and
--   `ensure_source_catalog`.
-- - Proofs: Consistency (the invariant of the tables), Updates, Verbs, Preservation, Atomicity, Replay,
--   Outcomes, Arguments.
--
-- The canonical laps (server/timing/canonical_laps.py, in Canonical/), over the tables of
-- server/timing/migrations/0018_canonical_lap_chronology.sql:
-- - Canonical.State: the rows. A table lists its rows newest first, and an id that the code derives
--   from a name is that name. The foreign keys and the columns for the times of writing are left out.
-- - Canonical.Duration: `parse_ts_time` (server/timing/normalization.py) and `_duration_us`. The digits
--   are ASCII, as the code demands; a text is a string of Unicode scalar values.
-- - Canonical.Boundary: `_track_length_mm` to `_initial_boundary`.
-- - Canonical.Passing: `_passing_role`, `_lap_passings`, `_write_sector_rows`.
-- - Canonical.Record: `record_tracker_passing`, with the constraints of the tables it inserts into.
-- - Canonical.LastCell: `match_last_cell`, `linked_lap_for_last_cell`, `attach_last_cell`.
-- - Proofs: Chronology (the invariant), Keeps, Laps, Keeping, Once, CellRows,
--   Linked.
-- Times are whole microseconds and not negative. `rebuild_canonical_heat`, which calls the operations
-- above over stored rows, and `_source_sectors_for_last` are not modelled.
--
-- The metrics (server/timing/metrics.py, in Metrics/), pure functions over observations:
-- - Metrics.Gap and Metrics.Trend: `GapSample` to `calculate_gap_lap_trend`. The code divides in
--   floating point at the very end; the model keeps numerator and denominator, so no rounding is
--   modelled (`covered_us`, `closure_ms`, `lap_delta`).
-- - Metrics.Pits: `is_clean_lap`, `completed_pit_stops`. Metrics.Stints: `derive_tire_ledger`.
-- - Proofs: Coverage, Given, LapCoverage, Stops, Stored, Completed,
--   Reported, Ledger.
-- A field annotated `int | None` holds an integer or nothing. The pace values, the catch range and
-- the pit obligations, which are floats throughout, are not modelled.
--
-- The event outbox (server/timing/stream_events.py, in Events/): `append_stream_events` writes the events
-- of a frame into the table `stream_events` (server/timing/migrations/0001_initial.sql and the unique
-- index of 0005) once each, in Events.Append; the proofs are in Events.Outbox. `json.dumps` is a
-- parameter, of which nothing is assumed. The foreign keys and the time of writing are left out.
--
-- Race control (server/timing/screen_messages.py and server/timing/race_control_store.py, in RaceControl/):
-- the messages of race control, and the board that shows them, over the tables of
-- server/timing/migrations/0015_race_control_messages.sql.
-- - Wire.Json: the values that the feed carries. A float is its text.
-- - RaceControl.Messages: the parser, `parse_screen_message_update` and its helpers. `changed_fields` is
--   a list; the text of an error that names an item of a snapshot is kept as its number and the rest.
-- - RaceControl.Board: the rows and the statements (`_insert_observation`, `_upsert_current`,
--   `_mark_removed`, `_reconcile_snapshot_absences`). The foreign keys, the times of writing and
--   `provider_occurred_at_us`, which is always NULL, are left out.
-- - RaceControl.Fits: the integers of more than 64 bits that the driver of SQLite refuses.
-- - RaceControl.Project: `project_screen_message` and `_validate_source`.
-- - Proofs: Rows and Ledger (the statements), Shape (what the parser makes), Collection (what an update
--   means for the messages that are stored), Visible (and for those that are shown), Refines, Patches,
--   Single, Replay, Wellformed.
-- `json.dumps` is a parameter, of which nothing is assumed. The arguments of a message are a list, as
-- the decoder of the feed makes them.
--
-- The result grid (server/timing/result_grid.py, in Grid/): the sparse grid of the live results, which the
-- feed sends as a snapshot and changes of cells under a layout that can change.
-- - Grid.Text and Grid.Columns: `_header_token` to `result_columns` of server/timing/normalization.py.
--   `str.casefold` and the text of a float, a list or a dict are parameters (`Texts`), of which nothing
--   is assumed.
-- - Grid.Reducer and Grid.Identity: `ResultGrid` with every message (`set_layout`, `apply_layout_update`,
--   `apply_snapshot`, `apply_changes`, `remove_rows`) and its reads. A dict lists its items in the order of
--   insertion. Values are immutable, so copies are left out; the missing layout is `null`.
-- - Grid.Checkpoint: `all_rows`, `snapshot`, `restore_snapshot` and their helpers. An error is `none`.
--   A number is printed on fuel, one more than the number, which bounds the count of its digits.
-- - Proofs: Rows, Wellformed, Restored (the invariant), Numbers, Conflicts, Agreement, Roundtrip, Merging,
--   Positions, Moved.
--
-- The clock of a connection (`ConnectionClockCalibrator` of server/timing/normalization.py, in Clock/):
-- Clock.Calibrator has its observations, its offset and its checkpoint; the proofs are in Window and
-- Median. What `received_at_to_unix_us` returned, which rests on `datetime`, is an argument.
--
-- The flags of the track and the states of a car (`canonical_flag` and `parse_result_state` of
-- server/timing/normalization.py, in Flags/): Flags.Values; the proof is in Flags.Known.
--
-- The frames of the feed (server/timing/protocol.py, in Feed/): Feed.Protocol is the decoder,
-- `decode_envelope` and its helpers; the proof is in Feed.Sent. `json.loads` and `LZString` are
-- parameters (`Codec`). The bootstrap page and the websocket client are not modelled.
--
-- How the parts meet: the decoder makes the messages that the grid, the clock and race control take; the
-- normalizer records passings and attaches cells, which the canonical laps turn
-- into laps; the metric engine feeds those to the metrics; both write events to the outbox.
--
-- All other loops are recursions on lists, without fuel. The rest of the service is not modelled: the
-- worker, the normalizer that writes the observations, the metric engine and its
-- store, the read API, the SSE stream, retention, and the tools for backup and replay. The site's
-- other jobs and its web pages are not modelled either.
pub mod Base
pub mod Lifecycle
pub mod Canonical
pub mod Metrics
pub mod Events
pub mod Wire
pub mod Clock
pub mod Feed
pub mod Flags
pub mod Grid
pub mod RaceControl

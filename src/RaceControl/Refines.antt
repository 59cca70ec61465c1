-- ===== src/RaceControl/Refines.antt =====
-- About the messages of the board, which also remembers those that are hidden: each projection of
-- `project_screen_message` of server/timing/race_control_store.py as a change of what is stored.
use balchug_racing.Base.{ℕ, ◌≡◌, refl, String, true, false, ◌&&◌, List, [], ◌∷◌, arith, any, str_eq}
use balchug_racing.Wire.Json.{Json}
use balchug_racing.RaceControl.Messages.{ScreenMessageUpdate}
use balchug_racing.RaceControl.Board.{
  RaceControlSource, Observation, Board, is_observation, Which, all_messages, one_message,
  no_message, same_int,
}
use balchug_racing.RaceControl.Visible.{is_visible, collection_after}
use balchug_racing.RaceControl.Project.{RaceControlProjectionResult, Projected, returns}
use balchug_racing.RaceControl.Rows.{Memory, stored}
use balchug_racing.RaceControl.Rows.{hide_all}
use balchug_racing.RaceControl.Collection.{step}

-- no observation of the invocation is stored
abbrev pub IsNew : RaceControlSource → Board → Type 0
IsNew source b =
    any
      (λ o.
        same_int o.source.source_heat_id source.source_heat_id
        && str_eq o.source.source_key source.source_key)
      b.observations
    ≡ false

pub IsNew-absent :
    (source : RaceControlSource) (os : List Observation) (n : ℕ)
    → any
        (λ o.
          same_int o.source.source_heat_id source.source_heat_id
          && str_eq o.source.source_key source.source_key)
        os
      ≡ false
    → any (is_observation source.source_heat_id source.source_key n) os ≡ false
IsNew-absent source [] n h = refl
IsNew-absent source (o ∷ os) n h = ground (arith, h, IsNew-absent source os n)

-- a call that returns, and what the board then holds
abbrev pub Holds : RaceControlSource → Projected → Memory → Type 0
Holds source o mem =
    (r : RaceControlProjectionResult) × (b : Board) × (o ≡ returns r b)
    × (stored source.source_heat_id b ≡ mem)

module _ (source : RaceControlSource) (handle payload : String) (b : Board)
    (fresh : IsNew source b) where
  -- what a removal means for what is remembered
  hidden : Which → Memory → Memory
  hidden all_messages mem = hide_all (λ _. true) mem
  hidden (one_message k) mem = hide_all (λ j. str_eq j k) mem
  hidden no_message mem = mem

-- a call that returns, and leaves this heat as the update changes it: what is stored, and what is shown
abbrev pub IsProjected : RaceControlSource → Projected → ScreenMessageUpdate → Board → Type 0
IsProjected source o u before =
    (r : RaceControlProjectionResult) × (b : Board) × (o ≡ returns r b)
    × (stored source.source_heat_id b ≡ step u (stored source.source_heat_id before))
    × ((k : String)
        → is_visible (stored source.source_heat_id b) k
          ≡ collection_after u.operation u (is_visible (stored source.source_heat_id before)) k)

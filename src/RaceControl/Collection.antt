-- ===== src/RaceControl/Collection.antt =====
-- About what an update means for the messages that a board remembers, and the patches of a snapshot
-- (server/timing/race_control_store.py).
use balchug_racing.Base.{
  ℕ, suc, ◌+◌, ◌<◌, ◌≡◌, refl, ap, ◌∙◌, String, Bool, true, false, not, ◌||◌, Option, none, some,
  List, [], ◌∷◌, arith, ◌==◌, any, length, str_eq,
}
use balchug_racing.RaceControl.Messages.{
  ScreenMessagePatch, ScreenMessageUpdate, Operation, snapshot, reset, invalid,
}
use balchug_racing.RaceControl.Board.{
  Action, initial_snapshot, RaceControlSource, Board, Inserted, is_observation, insert_observation,
}
use balchug_racing.RaceControl.Project.{
  Progress, apply_inserted, project_patch, project_patches, ids_of,
}
use balchug_racing.RaceControl.Rows.{Memory, stored}
use mathlib.Core.Path.{fun_ext}
use balchug_racing.RaceControl.Rows.{upsert_at, hide_all, stored-upsert_current}
use balchug_racing.RaceControl.Ledger.{
  is_present, insert_observation-new, apply_inserted-observations,
}

-- What each message means for the messages that are remembered, shown or hidden, in the order of the
-- provider's client: a patch creates or changes and shows a message, a complete snapshot hides the messages
-- that it does not list. The content of a hidden message is kept, and a later patch changes it.
abbrev pub upsert_all : List ScreenMessagePatch → Memory → Memory
upsert_all [] mem = mem
upsert_all (p ∷ ps) mem = upsert_all ps (upsert_at p mem)

abbrev pub hide_one : Option String → Memory → Memory
hide_one none mem = mem
hide_one (some id) mem = hide_all (λ k. str_eq k id) mem

abbrev pub hide_absent : Bool → List ScreenMessagePatch → Memory → Memory
hide_absent false ps mem = mem
hide_absent true ps mem = hide_all (λ k. not (any (str_eq k) (ids_of ps))) mem

abbrev pub step_of : Operation → ScreenMessageUpdate → Memory → Memory
step_of snapshot u mem = hide_absent u.snapshot_complete u.patches (upsert_all u.patches mem)
step_of Operation.upsert u mem = upsert_all u.patches mem
step_of Operation.delete u mem = hide_one u.provider_message_id mem
step_of reset u mem = hide_all (λ _. true) mem
step_of Operation.unknown u mem = mem
step_of invalid u mem = mem

abbrev pub step : ScreenMessageUpdate → Memory → Memory
step u = step_of u.operation u

-- the source numbers of the patches fall, below the bound
abbrev pub Falls : ℕ → List ScreenMessagePatch → Type 0
Falls n [] = Unit
Falls n (p ∷ ps) = (p.source_ordinal < n) × Falls p.source_ordinal ps

-- no observation of the invocation is stored below the bound
abbrev pub FreshBelow : RaceControlSource → ℕ → Board → Type 0
FreshBelow source n b = (i : ℕ) → i < n → is_present source b i ≡ false

module _ (source : RaceControlSource) where
  abbrev pub held : Board → Memory
  held b = stored source.source_heat_id b

  pub held-messages : (b b' : Board) → b'.messages ≡ b.messages → held b' ≡ held b
  held-messages b b' e = fun_ext λ k. rw e refl

  -- a patch that is new
  pub apply_inserted-held :
      (action : Action) (p : ScreenMessagePatch) (i : Inserted) (b : Board)
      → i.inserted ≡ true
      → i.board.messages ≡ b.messages
      → held (apply_inserted source action p i) ≡ upsert_at p (held b)
  unfolding apply_inserted
  apply_inserted-held action p i b now same = rw now (
      fun_ext (λ k. stored-upsert_current source action p i.id i.board k)
      ∙ ap (upsert_at p) (held-messages b i.board same))

  module _ (handle payload : String) where
    project_patch-held :
        (p : ScreenMessagePatch) (g : Progress)
        → is_present source g.board p.source_ordinal ≡ false
        → (held (project_patch source handle payload p g).board ≡ upsert_at p (held g.board))
          × ((project_patch source handle payload p g).written ≡ suc g.written)
          × ((i : ℕ)
              → is_present source (project_patch source handle payload p g).board i
                ≡ (p.source_ordinal == i || is_present source g.board i))
    unfolding project_patch
    project_patch-held p g new =
        let i =
          insert_observation source handle initial_snapshot p.source_ordinal payload (some p) none
            g.board in
        let (now, same, grown) =
          insert_observation-new source handle initial_snapshot p.source_ordinal payload (some p)
            none g.board new in
        (
          apply_inserted-held initial_snapshot p i g.board now same,
          rw now (omega arith),
          λ n.
              ap (λ os. any (is_observation source.source_heat_id source.source_key n) os)
                (apply_inserted-observations source initial_snapshot p i)
              ∙ grown n,
        )

    -- the loop over new patches
    pub project_patches-held :
        (n : ℕ) (ps : List ScreenMessagePatch) (g : Progress)
        → Falls n ps
        → FreshBelow source n g.board
        → (held (project_patches source handle payload ps g).board ≡ upsert_all ps (held g.board))
          × ((project_patches source handle payload ps g).written ≡ length ps + g.written)
    unfolding project_patches
    project_patches-held n [] g falls fresh = (refl, omega arith)
    project_patches-held n (p ∷ ps) g falls fresh =
        let (at, counted, grown) = project_patch-held p g (fresh p.source_ordinal falls.0) in
        let below : FreshBelow source p.source_ordinal
            (project_patch source handle payload p g).board =
          λ i small. grown i ∙ (ground (arith, small, fresh i (omega (arith, small, falls.0)))) in
        let (rest, written) =
          project_patches-held p.source_ordinal ps (project_patch source handle payload p g) falls.1
            below in
        (rest ∙ ap (upsert_all ps) at, omega (arith, written, counted))

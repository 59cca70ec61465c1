-- ===== src/RaceControl/Patches.antt =====
-- About the patches of a snapshot that are projected again (`project_screen_message` of
-- server/timing/race_control_store.py).
use balchug_racing.Base.{
  ℕ, ◌+◌, ◌≡◌, refl, ap, ◌∙◌, String, true, none, some, List, [], ◌∷◌, arith, All,
}
use balchug_racing.RaceControl.Messages.{ScreenMessagePatch}
use balchug_racing.RaceControl.Board.{
  initial_snapshot, RaceControlSource, Board, insert_observation,
}
use balchug_racing.RaceControl.Project.{Progress, apply_inserted, project_patch, project_patches}
use balchug_racing.RaceControl.Ledger.{
  is_present, insert_observation-old, insert_observation-present, insert_observation-grows,
  apply_inserted-observations,
}

pub progress_eta :
    (g : Progress) (written affected : ℕ)
    → written ≡ g.written
    → affected ≡ g.affected
    → record { written = written; affected = affected; board = g.board } ≡ g
progress_eta g written affected hw ha = rw (hw, ha) refl

module _ (source : RaceControlSource) where
  -- presence depends on the observations alone
  pub same_presence :
      (b b' : Board) (n : ℕ)
      → b'.observations ≡ b.observations
      → is_present source b n ≡ true
      → is_present source b' n ≡ true
  same_presence b b' n e h = rw e h

  module _ (handle payload : String) where
    pub project_patch-present :
        (p : ScreenMessagePatch) (g : Progress)
        → is_present source (project_patch source handle payload p g).board p.source_ordinal ≡ true
    unfolding project_patch
    project_patch-present p g =
        let i =
          insert_observation source handle initial_snapshot p.source_ordinal payload (some p) none
            g.board in
        same_presence i.board (apply_inserted source initial_snapshot p i) p.source_ordinal
          (apply_inserted-observations source initial_snapshot p i)
          (insert_observation-present source handle initial_snapshot p.source_ordinal payload
            (some p) none g.board)

    pub project_patch-grows :
        (p : ScreenMessagePatch) (g : Progress) (n : ℕ)
        → is_present source g.board n ≡ true
        → is_present source (project_patch source handle payload p g).board n ≡ true
    unfolding project_patch
    project_patch-grows p g n h =
        let i =
          insert_observation source handle initial_snapshot p.source_ordinal payload (some p) none
            g.board in
        same_presence i.board (apply_inserted source initial_snapshot p i) n
          (apply_inserted-observations source initial_snapshot p i)
          (insert_observation-grows source handle initial_snapshot p.source_ordinal payload (some p)
            none g.board n h)

    pub project_patches-grows :
        (ps : List ScreenMessagePatch) (g : Progress) (n : ℕ)
        → is_present source g.board n ≡ true
        → is_present source (project_patches source handle payload ps g).board n ≡ true
    unfolding project_patches
    project_patches-grows [] g n h = h
    project_patches-grows (p ∷ ps) g n h =
        project_patches-grows ps (project_patch source handle payload p g) n
          (project_patch-grows p g n h)

    -- after the loop each of its patches has its observation
    pub project_patches-present :
        (ps : List ScreenMessagePatch) (g : Progress)
        → All
            (λ p.
              is_present source (project_patches source handle payload ps g).board p.source_ordinal
              ≡ true)
            ps
    unfolding project_patches
    project_patches-present [] g = tt
    project_patches-present (p ∷ ps) g = (
      project_patches-grows ps (project_patch source handle payload p g) p.source_ordinal
          (project_patch-present p g),
      project_patches-present ps (project_patch source handle payload p g),
    )

    -- a patch whose observation is there changes nothing
    pub project_patch-old :
        (p : ScreenMessagePatch) (g : Progress)
        → is_present source g.board p.source_ordinal ≡ true
        → project_patch source handle payload p g ≡ g
    unfolding project_patch apply_inserted
    project_patch-old p g h =
        let (old, same) =
          insert_observation-old source handle initial_snapshot p.source_ordinal payload (some p)
            none g.board h in
        rw (old, same) (progress_eta g (g.written + 0) (g.affected + 0) (omega arith) (omega arith))

    pub project_patches-old :
        (ps : List ScreenMessagePatch) (g : Progress)
        → All (λ p. is_present source g.board p.source_ordinal ≡ true) ps
        → project_patches source handle payload ps g ≡ g
    unfolding project_patches
    project_patches-old [] g h = refl
    project_patches-old (p ∷ ps) g h =
        ap (project_patches source handle payload ps) (project_patch-old p g h.0)
        ∙ project_patches-old ps g h.1

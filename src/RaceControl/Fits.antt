-- ===== src/RaceControl/Fits.antt =====
-- What the statements of server/timing/race_control_store.py can store: the driver of SQLite refuses an
-- integer of more than 64 bits with an `OverflowError`, before the statement is run.
use balchug_racing.Base.{
  ◌≡◌, refl, ap, Bool, true, ◌&&◌, Option, none, some, List, [], ◌∷◌, arith, ltb, if◌then◌else◌,
  all,
}
use balchug_racing.Base.Int.{ℤ, pos, negsuc}
use balchug_racing.RaceControl.Messages.{ScreenMessagePatch, line, modality}
use balchug_racing.RaceControl.Board.{RaceControlSource, changes}

-- from -2^63 to 2^63 - 1
abbrev pub fits_int : ℤ → Bool
fits_int (pos n) = ltb n 9223372036854775808
fits_int (negsuc n) = ltb n 9223372036854775808

-- the parameter is `None` for a field that the provider did not change
abbrev pub fits_field : Bool → Option ℤ → Bool
fits_field changed none = true
fits_field changed (some n) = if changed then fits_int n else true

unfoldable pub fits_patch : ScreenMessagePatch → Bool
fits_patch p =
    fits_field (changes p line) p.content.line && fits_field (changes p modality) p.content.modality

unfoldable pub fits_source : RaceControlSource → Bool
fits_source s =
    fits_int s.source_heat_id
    && fits_int s.source_frame_id
    && fits_int s.source_message_id
    && fits_int s.source_message_ordinal
    && fits_int s.observed_at_us

-- the patches that a loop projects before the first one that is refused
unfoldable pub fitting : List ScreenMessagePatch → List ScreenMessagePatch
unfolding fits_patch
fitting [] = []
fitting (p ∷ ps) = if fits_patch p then p ∷ fitting ps else []

pub fitting-all : (ps : List ScreenMessagePatch) → all fits_patch ps ≡ true → fitting ps ≡ ps
unfolding fitting
fitting-all [] h = refl
fitting-all (p ∷ ps) h =
    let first : fits_patch p ≡ true = ground (arith, h) in
    let rest : all fits_patch ps ≡ true = ground (arith, h) in
    rw first (ap (λ qs. p ∷ qs) (fitting-all ps rest))

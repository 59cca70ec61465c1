-- ===== src/Metrics/Given.antt =====
-- About the inputs for which `calculate_gap_trend` of server/timing/metrics.py gives a trend.
use mathlib.Core.List.{◌++◌}
use balchug_racing.Base.{
  ℕ, ◌+◌, ◌*◌, ◌≤◌, ◌≡◌, refl, sym, ap, ◌∙◌, inl, inr, String, Bool, true, false, not, ◌||◌, Option,
  some, List, [], ◌∷◌, arith, leb, ◌==◌, Bool-cases, find, All,
}
use balchug_racing.Base.Int.{pos}
use balchug_racing.Metrics.Gap.{number, GapSample, ordered_gap_samples}
use balchug_racing.Metrics.Trend.{
  GapTrend, newest_first, continues, suffix_before, is_relation, trend_row, trend_between, is_cut,
  trend_from, calculate_gap_trend,
}
use balchug_racing.Metrics.Coverage.{IsRun}

-- a sample that passes a test within an unbroken run is found, or a newer one that passes it
find-run :
    (latest first : GapSample) (q : GapSample → Bool) (between rest : List GapSample)
    → All (λ s. continues latest s ≡ true) between
    → continues latest first ≡ true
    → q first ≡ true
    → (x : GapSample) × (find q (suffix_before latest (between ++ (first ∷ rest))) ≡ some x)
      × (q x ≡ true)
unfolding suffix_before
find-run latest first q [] rest h c hit = (first, rw (c, hit) refl, hit)
find-run latest first q (s ∷ ss) rest h c hit = elim (Bool-cases (q s)) [
  | inl now ↦ (s, rw (h.0, now) refl, now)
  | inr later ↦
      let (x, found, passed) = find-run latest first q ss rest h.1 c hit in
      (x, rw (h.0, later) found, passed)
]

trend_between-cut :
    (relation : String) (window : ℕ) (latest x : GapSample) (found : Option GapSample)
    → 1 ≤ window
    → found ≡ some x
    → is_cut window latest x ≡ true
    → trend_between relation window latest found ≡ some (trend_row relation window latest x)
unfolding trend_between
trend_between-cut relation window latest x found some_window e cut =
    let later : leb (number latest.observed_at_us) (number x.observed_at_us) ≡ false =
      ground (arith, cut, some_window) in
    rw (e, later) refl

module _ (relation : String) (window : ℕ) (latest first : GapSample) (earlier : List GapSample)
    (some_window : 1 ≤ window) (run : IsRun earlier latest first)
    (cut : is_cut window latest first ≡ true) where
  between-given :
      (trend : GapTrend) × (trend_between relation window latest
          (find (is_cut window latest) (suffix_before latest earlier))
        ≡ some trend)
  between-given =
      let (x, found, passed) =
        find-run latest first (is_cut window latest) run.between run.rest run.unbroken run.oldest
          cut in
      let found_here : find (is_cut window latest) (suffix_before latest earlier) ≡ some x =
        ap (λ r. find (is_cut window latest) (suffix_before latest r)) run.splits ∙ found in
      (
        trend_row relation window latest x,
        trend_between-cut relation window latest x _ some_window found_here passed,
      )

append_not_nil :
    (between rest : List GapSample) (first : GapSample) → (between ++ (first ∷ rest)) ≡ [] → ⊥
append_not_nil [] rest first e = ground arith
append_not_nil (s ∷ ss) rest first e = ground arith

from-given :
    (relation : String) (window : ℕ) (latest first : GapSample) (earlier : List GapSample)
    → 1 ≤ window
    → IsRun earlier latest first
    → is_cut window latest first ≡ true
    → (trend : GapTrend) × (trend_from relation window (latest ∷ earlier) ≡ some trend)
unfolding trend_from
from-given relation window latest first [] some_window run cut =
    absurd (append_not_nil run.between run.rest first (sym run.splits))
from-given relation window latest first (s ∷ ss) some_window run cut =
    let (trend, e) = between-given relation window latest first (s ∷ ss) some_window run cut in
    (trend, rw run.newest e)

-- A trend over a window of at least one second is given whenever an unbroken run of eligible samples
-- of one target leads from the newest sample back to one that is a whole window older.
pub calculate_gap_trend-given :
    (samples : List GapSample) (relation : String) (window : ℕ) (latest first : GapSample)
    (earlier : List GapSample)
    → is_relation relation ≡ true
    → 1 ≤ window
    → newest_first (ordered_gap_samples samples) [] ≡ latest ∷ earlier
    → IsRun earlier latest first
    → number first.observed_at_us + window * 1000000 ≤ number latest.observed_at_us
    → (trend : GapTrend) × (calculate_gap_trend samples relation (pos window) ≡ some trend)
unfolding calculate_gap_trend
calculate_gap_trend-given samples relation window latest first earlier known some_window e run
      covered =
    let admitted : (not (is_relation relation) || window == 0) ≡ false =
      ground (arith, known, some_window) in
    let (trend, h) =
      from-given relation window latest first earlier some_window run (ground (arith, covered)) in
    (trend, rw (admitted, e) h)

-- ===== src/Flags/Known.antt =====
-- About the flags that a code or a label names (`canonical_flag` of server/timing/normalization.py).
use balchug_racing.Base.{
  ◌≤◌, ◌⊎◌, ◌≡◌, String, Bool, true, ◌&&◌, Option, none, some, [], ◌∷◌, is_some,
}
use balchug_racing.Base.Dict.{Dict, string_eq}
use balchug_racing.Base.Int.{ℤ, pos, negsuc}
use balchug_racing.Wire.Json.{Json}
use balchug_racing.Flags.Values.{
  FlagKind, not_started, ready, red, safety_car, code_60, finish, green, full_course_yellow,
  unknown_flag, FlagState, flag_by_code,
}

-- no code of the provider: below -1 or above 7
abbrev pub IsUnlisted : ℤ → Type 0
IsUnlisted (pos n) = 8 ≤ n
IsUnlisted (negsuc n) = 1 ≤ n

-- the codes that the provider gives for each kind of flag
abbrev pub Shows : FlagKind → ℤ → Type 0
Shows not_started c = (c ≡ negsuc 0) ⊎ (c ≡ pos 0)
Shows ready c = c ≡ pos 1
Shows red c = c ≡ pos 2
Shows safety_car c = c ≡ pos 3
Shows code_60 c = c ≡ pos 4
Shows finish c = c ≡ pos 5
Shows green c = c ≡ pos 6
Shows full_course_yellow c = c ≡ pos 7
Shows unknown_flag c = IsUnlisted c

-- a flag without a code is unknown, and any other flag is of the kind that its code shows
abbrev pub HasKind : FlagState → Type 0
HasKind f = by_code f.provider_code
  where
    by_code : Option ℤ → Type 0
    by_code none = f.kind ≡ unknown_flag
    by_code (some c) = Shows f.kind c

-- what the table of codes says of a code
FromTable : ℤ → Option (FlagKind × String) → Type 0
FromTable c none = IsUnlisted c
FromTable c (some (kind, label)) = Shows kind c

all_known : Dict String ℤ → Bool
all_known [] = true
all_known ((k, c) ∷ d) = is_some (flag_by_code c) && all_known d

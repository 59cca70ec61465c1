-- ===== src/Grid/Identity.antt =====
-- The identity of a column across layouts, `_column_identity` of server/timing/result_grid.py.
use balchug_racing.Base.{
  String, Bool, true, false, ◌&&◌, Option, none, some, ◌≡◌, refl, ◌↔◌, str_eq, str_eq_iff, arith,
}
use balchug_racing.Base.Dict.{Eq}
use balchug_racing.Grid.Columns.{ResultColumn}

pub data Identity : Type 0 where
  canonical : String → Identity
  raw : String → Option String → Identity

abbrev pub by_key : Option String → ResultColumn → Identity
by_key (some k) c = canonical k
by_key none c = raw c.source_name c.source_parameter

unfoldable pub column_identity : ResultColumn → Identity
column_identity c = by_key c.key c

abbrev pub same_option : Option String → Option String → Bool
same_option none none = true
same_option (some s) (some t) = str_eq s t
same_option _ _ = false

abbrev pub same_identity : Identity → Identity → Bool
same_identity (canonical j) (canonical k) = str_eq j k
same_identity (raw s p) (raw t q) = str_eq s t && same_option p q
same_identity _ _ = false

pub same_option_iff : (p q : Option String) → (same_option p q ≡ true) ↔ (p ≡ q)
same_option_iff none none = (λ _. refl, λ _. refl)
same_option_iff none (some t) = (λ h. cc, λ h. cc)
same_option_iff (some s) none = (λ h. cc, λ h. cc)
same_option_iff (some s) (some t) = ground (arith, str_eq_iff s t)

pub same_identity_iff : (i j : Identity) → (same_identity i j ≡ true) ↔ (i ≡ j)
same_identity_iff (canonical j) (canonical k) = ground (arith, str_eq_iff j k)
same_identity_iff (canonical j) (raw t q) = (λ h. cc, λ h. cc)
same_identity_iff (raw s p) (canonical k) = (λ h. cc, λ h. cc)
same_identity_iff (raw s p) (raw t q) = ground (arith, str_eq_iff s t, same_option_iff p q)

instance abbrev pub identity_eq : Eq Identity
identity_eq = record { beq = same_identity; beq_iff = same_identity_iff }

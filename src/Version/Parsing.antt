-- ===== src/Version/Parsing.antt =====
-- Which texts are versions.
use Prim.Native.String.{String}
use mathlib.Core.Bool.{false≢true}
use dmsfwk.Prelude.{◌≡◌, ◌↔◌, refl, ap, true, some, List, [], ◌∷◌, arith}
use dmsfwk.Version.{
  DmsVersion, pos, Library, parse_numbers, Code, err_ok, is_lower, initial, get_remote_dms_version,
  is_remote_dms_version_lower, parse_dms_version,
}
use dmsfwk.Version.Order.{Lower, compare_dms_version_lem}

-- The three parts of a text, each a number that is not below zero.
abbrev pub IsVersion : Library → List String → DmsVersion → Type 0
IsVersion lib (major ∷ minor ∷ feature ∷ []) v =
    (lib.str_to_int major ≡ some (pos v.major_version_num))
    × (lib.str_to_int minor ≡ some (pos v.minor_version_num))
    × (lib.str_to_int feature ≡ some (pos v.feature_version_num))
IsVersion lib _ v = ⊥

parse_numbers-IsVersion :
    (lib : Library) (parts : List String) (old v : DmsVersion)
    → parse_numbers lib parts old ≡ (true, v)
    → IsVersion lib parts v
unfolding parse_numbers
parse_numbers-IsVersion lib (major ∷ minor ∷ feature ∷ []) old v e = ground arith
parse_numbers-IsVersion lib [] old v e = absurd (false≢true (ap (λ r. r.0) e))
parse_numbers-IsVersion lib (a ∷ []) old v e = absurd (false≢true (ap (λ r. r.0) e))
parse_numbers-IsVersion lib (a ∷ b ∷ []) old v e = absurd (false≢true (ap (λ r. r.0) e))
parse_numbers-IsVersion lib (a ∷ b ∷ c ∷ d ∷ ds) old v e = absurd (false≢true (ap (λ r. r.0) e))

IsVersion-parse_numbers :
    (lib : Library) (parts : List String) (old v : DmsVersion)
    → IsVersion lib parts v
    → parse_numbers lib parts old ≡ (true, v)
unfolding parse_numbers
IsVersion-parse_numbers lib (major ∷ minor ∷ feature ∷ []) old v h = ground arith
IsVersion-parse_numbers lib [] old v h = absurd h
IsVersion-parse_numbers lib (a ∷ []) old v h = absurd h
IsVersion-parse_numbers lib (a ∷ b ∷ []) old v h = absurd h
IsVersion-parse_numbers lib (a ∷ b ∷ c ∷ d ∷ ds) old v h = absurd h

-- `ParseDmsVersion` succeeds with a version just where its text splits at the dots into three parts that
-- are numbers not below zero, and the version has those numbers.
pub parse_dms_version-IsVersion :
    (lib : Library) (text : String) (old v : DmsVersion)
    → (parse_dms_version lib text old ≡ (true, v)) ↔ IsVersion lib (lib.split_str text ".") v
unfolding parse_dms_version
parse_dms_version-IsVersion lib text old v = (
  parse_numbers-IsVersion lib (lib.split_str text ".") old v,
  IsVersion-parse_numbers lib (lib.split_str text ".") old v,
)

is_lower-Lower :
    (r : Code × DmsVersion) (threshold : DmsVersion)
    → is_lower r threshold ≡ true
    → (v : DmsVersion) × (r ≡ (err_ok, v)) × Lower v threshold
is_lower-Lower (err_ok, v) threshold e = (v, refl, (compare_dms_version_lem v threshold).0 e)
is_lower-Lower (_, v) threshold e = absurd (false≢true e)

-- A device is said to have a lower version only where its version was read without an error, and the
-- first number in which it differs from the threshold is the lower one.
pub is_remote_dms_version_lower-Lower :
    (lib : Library) (device : String) (threshold : DmsVersion)
    → is_remote_dms_version_lower lib device threshold ≡ true
    → (v : DmsVersion) × (get_remote_dms_version lib device initial ≡ (err_ok, v))
      × Lower v threshold
unfolding is_remote_dms_version_lower
is_remote_dms_version_lower-Lower lib device threshold e =
    is_lower-Lower (get_remote_dms_version lib device initial) threshold e

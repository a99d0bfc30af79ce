-- ===== src/Version.antt =====
-- pkg/upgrade/version.go: MongoDB versions and the upgrade path between them.
pub mod Order
pub mod Series
pub mod Ladder
pub mod Parse
mod Tests
use mup.Base.{
  ℕ, ◌≡◌, Bool, true, false, not, ◌&&◌, List, [], ◌∷◌, ◌++◌, Option, none, some, if◌then◌else◌,
}
use mup.Base.Int.{ℤ, pos, negsuc, ltb_ℤ, leb_ℤ, eqb_ℤ}
use mup.Base.Text.{Text, codes, text_eq, split, atoi, show_int}
use mup.Base.Dict.{Dict, lookup}
use mup.Base.Results.{Error, Result, ok, err, ◌>>=◌, or_error}

-- Go's `int` fields are integers. Those that `parse_version` returns fit 64 bits.
pub record MongoVersion : Type 0 where
  pub major : ℤ
  pub minor : ℤ
  pub patch : ℤ
  pub raw : Text

-- The third part is optional, and the parts after it are not read.
parse_patch : List Text → Result ℤ
parse_patch [] = ok (pos 0)
parse_patch (part ∷ _) = or_error (atoi part) (codes "invalid patch version: " ++ part)

parse_parts : Text → List Text → Result MongoVersion
unfolding parse_patch
parse_parts version (p ∷ q ∷ rest) = do
  major ← or_error (atoi p) (codes "invalid major version: " ++ p)
  minor ← or_error (atoi q) (codes "invalid minor version: " ++ q)
  patch ← parse_patch rest
  ok (record { major = major; minor = minor; patch = patch; raw = version })
parse_parts version _ =
    err (codes "invalid version format: " ++ version ++ codes " (expected major.minor.patch)")

unfoldable pub parse_version : Text → Result MongoVersion
unfolding parse_parts
parse_version version = parse_parts version (split b'.' version)

-- -1, 0 or 1.
unfoldable pub compare : MongoVersion → MongoVersion → ℤ
compare v other =
    if not (eqb_ℤ v.major other.major)
    then (if ltb_ℤ v.major other.major then negsuc 0 else pos 1)
    else if not (eqb_ℤ v.minor other.minor)
    then (if ltb_ℤ v.minor other.minor then negsuc 0 else pos 1)
    else if not (eqb_ℤ v.patch other.patch)
    then (if ltb_ℤ v.patch other.patch then negsuc 0 else pos 1)
    else pos 0

-- `String`.
unfoldable pub to_string : MongoVersion → Text
to_string v = show_int v.major ++ b'.' ∷ (show_int v.minor ++ b'.' ∷ show_int v.patch)

-- `fmt.Sprintf("%d.%d", major, minor)`.
unfoldable pub series_key : ℤ → ℤ → Text
series_key major minor = show_int major ++ b'.' ∷ show_int minor

unfoldable pub allowed_transitions : Dict Text
allowed_transitions =
    (codes "3.6", codes "4.0")
    ∷ (codes "4.0", codes "4.2")
    ∷ (codes "4.2", codes "4.4")
    ∷ (codes "4.4", codes "5.0")
    ∷ (codes "5.0", codes "6.0")
    ∷ (codes "6.0", codes "7.0")
    ∷ (codes "7.0", codes "8.0")
    ∷ []

path_text : Text
path_text = codes "3.6→4.0→4.2→4.4→5.0→6.0→7.0→8.0"

-- The lookup and the test after it. A missing key of a Go map reads as "".
check_transition : MongoVersion → MongoVersion → Option Text → Option Error
unfolding path_text
check_transition source target none = some (
    codes "cannot upgrade from "
    ++ source.raw
    ++ codes ": version "
    ++ series_key source.major source.minor
    ++ codes " is not in the supported upgrade path ("
    ++ path_text
    ++ codes ")")
check_transition source target (some expected_next) =
    if text_eq (series_key target.major target.minor) expected_next
    then none
    else some (
        codes "cannot upgrade from "
        ++ source.raw
        ++ codes " to "
        ++ target.raw
        ++ codes ": must upgrade to "
        ++ expected_next
        ++ codes " next (upgrade path: "
        ++ path_text
        ++ codes ")")

unfoldable pub validate_upgrade_path : MongoVersion → MongoVersion → Option Error
unfolding check_transition
validate_upgrade_path source target =
    if leb_ℤ (compare target source) (pos 0)
    then some (codes "cannot downgrade from " ++ source.raw ++ codes " to " ++ target.raw)
    else if eqb_ℤ source.major target.major && eqb_ℤ source.minor target.minor
    then none
    else check_transition source target
        (lookup (series_key source.major source.minor) allowed_transitions)

-- Wraps a parse error.
abbrev invalid : Text → Error → Error
invalid which e = codes "invalid " ++ which ++ codes " version: " ++ e

unfoldable pub validate_upgrade_path_strings : Text → Text → Option Error
validate_upgrade_path_strings source target = elim (parse_version source) [
  | err e ↦ some (invalid (codes "source") e)
  | ok source_ver ↦ elim (parse_version target) [
    | err e ↦ some (invalid (codes "target") e)
    | ok target_ver ↦ validate_upgrade_path source_ver target_ver
  ]
]

-- ===== src/Version/Tests.antt =====
-- Runs of the version code, and the theorems at concrete versions.
use mup.Base.{◌≡◌, refl, ◌↔◌, ◌⊎◌, none, []}
use mup.Base.Text.{codes, split, atoi, show_int, text_eq}
use mup.Base.Dict.{lookup}
use mup.Base.Int.{ℤ, pos, negsuc}
use mup.Base.Results.{ok}
use mup.Version.{
  MongoVersion, parse_version, compare, to_string, series_key, allowed_transitions,
  validate_upgrade_path, validate_upgrade_path_strings,
}
use mup.Version.Order.{Precedes, Agrees, compare_correct}
use mup.Version.Ladder.{
  Allowed, Upgrades, stay, upgrade, validate_upgrade_path-Allowed, Upgrades-Precedes,
  Upgrades-latest,
}
use mup.Version.Series.{here, there}
use mup.Version.Parse.{parse_version-to_string, parse_version-ok}

program : Unit {0}
unfolding parse_version compare to_string series_key allowed_transitions validate_upgrade_path
    validate_upgrade_path_strings split atoi show_int text_eq lookup
program = tt

abbrev version : ℤ → ℤ → ℤ → MongoVersion
version a b c = record { major = a; minor = b; patch = c; raw = [] }

abbrev v4_0 : MongoVersion
v4_0 = version (pos 4) (pos 0) (pos 9)

abbrev v4_2 : MongoVersion
v4_2 = version (pos 4) (pos 2) (pos 1)

abbrev v4_4 : MongoVersion
v4_4 = version (pos 4) (pos 4) (pos 0)

abbrev v7_0_26 : MongoVersion
v7_0_26 = record { major = pos 7; minor = pos 0; patch = pos 26; raw = codes "7.0.26" }

parse_version_runs : parse_version (codes "7.0.26") ≡ ok v7_0_26
unfolding program
parse_version_runs = refl

next_step : validate_upgrade_path_strings (codes "4.0.9") (codes "4.2.1") ≡ none
unfolding program
next_step = refl

compare_correct_example :
    ((compare v4_0 v4_2 ≡ negsuc 0) ↔ Precedes v4_0 v4_2)
    × ((compare v4_0 v4_2 ≡ pos 0) ↔ Agrees v4_0 v4_2)
    × ((compare v4_0 v4_2 ≡ pos 1) ↔ Precedes v4_2 v4_0)
compare_correct_example = compare_correct v4_0 v4_2

validate_upgrade_path-Allowed_example : (validate_upgrade_path v4_0 v4_4 ≡ none) ↔ Allowed v4_0 v4_4
validate_upgrade_path-Allowed_example = validate_upgrade_path-Allowed v4_0 v4_4

accepted : validate_upgrade_path v4_0 v4_2 ≡ none
unfolding program
accepted = refl

Upgrades-Precedes_example : (v4_0 ≡ v4_2) ⊎ Precedes v4_0 v4_2
Upgrades-Precedes_example = Upgrades-Precedes (upgrade stay accepted)

Upgrades-latest_example : Upgrades v4_0 (version (pos 8) (pos 0) (pos 3))
Upgrades-latest_example = Upgrades-latest v4_0 (version (pos 8) (pos 0) (pos 3)) (there here) refl

parse_version-to_string_example :
    parse_version (to_string v4_2) ≡ ok (record v4_2 { raw = to_string v4_2 })
parse_version-to_string_example =
    parse_version-to_string v4_2
      (record { major_fits = refl; minor_fits = refl; patch_fits = refl })

parse_version-ok_example :
    (codes "7.0.26" ≡ codes "7.0.26")
    × (parse_version (to_string v7_0_26) ≡ ok (record v7_0_26 { raw = to_string v7_0_26 }))
parse_version-ok_example = parse_version-ok (codes "7.0.26") v7_0_26 parse_version_runs

-- ===== src/Version/Parse.antt =====
-- Parsing a version and printing it.
use mup.Base.{◌≡◌, ◌≢◌, refl, true, List, [], ◌∷◌, ◌++◌, some, arith}
use mup.Base.Int.{ℤ}
use mup.Base.Text.{Text, atoi, in_int64, split, show_int}
use mup.Base.Text.Decimal.{atoi-show_int, show_int-Lacks}
use mup.Base.Text.Split.{Lacks, split-append, split_whole}
use mup.Base.Results.{ok}
use mup.Version.{MongoVersion, parse_patch, parse_parts, parse_version, to_string}

-- Every number of the version fits a 64-bit int.
pub record Fits (v : MongoVersion) : Type 0 where
  pub major_fits : in_int64 v.major ≡ true
  pub minor_fits : in_int64 v.minor ≡ true
  pub patch_fits : in_int64 v.patch ≡ true

split-to_string :
    (v : MongoVersion)
    → split b'.' (to_string v) ≡ show_int v.major ∷ show_int v.minor ∷ show_int v.patch ∷ []
unfolding to_string
split-to_string v =
    rw
      (split-append b'.' (show_int v.major) (show_int v.minor ++ b'.' ∷ show_int v.patch)
        (show_int-Lacks b'.' v.major refl refl))
      (rw
        (split-append b'.' (show_int v.minor) (show_int v.patch)
          (show_int-Lacks b'.' v.minor refl refl))
        (rw (split_whole b'.' (show_int v.patch) (show_int-Lacks b'.' v.patch refl refl))))

-- Parsing what `String` prints gives the version back, with the printed text as its `Raw`, if its
-- numbers fit a 64-bit int.
pub parse_version-to_string :
    (v : MongoVersion) → Fits v → parse_version (to_string v) ≡ ok (record v { raw = to_string v })
unfolding parse_version parse_parts
parse_version-to_string v h = rw (split-to_string v) (
    rw (atoi-show_int v.major h.major_fits) (
      rw (atoi-show_int v.minor h.minor_fits)
        (rw (atoi-show_int v.patch h.patch_fits, parse_patch))))

atoi-fits : (s : Text) (v : ℤ) → atoi s ≡ some v → in_int64 v ≡ true
unfolding atoi
atoi-fits s v e = ground arith

parse_patch-fits : (l : List Text) (v : ℤ) → parse_patch l ≡ ok v → in_int64 v ≡ true
unfolding parse_patch
parse_patch-fits [] v e = ground arith
parse_patch-fits (p ∷ _) v e = ground (arith, atoi-fits p v)

parse_parts-ok :
    (version : Text) (l : List Text) (v : MongoVersion)
    → parse_parts version l ≡ ok v
    → (v.raw ≡ version) × Fits v
unfolding parse_parts
parse_parts-ok version [] v e = cc
parse_parts-ok version (p ∷ []) v e = cc
parse_parts-ok version (p ∷ q ∷ rest) v e =
    ground (arith, atoi-fits p v.major, atoi-fits q v.minor, parse_patch-fits rest v.patch)

-- A text with no dot is refused.
pub parse_version_dotless : (s : Text) (v : MongoVersion) → Lacks b'.' s → parse_version s ≢ ok v
unfolding parse_version parse_parts
parse_version_dotless s v h e = cc (e, split_whole b'.' s h)

-- A version that was parsed keeps the text as its `Raw`, its numbers fit 64 bits, and so parsing
-- its printed form gives its numbers again.
pub parse_version-ok :
    (s : Text) (v : MongoVersion)
    → parse_version s ≡ ok v
    → (v.raw ≡ s) × (parse_version (to_string v) ≡ ok (record v { raw = to_string v }))
unfolding parse_version
parse_version-ok s v e =
    let (raw, fits) = parse_parts-ok s (split b'.' s) v e in (raw, parse_version-to_string v fits)

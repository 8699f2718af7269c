-- ===== src/Update/Examples.antt =====
-- The comparison at a pre-release, its release, and a staging build after it.
use veyport.Base.{◌≡◌, refl, true, some, any, ◌&&◌, is_some, map_option}
use veyport.Base.Text.{Text, codes}
use veyport.Update.Version.{
  parse_version, compare_versions, less, compare_read, read_historical, read_core, read_number,
  skip_v, expect, span, is_number, read_pre, read_build, version_identifiers, split_dots, contains,
  starts_with, digits_value, is_numeric, all_digits, compare_parsed, compare_numbers,
  compare_prerelease, parse_matched, parse_numbers, parse_semantic, historical_tail,
}
use veyport.Update.Version.Ordering.{flip, are_coherent, compare_versions-is_coherent}

abbrev candidate : Text
candidate = codes "v1.2.3-rc.1"

abbrev release : Text
release = codes "1.2.3"

abbrev staged : Text
staged = codes "1.2.3-4-gabcdef0-staging"

candidate-release : compare_versions candidate release ≡ some less
unfolding compare_versions compare_read parse_version read_historical read_core read_number skip_v
    expect span is_number read_pre read_build version_identifiers split_dots contains starts_with
    digits_value is_numeric all_digits compare_parsed compare_numbers compare_prerelease
    parse_matched parse_numbers parse_semantic historical_tail any
candidate-release = refl

release-staged : compare_versions release staged ≡ some less
unfolding compare_versions compare_read parse_version read_historical read_core read_number skip_v
    expect span is_number read_pre read_build version_identifiers split_dots contains starts_with
    digits_value is_numeric all_digits compare_parsed compare_numbers compare_prerelease
    parse_matched parse_numbers parse_semantic historical_tail any
release-staged = refl

compare_versions-is_coherent_example :
    (is_some (compare_versions candidate release)
      ≡ (is_some (parse_version candidate) && is_some (parse_version release)))
    × ((compare_versions release candidate ≡ map_option flip (compare_versions candidate release))
        × (are_coherent
              (compare_versions candidate release)
              (compare_versions release staged)
              (compare_versions candidate staged)
            ≡ true))
compare_versions-is_coherent_example = compare_versions-is_coherent candidate release staged

-- ===== src/Tests/Versions.antt =====
-- dms_version_manager.cpp: a device with the version 5.1.0.

use dmsfwk.Prelude.{Bool, ◌≡◌, refl, true, false, some, [], ◌∷◌}
use dmsfwk.Version.{
  DmsVersion, Library, pos, err_ok, initial, parse_dms_version, compare_dms_version,
  get_remote_dms_version, is_remote_dms_version_lower, parse_app_info,
  get_dms_version_data_from_app_info, find_version, parse_numbers,
}
use dmsfwk.Version.Order.{Lower}
use dmsfwk.Version.Parsing.{is_remote_dms_version_lower-Lower}

-- Every text splits into three parts that are numbers.
abbrev lib : Library
lib = record {
  Json = Bool;
  split_str = λ text sep. "5" ∷ "1" ∷ "dmsfwk" ∷ [];
  str_to_int = λ text. some (pos 5);
  parse = λ text. some true;
  string_member = λ json name. some "dmsfwk";
  get_app_info_from_dp = λ device. (err_ok, "json");
}

abbrev five : DmsVersion
five = record { major_version_num = 5; minor_version_num = 5; feature_version_num = 5 }

abbrev six : DmsVersion
six = record { major_version_num = 6; minor_version_num = 0; feature_version_num = 0 }

abbrev seven : DmsVersion
seven = record { major_version_num = 6; minor_version_num = 1; feature_version_num = 0 }

low_step : compare_dms_version five six ≡ true
unfolding compare_dms_version
low_step = refl

high_step : compare_dms_version six seven ≡ true
unfolding compare_dms_version
high_step = refl

is_lower_there : is_remote_dms_version_lower lib "tablet" six ≡ true
unfolding is_remote_dms_version_lower get_remote_dms_version parse_app_info
    get_dms_version_data_from_app_info find_version parse_dms_version parse_numbers
    compare_dms_version
is_lower_there = refl

is_remote_dms_version_lower-Lower_example :
    (v : DmsVersion) × (get_remote_dms_version lib "tablet" initial ≡ (err_ok, v)) × Lower v six
is_remote_dms_version_lower-Lower_example =
    is_remote_dms_version_lower-Lower lib "tablet" six is_lower_there

no_step : compare_dms_version five five ≡ false
unfolding compare_dms_version
no_step = refl

-- ===== src/Version.antt =====
-- services/dtbschedmgr/src/dms_version_manager.cpp: the version of the service on another device. The
-- device profile, the JSON library and the string utilities are parameters.
pub mod Order
pub mod Parsing
use Prim.Native.String.{String}
use text.Mathlib.Text.{◌==◌ as str_eq}
use dmsfwk.Prelude.{
  ℕ, Bool, true, false, not, ◌&&◌, ◌||◌, Option, none, some, List, [], ◌∷◌, length, ltb, ◌==◌,
  if◌then◌else◌,
}

pub record DmsVersion : Type 0 where
  pub major_version_num : ℕ
  pub minor_version_num : ℕ
  pub feature_version_num : ℕ

-- `other n` is any code of the device profile but `ERR_OK`.
pub data Code : Type 0 where
  err_ok dms_version_empty dms_version_parse_exception : Code
  other : ℕ → Code

-- An `int32_t`: a number, or one below zero.
pub data Number : Type 0 where
  pos : ℕ → Number
  negative : Number

pub record Library : Type 1 where
  pub Json : Type 0
  pub split_str : String → String → List String
  pub str_to_int : String → Option Number
  -- `none` is a discarded value
  pub parse : String → Option Json
  -- the member with the name, if it is there and is a string
  pub string_member : Json → String → Option String
  -- `GetCharacteristicProfile` for the device, with the profile's value
  pub get_app_info_from_dp : String → Code × String

module _ (lib : Library) where
  -- One number of the version: whether it is read, and its field, which is left alone if it is not.
  abbrev pub read_number : String → ℕ → Bool × ℕ
  read_number text old = elim (lib.str_to_int text) [ some (pos n) ↦ (true, n) | _ ↦ (false, old) ]

  -- The result and the version, of which a failure can leave a part written.
  unfoldable pub parse_numbers : List String → DmsVersion → Bool × DmsVersion
  parse_numbers (major ∷ minor ∷ feature ∷ []) v =
      let (ok1, n1) = read_number major v.major_version_num in
      let (ok2, n2) = read_number minor v.minor_version_num in
      let (ok3, n3) = read_number feature v.feature_version_num in
      if not ok1
      then (false, v)
      else if not ok2
      then (false, record v { major_version_num = n1 })
      else if not ok3
      then (false, record v { major_version_num = n1; minor_version_num = n2 })
      else (
        true,
        record { major_version_num = n1; minor_version_num = n2; feature_version_num = n3 },
      )
  parse_numbers _ v = (false, v)

  unfoldable pub parse_dms_version : String → DmsVersion → Bool × DmsVersion
  unfolding parse_numbers
  parse_dms_version dms_version_data v = parse_numbers (lib.split_str dms_version_data ".") v

  -- Both members, in the order in which they are looked for.
  unfoldable pub parse_app_info : String → Option (String × String)
  parse_app_info app_info_json_data =
      if str_eq app_info_json_data "" then none else elim (lib.parse app_info_json_data) [
        | none ↦ none
        | some json ↦ elim (lib.string_member json "packageNames") [
          | none ↦ none
          | some names ↦ elim (lib.string_member json "versions") [
            | none ↦ none
            | some versions ↦ some (names, versions)
          ]
        ]
      ]

  -- The version at the first place where the package is the service's own.
  unfoldable pub find_version : List String → List String → Option String
  find_version (name ∷ names) (version ∷ versions) =
      let rest = find_version names versions in if str_eq name "dmsfwk" then some version else rest
  find_version _ _ = none

  unfoldable pub get_dms_version_data_from_app_info : String → String → Code × String
  unfolding find_version
  get_dms_version_data_from_app_info package_names_data versions_data =
      let names = lib.split_str package_names_data "," in
      let versions = lib.split_str versions_data "," in
      if str_eq package_names_data "" || str_eq versions_data ""
      then (dms_version_empty, "")
      else if not (length names == length versions)
      then (dms_version_parse_exception, "")
      else elim (find_version names versions) [
        | some version ↦ (err_ok, version)
        | none ↦ (dms_version_empty, "")
      ]

  unfoldable pub get_remote_dms_version : String → DmsVersion → Code × DmsVersion
  unfolding parse_app_info get_dms_version_data_from_app_info parse_dms_version
  get_remote_dms_version device_id v =
      let (found, json) = lib.get_app_info_from_dp device_id in
      elim found [
        | err_ok ↦ elim (parse_app_info json) [
          | none ↦ (dms_version_empty, v)
          | some (names, versions) ↦
              let (got, text) = get_dms_version_data_from_app_info names versions in
              elim got [
                | err_ok ↦
                    let (parsed, v') = parse_dms_version text v in
                    if parsed then (err_ok, v') else (dms_version_parse_exception, v')
                | failed ↦ (failed, v)
              ]
        ]
        | failed ↦ (failed, v)
      ]

unfoldable pub compare_dms_version : DmsVersion → DmsVersion → Bool
compare_dms_version v t =
    if ltb v.major_version_num t.major_version_num
    then true
    else if v.major_version_num == t.major_version_num
        && ltb v.minor_version_num t.minor_version_num
    then true
    else if v.major_version_num == t.major_version_num
        && (v.minor_version_num == t.minor_version_num
            && ltb v.feature_version_num t.feature_version_num)
    then true
    else false

abbrev pub initial : DmsVersion
initial = record { major_version_num = 0; minor_version_num = 0; feature_version_num = 0 }

abbrev pub is_lower : Code × DmsVersion → DmsVersion → Bool
is_lower (err_ok, v) threshold = compare_dms_version v threshold
is_lower (failed, v) threshold = false

unfoldable pub is_remote_dms_version_lower : Library → String → DmsVersion → Bool
unfolding get_remote_dms_version compare_dms_version
is_remote_dms_version_lower lib remote_device_id threshold =
    is_lower (get_remote_dms_version lib remote_device_id initial) threshold

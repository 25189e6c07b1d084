-- ===== src/Version/Order.antt =====
-- Versions are compared number by number, which orders them.
use dmsfwk.Prelude.{◌<◌, ◌≡◌, ◌↔◌, ◌⊎◌, true, false, arith}
use dmsfwk.Version.{DmsVersion, compare_dms_version}

-- The first number that differs is the lower one.
abbrev pub Lower : DmsVersion → DmsVersion → Type 0
Lower v t =
    (v.major_version_num < t.major_version_num)
    ⊎ ((v.major_version_num ≡ t.major_version_num)
        × ((v.minor_version_num < t.minor_version_num)
            ⊎ ((v.minor_version_num ≡ t.minor_version_num)
                × (v.feature_version_num < t.feature_version_num))))

-- `CompareDmsVersion` tells whether the first number that differs is the lower one.
pub compare_dms_version_lem : (v t : DmsVersion) → (compare_dms_version v t ≡ true) ↔ Lower v t
unfolding compare_dms_version
compare_dms_version_lem v t = ground arith

-- A version below a version below a third is below the third.
pub compare_dms_version_trans :
    (v t u : DmsVersion)
    → compare_dms_version v t ≡ true
    → compare_dms_version t u ≡ true
    → compare_dms_version v u ≡ true
unfolding compare_dms_version
compare_dms_version_trans v t u a b = ground arith

-- Of two versions, neither of which is below the other, all three numbers are the same.
pub compare_dms_version_total :
    (v t : DmsVersion) → compare_dms_version v t ≡ false → compare_dms_version t v ≡ false → v ≡ t
unfolding compare_dms_version
compare_dms_version_total v t a b = ground arith

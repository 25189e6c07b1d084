-- ===== src/CollabManager/Relations.antt =====
-- Whether two applications collaborate: `CheckCollabRelation`, which the relation checker of the softbus
-- asks. Numbers stand for devices.
use dmsfwk.Prelude.{
  ℕ, ◌≡◌, ◌↔◌, ◌⊎◌, Bool, true, false, ◌&&◌, ◌||◌, Option, none, some, List, [], ◌∷◌, ◌==◌,
  if◌then◌else◌, arith,
}
use dmsfwk.DschedCollab.{Code, err_ok, invalid_parameters_err}

-- What the checker hands over for one side; `none` is -1, the `NO_NEED_TO_CHECK_ID`.
pub record CollabInfo : Type 0 where
  pub device_id : ℕ
  pub pid : Option ℕ
  pub token_id : ℕ
  pub user_id : ℕ

-- One side of a collaboration, as its information has it; `none` is a process that is not known, -1.
pub record Side : Type 0 where
  pub udid : ℕ
  pub side_pid : Option ℕ
  pub access_token : ℕ
  pub side_user_id : ℕ

abbrev pub is_pid : Option ℕ → Option ℕ → Bool
is_pid none none = true
is_pid none (some p) = false
is_pid (some q) none = false
is_pid (some q) (some p) = q == p

-- `CheckSrcCollabRelation` and `CheckSinkCollabRelation`, for the fields of their sides
unfoldable pub check_side : CollabInfo → Side → Code
check_side info s =
    if (info.device_id == s.udid)
      && is_pid info.pid s.side_pid
      && (info.token_id == s.access_token)
      && (info.user_id == s.side_user_id)
    then err_ok
    else invalid_parameters_err

abbrev pub is_ok : Code → Bool
is_ok err_ok = true
is_ok failed = false

abbrev pub no_need_to_check : Option ℕ → Bool
no_need_to_check none = true
no_need_to_check (some p) = false

-- The sides of the collaborations of the table, source and sink.
unfoldable pub check_collab_relation : CollabInfo → CollabInfo → List (Side × Side) → Code
check_collab_relation source sink [] = invalid_parameters_err
check_collab_relation source sink ((src, snk) ∷ collabs) =
    if is_ok (check_side source src) && (no_need_to_check sink.pid || is_ok (check_side sink snk))
    then err_ok
    else check_collab_relation source sink collabs

-- The description: the application is this side.
abbrev pub IsSide : CollabInfo → Side → Type 0
IsSide info s =
    (info.device_id ≡ s.udid)
    × (info.pid ≡ s.side_pid)
    × (info.token_id ≡ s.access_token)
    × (info.user_id ≡ s.side_user_id)

-- Some collaboration of the table is between the two.
abbrev pub AreRelated : CollabInfo → CollabInfo → List (Side × Side) → Type 0
AreRelated source sink [] = ⊥
AreRelated source sink ((src, snk) ∷ collabs) =
    (IsSide source src × ((sink.pid ≡ none) ⊎ IsSide sink snk)) ⊎ AreRelated source sink collabs

is_pid_iff : (p q : Option ℕ) → (is_pid p q ≡ true) ↔ (p ≡ q)
is_pid_iff p q = ground arith

check_side-IsSide : (info : CollabInfo) (s : Side) → (check_side info s ≡ err_ok) ↔ IsSide info s
unfolding check_side
check_side-IsSide info s = ground (arith, is_pid_iff info.pid s.side_pid)

-- The check returns `ERR_OK` exactly where the table has a collaboration whose source is the given one in
-- device, process, token and user, and whose sink is, too, or need not be checked.
pub check_collab_relation-AreRelated :
    (source sink : CollabInfo) (collabs : List (Side × Side))
    → (check_collab_relation source sink collabs ≡ err_ok) ↔ AreRelated source sink collabs
unfolding check_collab_relation
check_collab_relation-AreRelated source sink [] = ground arith
check_collab_relation-AreRelated source sink ((src, snk) ∷ collabs) = ground (
  arith,
  check_side-IsSide source src,
  check_side-IsSide sink snk,
  check_collab_relation-AreRelated source sink collabs,
)

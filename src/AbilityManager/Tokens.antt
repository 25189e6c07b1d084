-- ===== src/AbilityManager/Tokens.antt =====
-- The tokens of the callers: `Register`, `Unregister` and the tests on `tokenMap_`.
pub mod Registration
pub mod Limits
pub mod Unique
use dmsfwk.Prelude.{
  ℕ, ◌+◌, Bool, true, false, not, ◌||◌, Option, none, some, List, [], ◌∷◌, ◌++◌, length, ltb, leb,
  ◌==◌, lookup, insert, erase, if◌then◌else◌,
}
use dmsfwk.AbilityManager.{
  Code, err_ok, invalid_continuation_mode, register_exceed_max_times, token_has_not_registered,
  ContinuationExtraParams, NotifierInfo, Service, Effect, set_parameter, remove_death_recipient,
  Result, failed_with, handle_disconnect_ability, are_params_valid,
}

abbrev pub max_token_num : ℕ
max_token_num = 100_000_000

abbrev pub max_register_num : ℕ
max_register_num = 600

abbrev pub contains : ℕ → List ℕ → Bool
contains t [] = false
contains t (x ∷ xs) = x == t || contains t xs

abbrev pub or_empty : Option (List ℕ) → List ℕ
or_empty none = []
or_empty (some ts) = ts

unfoldable pub is_exceeded_register_max_num : Service → ℕ → Bool
is_exceeded_register_max_num s access_token =
    leb max_register_num (length (or_empty (lookup access_token s.token_map)))

unfoldable pub is_token_registered : Service → ℕ → ℕ → Bool
is_token_registered s access_token token =
    contains token (or_empty (lookup access_token s.token_map))

abbrev pub next_token : ℕ → ℕ
next_token token = if ltb max_token_num (token + 1) then 1 else token + 1

-- The caller's list with the new token behind the others.
unfoldable pub add_token : ℕ → ℕ → List (ℕ × List ℕ) → List (ℕ × List ℕ)
add_token access_token token m =
    insert access_token (or_empty (lookup access_token m) ++ token ∷ []) m

-- The result and, behind it, the token that the caller gets.
unfoldable pub register : Service → ℕ → Option ContinuationExtraParams → Result × Option ℕ
unfolding is_exceeded_register_max_num add_token
register s access_token params =
    let token = next_token s.token in
    if not (are_params_valid params)
    then (failed_with s invalid_continuation_mode, none)
    else if is_exceeded_register_max_num s access_token
    then (failed_with s register_exceed_max_times, none)
    else (
      (
        record s { token = token; token_map = add_token access_token token s.token_map },
        err_ok,
        set_parameter token ∷ [],
      ),
      some token,
    )

-- `std::remove_if` of the token
unfoldable pub remove_if : ℕ → List ℕ → List ℕ
remove_if token [] = []
remove_if token (x ∷ xs) = if x == token then remove_if token xs else x ∷ remove_if token xs

-- The loop over `tokenMap_`: it stops at the first list that is empty, and drops it.
unfoldable pub remove_token : ℕ → List (ℕ × List ℕ) → List (ℕ × List ℕ)
unfolding remove_if
remove_token token [] = []
remove_token token ((k, ts) ∷ m) = elim (remove_if token ts) [
  | [] ↦ m
  | x ∷ xs ↦ (k, x ∷ xs) ∷ remove_token token m
]

abbrev pub watched : Option ℕ → List Effect
watched none = []
watched (some n) = remove_death_recipient n ∷ []

-- `RemoveDeathRecipient` of all the notifiers
abbrev pub unwatch : Option NotifierInfo → List Effect
unwatch none = []
unwatch (some info) = watched info.connect_notifier ++ watched info.disconnect_notifier

-- What `Unregister` and the death of a notifier have in common.
unfoldable pub forget : ℕ → Service → Service × List Effect
unfolding remove_token
forget token s = (
  (handle_disconnect_ability (record s {
    callback_map = erase token s.callback_map;
    token_map = remove_token token s.token_map;
  })).0,
  unwatch (lookup token s.callback_map),
)

unfoldable pub unregister : Service → ℕ → ℕ → Result
unfolding is_token_registered forget
unregister s access_token token =
    let (s', effects) = forget token s in
    if is_token_registered s access_token token
    then (s', err_ok, effects)
    else failed_with s token_has_not_registered

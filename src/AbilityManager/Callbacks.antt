-- ===== src/AbilityManager/Callbacks.antt =====
-- The callbacks of a token: `RegisterDeviceSelectionCallback`, `UnregisterDeviceSelectionCallback` and
-- `UpdateConnectStatus`, with notifier_info.cpp.
pub mod Known
pub mod Watching
use Prim.Native.String.{String}
use text.Mathlib.Text.{◌==◌ as str_eq}
use dmsfwk.Prelude.{
  ℕ, Bool, true, false, not, Option, none, some, List, [], ◌∷◌, ◌==◌, lookup, insert, erase,
  if◌then◌else◌,
}
use dmsfwk.AbilityManager.{
  Code, err_ok, token_has_not_registered, unknown_callback_type, callback_has_registered,
  callback_has_not_registered, err_null_object, invalid_connect_status, Sent, value, below_zero,
  CbType, event_connect, event_disconnect, unknown, ConnectStatusInfo, NotifierInfo, Service,
  Effect, add_death_recipient, update_connect_status_task, Result, failed_with, submit,
  is_connect_status_valid,
}
use dmsfwk.AbilityManager.Tokens.{is_token_registered, watched}

abbrev pub no_notifier : NotifierInfo
no_notifier = record {
  connect_notifier = none;
  disconnect_notifier = none;
  connect_status_info = none;
}

abbrev pub get_notifier : CbType → NotifierInfo → Option ℕ
get_notifier event_connect info = info.connect_notifier
get_notifier event_disconnect info = info.disconnect_notifier
get_notifier unknown info = none

-- `SetNotifier` for `some`, and `DeleteNotifier` for `none`
abbrev pub set_notifier : CbType → Option ℕ → NotifierInfo → NotifierInfo
set_notifier event_connect n info = record info { connect_notifier = n }
set_notifier event_disconnect n info = record info { disconnect_notifier = n }
set_notifier unknown n info = info

abbrev pub is_notifier_map_empty : NotifierInfo → Bool
is_notifier_map_empty info = elim info.connect_notifier [
  | none ↦ elim info.disconnect_notifier [ none ↦ true | some n ↦ false ]
  | some n ↦ false
]

abbrev pub is_there : Option ℕ → Bool
is_there none = false
is_there (some n) = true

abbrev pub notifier_of : CbType → Option NotifierInfo → Option ℕ
notifier_of type none = none
notifier_of type (some info) = get_notifier type info

-- `IsNotifierRegistered`
unfoldable pub is_notifier_registered : Service → ℕ → Bool
is_notifier_registered s token = elim (lookup token s.callback_map) [
  | none ↦ false
  | some info ↦ true
]

unfoldable pub is_notifier_registered_locked : Service → ℕ → CbType → Bool
is_notifier_registered_locked s token type =
    is_there (notifier_of type (lookup token s.callback_map))

abbrev pub is_known : CbType → Bool
is_known unknown = false
is_known _ = true

-- Only the first notifier of a token is watched.
unfoldable pub set_callback : Service → ℕ → CbType → ℕ → Result
set_callback s token type notifier = elim (lookup token s.callback_map) [
  | some info ↦ (
    record s {
      callback_map = insert token (set_notifier type (some notifier) info) s.callback_map;
    },
    err_ok,
    [],
  )
  | none ↦ (
    record s {
      callback_map = insert token (set_notifier type (some notifier) no_notifier) s.callback_map;
    },
    err_ok,
    add_death_recipient notifier ∷ [],
  )
]

unfoldable pub register_device_selection_callback : Service → ℕ → ℕ → CbType → ℕ → Result
unfolding is_notifier_registered_locked set_callback
register_device_selection_callback s access_token token type notifier =
    if not (is_known type)
    then failed_with s unknown_callback_type
    else if not (is_token_registered s access_token token)
    then failed_with s token_has_not_registered
    else if is_notifier_registered_locked s token type
    then failed_with s callback_has_registered
    else set_callback s token type notifier

unfoldable pub clear_callback : Service → ℕ → CbType → Result
clear_callback s token type = elim (lookup token s.callback_map) [
  | none ↦ (s, err_ok, [])
  | some info ↦
      let info' = set_notifier type none info in
      (
        record s {
          callback_map =
              if is_notifier_map_empty info'
              then erase token s.callback_map
              else insert token info' s.callback_map;
        },
        err_ok,
        watched (get_notifier type info),
      )
]

unfoldable pub unregister_device_selection_callback : Service → ℕ → ℕ → CbType → Result
unfolding is_notifier_registered_locked clear_callback
unregister_device_selection_callback s access_token token type =
    if not (is_known type)
    then failed_with s unknown_callback_type
    else if not (is_token_registered s access_token token)
    then failed_with s token_has_not_registered
    else if not (is_notifier_registered_locked s token type)
    then failed_with s callback_has_not_registered
    else clear_callback s token type

-- `HandleUpdateConnectStatus`, which `UpdateConnectStatus` calls where there is a panel.
abbrev pub handle_update_connect_status : Service → ℕ → ConnectStatusInfo → Service
handle_update_connect_status s token status = elim s.app_proxy [
  | none ↦ s
  | some proxy ↦ (submit (update_connect_status_task proxy token status) s).0
]

abbrev pub status_of : Sent → ℕ
status_of (value n) = n
status_of below_zero = 0

unfoldable pub update_connect_status : Service → ℕ → ℕ → String → Sent → Result
update_connect_status s access_token token device_id status =
    let info : ConnectStatusInfo = record {
      device_id = device_id;
      device_connect_status = status_of status;
    } in
    if str_eq device_id ""
    then failed_with s err_null_object
    else if not (is_connect_status_valid status)
    then failed_with s invalid_connect_status
    else if not (is_token_registered s access_token token)
    then failed_with s token_has_not_registered
    else elim (lookup token s.callback_map) [
      | none ↦ failed_with s callback_has_not_registered
      | some callbacks ↦
          let known : Service = record s {
            callback_map =
                insert token (record callbacks { connect_status_info = some info }) s.callback_map;
          } in
          (handle_update_connect_status known token info, err_ok, [])
    ]

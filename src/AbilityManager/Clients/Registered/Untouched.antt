-- ===== src/AbilityManager/Clients/Registered/Untouched.antt =====
-- The calls that leave the tokens of the callers as they are.
use Prim.Native.String.{String}
use dmsfwk.Prelude.{ℕ, ◌≡◌, Option, none, some, arith}
use dmsfwk.AbilityManager.{Service, Sent, CbType, Task, ContinuationExtraParams}
use dmsfwk.AbilityManager.Callbacks.{
  set_callback, clear_callback, register_device_selection_callback,
  unregister_device_selection_callback, update_connect_status,
}
use dmsfwk.AbilityManager.Panel.{
  Answers, connect_to_ability, start_device_manager, disconnect_from_ability,
  schedule_start_device_manager, on_device, on_device_cancel,
}

-- The tokens are the same in both states.
abbrev pub IsSame : Service → Service → Type 0
IsSame s s' = (s'.token ≡ s.token) × (s'.token_map ≡ s.token_map)

pub registers_callback-IsSame :
    (s : Service) (caller token : ℕ) (type : CbType) (n : ℕ)
    → IsSame s (register_device_selection_callback s caller token type n).0
unfolding register_device_selection_callback set_callback
registers_callback-IsSame s caller token type n = ground arith

pub unregisters_callback-IsSame :
    (s : Service) (caller token : ℕ) (type : CbType)
    → IsSame s (unregister_device_selection_callback s caller token type).0
unfolding unregister_device_selection_callback clear_callback
unregisters_callback-IsSame s caller token type = ground arith

pub updates_status-IsSame :
    (s : Service) (caller token : ℕ) (device : String) (status : Sent)
    → IsSame s (update_connect_status s caller token device status).0
unfolding update_connect_status
updates_status-IsSame s caller token device status = ground arith

pub starts-IsSame :
    (answers : Answers) (s : Service) (caller token : ℕ) (params : Option ContinuationExtraParams)
    → IsSame s (start_device_manager answers s caller token params).0
unfolding start_device_manager connect_to_ability
starts-IsSame answers s caller token params = ground arith

pub schedule-IsSame :
    (s : Service) (proxy : Option ℕ) (token : ℕ) (params : Option ContinuationExtraParams)
    → IsSame s (schedule_start_device_manager s proxy token params)
unfolding schedule_start_device_manager
schedule-IsSame s none token params = ground arith
schedule-IsSame s (some proxy) token params = ground arith

pub on_device-IsSame :
    (type : CbType) (task : ℕ → Task) (s : Service) (token : ℕ)
    → IsSame s (on_device type task s token).0
unfolding on_device
on_device-IsSame type task s token = ground arith

pub on_device_cancel-IsSame : (s : Service) → IsSame s (on_device_cancel s).0
unfolding on_device_cancel
on_device_cancel-IsSame s = ground arith

pub disconnect-IsSame :
    (answers : Answers) (s : Service) → IsSame s (disconnect_from_ability answers s).0
unfolding disconnect_from_ability
disconnect-IsSame answers s = ground arith

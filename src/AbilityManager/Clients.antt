-- ===== src/AbilityManager/Clients.antt =====
-- The tokens and the callbacks together, over all the calls of the service.
pub mod Steps
pub mod Registered
use dmsfwk.Prelude.{
  ℕ, suc, ◌≤◌, ◌<◌, ◌≡◌, ◌≢◌, refl, sym, inl, inr, Bool, true, false, not, Option, none, some, List,
  [], ◌∷◌, ◌++◌, length, leb, ltb, ◌==◌, lookup, insert, erase, Ascending, insert-Ascending,
  erase-Ascending, Option-cases, Bool-cases, if◌then◌else◌, arith,
}
use Prim.Native.String.{String}
use dmsfwk.AbilityManager.{
  Sent, ConnectStatusInfo, NotifierInfo, Service, Task, CbType, submit, ContinuationExtraParams,
  are_params_valid,
}
use dmsfwk.AbilityManager.Tokens.{
  max_token_num, max_register_num, or_empty, next_token, add_token, remove_token, register, forget,
  unregister, is_exceeded_register_max_num, is_token_registered,
}
use dmsfwk.AbilityManager.Tokens.Registration.{is_held, is_held-has_token}
use dmsfwk.AbilityManager.Tokens.Limits.{IsLimited, add_token-IsLimited, remove_token-IsLimited}
use dmsfwk.AbilityManager.Tokens.Unique.{remove_token-Ascending}
use dmsfwk.AbilityManager.Callbacks.{
  is_notifier_map_empty, handle_update_connect_status, status_of, set_callback, clear_callback,
  register_device_selection_callback, unregister_device_selection_callback, update_connect_status,
  set_notifier, no_notifier, is_known,
}
use dmsfwk.AbilityManager.Callbacks.Known.{
  AreHeld, AreHeld-add_token, AreHeld-remove_token, insert-AreHeld, erase-AreHeld, found-AreHeld,
  set_notifier-is_there, erase-IsWithout,
}

-- The fields that the invariant reads.
abbrev pub IsConsistent : ℕ → List (ℕ × List ℕ) → List (ℕ × NotifierInfo) → Type 0
IsConsistent token m callbacks =
    (token ≤ max_token_num)
    × IsLimited m
    × Ascending 0 m
    × Ascending 0 callbacks
    × AreHeld m callbacks

abbrev pub IsValid : Service → Type 0
IsValid s = IsConsistent s.token s.token_map s.callback_map

pub submit-IsValid : (task : Task) (s : Service) → IsValid s → IsValid (submit task s).0
submit-IsValid task s h = ground arith

next_token_bound : (token : ℕ) → next_token token ≤ max_token_num
next_token_bound token = ground arith

add_token-IsConsistent :
    (caller token new : ℕ) (m : List (ℕ × List ℕ)) (callbacks : List (ℕ × NotifierInfo))
    → new ≤ max_token_num
    → length (or_empty (lookup caller m)) < max_register_num
    → IsConsistent token m callbacks
    → IsConsistent new (add_token caller new m) callbacks
unfolding add_token
add_token-IsConsistent caller token new m callbacks n few h = (
  n,
  add_token-IsLimited caller new m h.1 few,
  insert-Ascending 0 caller (or_empty (lookup caller m) ++ new ∷ []) m (omega arith) h.2,
  h.3,
  AreHeld-add_token caller new m callbacks h.4,
)

pub register-IsValid :
    (s : Service) (caller : ℕ) (params : Option ContinuationExtraParams)
    → IsValid s
    → IsValid (register s caller params).0.0
unfolding register is_exceeded_register_max_num
register-IsValid s caller params h = ground (
  arith,
  next_token_bound s.token,
  add_token-IsConsistent caller s.token (next_token s.token) s.token_map s.callback_map,
)

forget-IsConsistent :
    (token last : ℕ) (m : List (ℕ × List ℕ)) (callbacks : List (ℕ × NotifierInfo))
    → IsConsistent last m callbacks
    → IsConsistent last (remove_token token m) (erase token callbacks)
forget-IsConsistent token last m callbacks h = (
  h.0,
  remove_token-IsLimited token m h.1,
  remove_token-Ascending token 0 m h.2,
  erase-Ascending 0 token callbacks h.3,
  AreHeld-remove_token token m (erase token callbacks) (erase-IsWithout token 0 callbacks h.3)
      (erase-AreHeld m token callbacks h.4),
)

pub forget-IsValid : (token : ℕ) (s : Service) → IsValid s → IsValid (forget token s).0
unfolding forget
forget-IsValid token s h =
    ground (arith, forget-IsConsistent token s.token s.token_map s.callback_map h)

pub unregister-IsValid :
    (s : Service) (caller token : ℕ) → IsValid s → IsValid (unregister s caller token).0
unfolding unregister
unregister-IsValid s caller token h = ground (arith, forget-IsValid token s h)

-- The callbacks change, and the tokens do not.
callbacks-IsConsistent :
    (last token : ℕ) (m : List (ℕ × List ℕ)) (callbacks : List (ℕ × NotifierInfo))
    (info : NotifierInfo)
    → IsConsistent last m callbacks
    → is_held token m ≡ true
    → is_notifier_map_empty info ≡ false
    → IsConsistent last m (insert token info callbacks)
callbacks-IsConsistent last token m callbacks info h t f = (
  h.0,
  h.1,
  h.2,
  insert-Ascending 0 token info callbacks (omega arith) h.3,
  insert-AreHeld m token info callbacks t f h.4,
)

erase-IsConsistent :
    (last token : ℕ) (m : List (ℕ × List ℕ)) (callbacks : List (ℕ × NotifierInfo))
    → IsConsistent last m callbacks
    → IsConsistent last m (erase token callbacks)
erase-IsConsistent last token m callbacks h =
    (h.0, h.1, h.2, erase-Ascending 0 token callbacks h.3, erase-AreHeld m token callbacks h.4)

set_callback-IsValid :
    (s : Service) (token : ℕ) (type : CbType) (n : ℕ)
    → IsValid s
    → is_held token s.token_map ≡ true
    → is_known type ≡ true
    → IsValid (set_callback s token type n).0
unfolding set_callback
set_callback-IsValid s token type n h t k = elim (Option-cases (lookup token s.callback_map)) [
  | inl absent ↦
      let info = set_notifier type (some n) no_notifier in
      ground (
        arith,
        absent,
        callbacks-IsConsistent s.token token s.token_map s.callback_map info h t
            (set_notifier-is_there type n no_notifier k),
      )
  | inr (old, there) ↦
      let info = set_notifier type (some n) old in
      ground (
        arith,
        there,
        callbacks-IsConsistent s.token token s.token_map s.callback_map info h t
            (set_notifier-is_there type n old k),
      )
]

pub registers_callback-IsValid :
    (s : Service) (caller token : ℕ) (type : CbType) (n : ℕ)
    → IsValid s
    → IsValid (register_device_selection_callback s caller token type n).0
unfolding register_device_selection_callback is_token_registered
registers_callback-IsValid s caller token type n h =
    ground
      (arith, set_callback-IsValid s token type n h, is_held-has_token caller token s.token_map)

clear_callback-IsValid :
    (s : Service) (token : ℕ) (type : CbType) → IsValid s → IsValid (clear_callback s token type).0
unfolding clear_callback
clear_callback-IsValid s token type h = elim (Option-cases (lookup token s.callback_map)) [
  | inl absent ↦ ground (arith, absent)
  | inr (info, there) ↦
      let held = found-AreHeld s.token_map token info s.callback_map h.4 there in
      elim (Bool-cases (is_notifier_map_empty (set_notifier type none info))) [
        | inl empty ↦
            ground
              (arith, there, empty, erase-IsConsistent s.token token s.token_map s.callback_map h)
        | inr more ↦ ground (
          arith,
          there,
          more,
          callbacks-IsConsistent s.token token s.token_map s.callback_map
              (set_notifier type none info) h held.0 more,
        )
      ]
]

pub unregisters_callback-IsValid :
    (s : Service) (caller token : ℕ) (type : CbType)
    → IsValid s
    → IsValid (unregister_device_selection_callback s caller token type).0
unfolding unregister_device_selection_callback
unregisters_callback-IsValid s caller token type h =
    ground (arith, clear_callback-IsValid s token type h)

handle_update-IsValid :
    (s : Service) (token : ℕ) (info : ConnectStatusInfo)
    → IsValid s
    → IsValid (handle_update_connect_status s token info)
handle_update-IsValid s token info h = ground arith

pub updates_status-IsValid :
    (s : Service) (caller token : ℕ) (device : String) (status : Sent)
    → IsValid s
    → IsValid (update_connect_status s caller token device status).0
unfolding update_connect_status
updates_status-IsValid s caller token device status h =
    elim (Option-cases (lookup token s.callback_map)) [
      | inl absent ↦ ground (arith, absent)
      | inr (info, there) ↦
          let held = found-AreHeld s.token_map token info s.callback_map h.4 there in
          let told : NotifierInfo = record info {
            connect_status_info =
                some (record { device_id = device; device_connect_status = status_of status });
          } in
          ground (
            arith,
            there,
            callbacks-IsConsistent s.token token s.token_map s.callback_map told h held.0 held.1,
          )
    ]

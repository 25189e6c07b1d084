-- ===== src/ContinueManager/Callbacks.antt =====
-- dsched_continue_manager.cpp: the callbacks for the state of the quick start, in `stateCallbackCache_`. The
-- numbers of the missions and names in `StateCallbackInfo` are one number here, in the order of its `<`.
use dmsfwk.Prelude.{
  ℕ, ◌≡◌, Bool, true, Option, none, some, List, [], ◌∷◌, lookup, insert, erase, lookup-insert_self,
  if◌then◌else◌, arith,
}

-- The callback, and the state with its message, `none` where the state is -1.
pub record StateCallbackData : Type 0 where
  pub remote_object : Option ℕ
  pub state : Option (ℕ × ℕ)

abbrev pub Cache : Type 0
Cache = List (ℕ × StateCallbackData)

pub data CallbackCode : Type 0 where
  err_ok err_flatten_object : CallbackCode

-- What a callback is told.
pub record Told : Type 0 where
  pub told_object : ℕ
  pub told_state : ℕ × ℕ

-- The cache, the code and what was told.
abbrev pub Answer : Type 0
Answer = Cache × CallbackCode × List Told

-- `FindStateCallbackData`: a copy of what is in the cache.
abbrev pub find_state_callback_data : ℕ → Cache → Option StateCallbackData
find_state_callback_data info cache = lookup info cache

-- `std::map::emplace`, which leaves a value that is there
unfoldable pub add_state_callback_data : ℕ → StateCallbackData → Cache → Cache
add_state_callback_data info data_ cache = elim (lookup info cache) [
  | none ↦ insert info data_ cache
  | some old ↦ cache
]

abbrev pub remove_state_callback_data : ℕ → Cache → Cache
remove_state_callback_data info cache = erase info cache

-- `is_written` tells whether the token, the state and the message can be written for the callback. What is
-- set after it was sent is set in the copy.
unfoldable pub notify_quick_start_state : Bool → ℕ → ℕ × ℕ → Cache → Answer
notify_quick_start_state is_written info state cache = elim (find_state_callback_data info cache) [
  | none ↦ (
    add_state_callback_data info (record { remote_object = none; state = some state }) cache,
    err_ok,
    [],
  )
  | some found ↦ elim found.remote_object [
    | none ↦ (add_state_callback_data info (record found { state = some state }) cache, err_ok, [])
    | some object ↦
        if is_written
        then (cache, err_ok, record { told_object = object; told_state = state } ∷ [])
        else (cache, err_flatten_object, [])
  ]
]

-- The callback is set in the copy.
unfoldable pub continue_state_callback_register : Bool → ℕ → ℕ → Cache → Answer
continue_state_callback_register is_written info callback cache =
    elim (find_state_callback_data info cache) [
      | none ↦ (
        add_state_callback_data info (record { remote_object = some callback; state = none }) cache,
        err_ok,
        [],
      )
      | some found ↦ elim found.state [
        | none ↦ (cache, err_ok, [])
        | some state ↦ notify_quick_start_state is_written info state cache
      ]
    ]

-- Also what the death of the callback does.
abbrev pub continue_state_callback_un_register : ℕ → Cache → Cache × CallbackCode
continue_state_callback_un_register info cache = (remove_state_callback_data info cache, err_ok)

-- A callback that is registered where there was none for it is told every state from then on, as often as it
-- can be written, and the cache stays the same.
pub notify_quick_start_state-continue_state_callback_register :
    (info callback : ℕ) (is_written : Bool) (state : ℕ × ℕ) (cache : Cache)
    → lookup info cache ≡ none
    → let cache' = (continue_state_callback_register is_written info callback cache).0 in
      notify_quick_start_state true info state cache'
      ≡ (cache', err_ok, record { told_object = callback; told_state = state } ∷ [])
unfolding continue_state_callback_register notify_quick_start_state add_state_callback_data
notify_quick_start_state-continue_state_callback_register info callback is_written state cache
      absent =
    ground (
      arith,
      lookup-insert_self info (record { remote_object = some callback; state = none }) cache,
    )

-- Where a state was noted for which there was no callback, the callback that is then registered is answered
-- ERR_OK, told nothing and not kept: the cache stays as it was, and the next state is told to nobody either.
pub continue_state_callback_register-lost :
    (info callback : ℕ) (is_written : Bool) (state later : ℕ × ℕ) (cache : Cache)
    → lookup info cache ≡ none
    → let noted = (notify_quick_start_state is_written info state cache).0 in
      (continue_state_callback_register is_written info callback noted ≡ (noted, err_ok, []))
      × (notify_quick_start_state is_written info later noted ≡ (noted, err_ok, []))
unfolding continue_state_callback_register notify_quick_start_state add_state_callback_data
continue_state_callback_register-lost info callback is_written state later cache absent =
    ground
      (arith, lookup-insert_self info (record { remote_object = none; state = some state }) cache)

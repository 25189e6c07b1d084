-- ===== src/AbilityManager/Callbacks/Watching.antt =====
-- Which notifiers of a token are watched for the death of their process.
use dmsfwk.Prelude.{
  ℕ, ◌≡◌, refl, true, none, some, List, [], ◌∷◌, ◌++◌, lookup, insert, lookup-insert_self,
  insert-insert, arith,
}
use dmsfwk.AbilityManager.{
  NotifierInfo, Service, event_connect, event_disconnect, add_death_recipient,
  remove_death_recipient, Result, Effect, err_ok,
}
use dmsfwk.AbilityManager.Tokens.{is_token_registered}
use dmsfwk.AbilityManager.Callbacks.{
  no_notifier, set_notifier, is_notifier_registered_locked, set_callback,
  register_device_selection_callback, clear_callback, unregister_device_selection_callback,
  notifier_of,
}

-- The callbacks of one token, set.
abbrev pub with_callbacks : ℕ → NotifierInfo → Service → Service
with_callbacks token info s = record s { callback_map = insert token info s.callback_map }

first_callback :
    (s : Service) (caller token n : ℕ)
    → is_token_registered s caller token ≡ true
    → lookup token s.callback_map ≡ none
    → register_device_selection_callback s caller token event_connect n ≡ (
      with_callbacks token (set_notifier event_connect (some n) no_notifier) s,
      err_ok,
      add_death_recipient n ∷ [],
    )
unfolding register_device_selection_callback is_notifier_registered_locked set_callback
first_callback s caller token n r e = ground (arith, r, e)

second_callback :
    (s : Service) (caller token m : ℕ) (info : NotifierInfo)
    → is_token_registered s caller token ≡ true
    → lookup token s.callback_map ≡ some info
    → info.disconnect_notifier ≡ none
    → register_device_selection_callback s caller token event_disconnect m
      ≡ (with_callbacks token (set_notifier event_disconnect (some m) info) s, err_ok, [])
unfolding register_device_selection_callback is_notifier_registered_locked set_callback
second_callback s caller token m info r e d = ground (arith, r, e, d)

third_callback :
    (s : Service) (caller token n m : ℕ) (info : NotifierInfo)
    → is_token_registered s caller token ≡ true
    → lookup token s.callback_map ≡ some info
    → info.connect_notifier ≡ some n
    → info.disconnect_notifier ≡ some m
    → unregister_device_selection_callback s caller token event_connect ≡ (
      with_callbacks token (set_notifier event_connect none info) s,
      err_ok,
      remove_death_recipient n ∷ [],
    )
unfolding unregister_device_selection_callback is_notifier_registered_locked clear_callback
third_callback s caller token n m info r e c d = ground (arith, r, e, c, d)

-- Two callbacks of a token, and then the one for connections taken back.
abbrev pub registered_once : Service → ℕ → ℕ → ℕ → Result
registered_once s caller token n = register_device_selection_callback s caller token event_connect n

abbrev pub registered_twice : Service → ℕ → ℕ → ℕ → ℕ → Result
registered_twice s caller token n m =
    let (s', code, effects) = registered_once s caller token n in
    register_device_selection_callback s' caller token event_disconnect m

abbrev pub taken_back : Service → ℕ → ℕ → ℕ → ℕ → Result
taken_back s caller token n m =
    let (s', code, effects) = registered_twice s caller token n m in
    unregister_device_selection_callback s' caller token event_connect

abbrev pub effects_of : Result → List Effect
effects_of (s, code, effects) = effects

abbrev pub both : ℕ → ℕ → NotifierInfo
both n m = set_notifier event_disconnect (some m) (set_notifier event_connect (some n) no_notifier)

registered_twice_lem :
    (s : Service) (caller token n m : ℕ)
    → is_token_registered s caller token ≡ true
    → lookup token s.callback_map ≡ none
    → registered_twice s caller token n m ≡ (with_callbacks token (both n m) s, err_ok, [])
unfolding is_token_registered
registered_twice_lem s caller token n m r e =
    let info = set_notifier event_connect (some n) no_notifier in
    rw (
      first_callback s caller token n r e,
      second_callback (with_callbacks token info s) caller token m info r
          (lookup-insert_self token info s.callback_map) refl,
      insert-insert token (both n m) info s.callback_map,
    )

taken_back_lem :
    (s : Service) (caller token n m : ℕ)
    → is_token_registered s caller token ≡ true
    → lookup token s.callback_map ≡ none
    → taken_back s caller token n m ≡ (
      with_callbacks token (set_notifier event_connect none (both n m)) s,
      err_ok,
      remove_death_recipient n ∷ [],
    )
unfolding is_token_registered
taken_back_lem s caller token n m r e = rw (
  registered_twice_lem s caller token n m r e,
  third_callback (with_callbacks token (both n m) s) caller token n m (both n m) r
      (lookup-insert_self token (both n m) s.callback_map) refl refl,
  insert-insert token (set_notifier event_connect none (both n m)) (both n m) s.callback_map,
)

-- A token without callbacks whose caller registers one for connections, then one for disconnections, and
-- takes the first back: only the first notifier is ever watched, and it no longer is, while the second
-- stays registered, so that the death of its process goes unnoticed.
pub taken_back-unwatched :
    (s : Service) (caller token n m : ℕ)
    → is_token_registered s caller token ≡ true
    → lookup token s.callback_map ≡ none
    → (effects_of (registered_once s caller token n)
          ++ effects_of (registered_twice s caller token n m)
          ++ effects_of (taken_back s caller token n m)
        ≡ add_death_recipient n ∷ remove_death_recipient n ∷ [])
      × (notifier_of event_disconnect (lookup token (taken_back s caller token n m).0.callback_map)
          ≡ some m)
taken_back-unwatched s caller token n m r e = (
  rw (
    taken_back_lem s caller token n m r e,
    registered_twice_lem s caller token n m r e,
    first_callback s caller token n r e,
  ),
  rw (
    taken_back_lem s caller token n m r e,
    lookup-insert_self token (set_notifier event_connect none (both n m)) s.callback_map,
  ),
)

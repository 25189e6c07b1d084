-- ===== src/DschedCollab/Ending.antt =====
-- What an error does: it ends the collaboration, whatever comes between.
use Prim.Native.String.{String}
use dmsfwk.Prelude.{
  ◌∙◌, ℕ, zero, suc, ◌≡◌, refl, Bool, true, false, ◌||◌, some, List, [], ◌∷◌, ◌++◌, arith,
}
use dmsfwk.DschedCollab.{
  err_null_object, collab_ability_reject_err, notify_result_event, ability_reject_event,
  notify_prepare_result_event, StateType, source_get_peer_version_state, source_start_state,
  source_wait_result_state, source_wait_end_state, sink_get_version_state, sink_start_state,
  sink_connect_state, sink_wait_end_state, Code, Event, err_end_event, Collab, Answers, Result,
  post,
}
use dmsfwk.DschedCollab.Steps.{
  exe_src_get_peer_version, exe_src_get_version, exe_src_start, exe_start_ability,
  exe_ability_reject_error, exe_sink_prepare_result, exe_src_collab_result, exe_src_start_error,
  exe_src_wait_result_error, exe_sink_get_version, exe_sink_error, exe_disconnect, clean_up_session,
}
use dmsfwk.DschedCollab.States.{
  src_get_peer_version, src_start, src_wait_result, wait_end, sink_get_version, sink_start,
  sink_connect, execute_state, settle, process_event,
}
use dmsfwk.DschedCollab.Order.{execute_at}

abbrev pub is_err_end : Event → Bool
is_err_end (err_end_event result) = true
is_err_end _ = false

-- Whether an `ERR_END_EVENT` is among the first events of the queue.
unfoldable pub end_within : ℕ → List Event → Bool
end_within zero q = false
end_within (suc n) [] = false
end_within (suc n) (e ∷ q) = is_err_end e || end_within n q

pub end_within-append :
    (n : ℕ) (q : List Event) (e : Event) → end_within n q ≡ true → end_within n (q ++ e ∷ []) ≡ true
unfolding end_within
end_within-append zero q e h = h
end_within-append (suc n) [] e h = absurd (ground arith)
end_within-append (suc n) (x ∷ q) e h = ground (arith, end_within-append n q e)

-- What goes on holds the end, if it was there, keeps the token, and does not bring the collaboration back.
abbrev pub Keeps : ℕ → Collab → Collab → Type 0
Keeps n c c' =
    (end_within n c.queue ≡ true → end_within n c'.queue ≡ true)
    × (c.is_known ≡ false → c'.is_known ≡ false)
    × (c'.has_token ≡ c.has_token)

pub post-Keeps :
    (n : ℕ) (answers : Answers) (e : Event) (c : Collab) → Keeps n c (post answers e c).0
post-Keeps n answers e c = ground (arith, end_within-append n c.queue e)

module _ (n : ℕ) (answers : Answers) (c : Collab) where
  posted-end :
      (r : Code)
      → end_within n c.queue ≡ true
      → end_within n (c.queue ++ err_end_event r ∷ []) ≡ true
  posted-end r = end_within-append n c.queue (err_end_event r)

  src_get_peer_version-Keeps : (e : Event) → Keeps n c (src_get_peer_version answers e c).0
  unfolding src_get_peer_version exe_src_get_peer_version exe_src_get_version exe_src_start_error
      clean_up_session
  src_get_peer_version-Keeps e =
      ground (arith, posted-end answers.send_request, posted-end err_null_object)

  src_start-Keeps : (e : Event) → Keeps n c (src_start answers e c).0
  unfolding src_start exe_src_start exe_src_start_error clean_up_session
  src_start-Keeps e = ground arith

  collab_result-Keeps :
      (r : Code) (reason : String) → Keeps n c (exe_src_collab_result answers r reason c).0
  unfolding exe_src_collab_result clean_up_session
  collab_result-Keeps r reason = ground (arith, posted-end r)

  src_wait_result-Keeps : (e : Event) → Keeps n c (src_wait_result answers e c).0
  unfolding src_wait_result exe_src_wait_result_error clean_up_session
  src_wait_result-Keeps (notify_result_event r) = collab_result-Keeps r ""
  src_wait_result-Keeps (ability_reject_event reason) =
      collab_result-Keeps collab_ability_reject_err reason
  src_wait_result-Keeps e = ground arith

  wait_end-Keeps : (e : Event) → Keeps n c (wait_end answers e c).0
  unfolding wait_end exe_disconnect clean_up_session
  wait_end-Keeps e = ground arith

  sink_get_version-Keeps : (e : Event) → Keeps n c (sink_get_version answers e c).0
  unfolding sink_get_version exe_sink_get_version exe_sink_error clean_up_session
  sink_get_version-Keeps e = ground arith

  sink_start-Keeps : (e : Event) → Keeps n c (sink_start answers e c).0
  unfolding sink_start exe_start_ability exe_sink_error clean_up_session
  sink_start-Keeps e = ground (arith, posted-end answers.start_ability_ret)

  sink_prepare-Keeps : (r : Code) → Keeps n c (exe_sink_prepare_result answers r c).0
  unfolding exe_sink_prepare_result
  sink_prepare-Keeps r = ground (arith, posted-end r)

  sink_connect-Keeps : (e : Event) → Keeps n c (sink_connect answers e c).0
  unfolding sink_connect exe_ability_reject_error exe_sink_error clean_up_session
  sink_connect-Keeps (notify_prepare_result_event r) = sink_prepare-Keeps r
  sink_connect-Keeps e = ground arith

  execute_state-Keeps : (s : StateType) (e : Event) → Keeps n c (execute_state s answers e c).0
  unfolding execute_state
  execute_state-Keeps source_get_peer_version_state e = src_get_peer_version-Keeps e
  execute_state-Keeps source_start_state e = src_start-Keeps e
  execute_state-Keeps source_wait_result_state e = src_wait_result-Keeps e
  execute_state-Keeps source_wait_end_state e = wait_end-Keeps e
  execute_state-Keeps sink_get_version_state e = sink_get_version-Keeps e
  execute_state-Keeps sink_start_state e = sink_start-Keeps e
  execute_state-Keeps sink_connect_state e = sink_connect-Keeps e
  execute_state-Keeps sink_wait_end_state e = wait_end-Keeps e

settle-Keeps : (n : ℕ) (answers : Answers) (r : Result) → Keeps n r.0 (settle answers r).0
settle-Keeps n answers (c, code, effects) =
    ground (arith, end_within-append n c.queue (err_end_event code))

pub process_event-Keeps :
    (n : ℕ) (answers : Answers) (e : Event) (c : Collab) (s : StateType)
    → c.state ≡ some s
    → Keeps n c (process_event answers e c).0
unfolding process_event
process_event-Keeps n answers e c s at =
    let executed = execute_state-Keeps n answers c s e in
    let settled = settle-Keeps n answers (execute_state s answers e c) in
    let both : Keeps n c (settle answers (execute_state s answers e c)).0 =
      ((λ h. settled.0 (executed.0 h)), (λ h. settled.1 (executed.1 h)), settled.2 ∙ executed.2) in
    rw (execute_at answers e c s at) both

-- In each state the event of an error cleans a collaboration up that has a token.
execute_state-ends :
    (answers : Answers) (r : Code) (c : Collab) (s : StateType)
    → c.has_token ≡ true
    → (execute_state s answers (err_end_event r) c).0.is_known ≡ false
unfolding execute_state src_get_peer_version src_start src_wait_result wait_end sink_get_version
    sink_start sink_connect exe_src_start_error exe_src_wait_result_error exe_sink_error
    exe_disconnect clean_up_session
execute_state-ends answers r c source_get_peer_version_state named = rw named refl
execute_state-ends answers r c source_start_state named = rw named refl
execute_state-ends answers r c source_wait_result_state named = rw named refl
execute_state-ends answers r c source_wait_end_state named = rw named refl
execute_state-ends answers r c sink_get_version_state named = rw named refl
execute_state-ends answers r c sink_start_state named = rw named refl
execute_state-ends answers r c sink_connect_state named = rw named refl
execute_state-ends answers r c sink_wait_end_state named = rw named refl

pub process_event-ends :
    (answers : Answers) (r : Code) (c : Collab) (s : StateType)
    → c.state ≡ some s
    → c.has_token ≡ true
    → (process_event answers (err_end_event r) c).0.is_known ≡ false
unfolding process_event
process_event-ends answers r c s at named =
    let ended = execute_state-ends answers r c s named in
    let settled = settle-Keeps 0 answers (execute_state s answers (err_end_event r) c) in
    rw (execute_at answers (err_end_event r) c s at) (settled.1 ended)

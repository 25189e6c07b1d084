-- ===== src/CollabManager/Routing.antt =====
-- What goes to the collaborations of a client, of a socket, or of a command's token, and the timers.
pub mod Sockets
pub mod Links
use Prim.Native.String.{String}
use text.Mathlib.Text.{◌==◌ as str_eq}
use dmsfwk.Prelude.{
  ℕ, Bool, true, false, ◌&&◌, ◌||◌, Option, none, some, List, [], ◌∷◌, ◌==◌, lookup, insert,
  if◌then◌else◌,
}
use dmsfwk.DschedCollab.{
  sink_get_version_state, Code, err_ok, collab_ability_timeout_err, collab_session_shutdown, Collab,
  Effect, connect_device, Answers, NotifyResultCmd, update_state, init, post_sink_get_version_task,
  post_err_end_task, post_end_task,
}
use dmsfwk.DschedCollab.Steps.{Received, sink_start_recv, notify_result_recv, on_data_recv}
use dmsfwk.DschedCollab.States.{run_next}
use dmsfwk.CollabManager.{
  Entry, Manager, with_collab, store, emplace, new_sink, set_time_out, remove_timeout,
  get_dsched_collab_by_token_id,
}

-- The bundle of the source is compared on both sides.
abbrev pub is_source_of : ℕ → ℕ → Entry → Bool
is_source_of bundle pid e = (e.src_bundle_name == bundle) && (e.src_pid == pid)

abbrev pub is_sink_of : ℕ → ℕ → Entry → Bool
is_sink_of bundle pid e = (e.src_bundle_name == bundle) && (e.sink_pid == pid)

abbrev pub ended : Answers → Entry → Entry
ended answers e = with_collab e (post_end_task answers e.collab).0

-- The first collaboration of the client is told to end, and the code is what becomes of this event.
unfoldable pub handle_close_sessions : Answers → ℕ → ℕ → List (ℕ × Entry) → List (ℕ × Entry) × Code
handle_close_sessions answers bundle pid [] = ([], err_ok)
handle_close_sessions answers bundle pid ((token, e) ∷ collabs) =
    let (rest, code) = handle_close_sessions answers bundle pid collabs in
    if is_source_of bundle pid e || is_sink_of bundle pid e
    then ((token, ended answers e) ∷ collabs, (post_end_task answers e.collab).1)
    else ((token, e) ∷ rest, code)

-- Every collaboration of the client is told to end, twice where it is both sides; `PrivilegeShutdown`, a
-- call of SoftBus that comes before, is left out.
abbrev pub released : Answers → ℕ → ℕ → Entry → Entry
released answers bundle pid e =
    let e' = if is_source_of bundle pid e then ended answers e else e in
    if is_sink_of bundle pid e' then ended answers e' else e'

unfoldable pub handle_release_ability_link : Answers → ℕ → ℕ → List (ℕ × Entry) → List (ℕ × Entry)
handle_release_ability_link answers bundle pid [] = []
handle_release_ability_link answers bundle pid ((token, e) ∷ collabs) =
    (token, released answers bundle pid e) ∷ handle_release_ability_link answers bundle pid collabs

abbrev pub shut : Answers → ℕ → Entry → Entry
shut answers socket e =
    if e.softbus_session_id == socket
    then with_collab e (post_err_end_task answers collab_session_shutdown e.collab).0
    else e

-- The loop of `OnShutdown`
unfoldable pub shut_all : Answers → ℕ → List (ℕ × Entry) → List (ℕ × Entry)
shut_all answers socket [] = []
shut_all answers socket ((token, e) ∷ collabs) =
    (token, shut answers socket e) ∷ shut_all answers socket collabs

unfoldable pub on_shutdown : Answers → ℕ → Bool → Manager → Manager
unfolding shut_all
on_shutdown answers socket is_self_called m =
    if is_self_called
    then m
    else if m.has_handler
    then record m { collabs = shut_all answers socket m.collabs }
    else m

-- The timer of a token, which ends the collaboration that the token has then.
abbrev pub drop_first : ℕ → List ℕ → List ℕ
drop_first token [] = []
drop_first token (t ∷ ts) = if t == token then ts else t ∷ drop_first token ts

unfoldable pub on_time_out : Answers → ℕ → Manager → Manager
on_time_out answers token m =
    let m' : Manager = record m { timeouts = drop_first token m.timeouts } in
    elim (lookup token m.collabs) [
      | none ↦ m'
      | some e ↦ record m' {
        collabs =
            insert token
              (with_collab e (post_err_end_task answers collab_ability_timeout_err e.collab).0)
              m.collabs;
      }
    ]

-- A command as it comes: the token in it, the bundle and the process that it tells, and whether the data
-- can be read as a command for the version, for this device.
pub record Arrived : Type 0 where
  pub collab_token : ℕ
  pub received : Received
  pub arrived_bundle_name : ℕ
  pub arrived_pid : ℕ
  pub is_get_version : Bool
  pub is_for_here : Bool

-- What `SetSinkCollabInfo` and `PostSrcResultTask` store in the information.
abbrev pub informed : Arrived → Entry → Entry
informed a e = elim a.received [
  | sink_start_recv err_ok ↦ record e {
    src_bundle_name = a.arrived_bundle_name;
    src_pid = a.arrived_pid;
  }
  | notify_result_recv err_ok cmd ↦
      if e.collab.has_handler && str_eq cmd.ability_reject_reason ""
      then record e { sink_pid = a.arrived_pid }
      else e
  | _ ↦ e
]

abbrev pub is_notify_result : Received → Bool
is_notify_result (notify_result_recv read cmd) = true
is_notify_result _ = false

-- The first collaboration with the socket and the token.
unfoldable pub find_collab : ℕ → ℕ → List (ℕ × Entry) → Option Entry
find_collab socket token [] = none
find_collab socket token ((t, e) ∷ collabs) =
    if (e.softbus_session_id == socket) && (t == token)
    then some e
    else find_collab socket token collabs

-- A collaboration for a source that asks for the version.
abbrev pub new_collab : Answers → ℕ → Arrived → Manager → Manager
new_collab answers socket a m =
    let c = update_state sink_get_version_state (init (new_sink a.collab_token)) in
    let e : Entry = record {
      collab = (post_sink_get_version_task answers c).0;
      softbus_session_id = socket;
      src_bundle_name = 0;
      src_pid = a.arrived_pid;
      sink_pid = 0;
    } in
    set_time_out a.collab_token (record m { collabs = emplace a.collab_token e m.collabs })

unfoldable pub notify_data_recv : Answers → ℕ → Arrived → Manager → Manager
notify_data_recv answers socket a m = elim (find_collab socket a.collab_token m.collabs) [
  | some e ↦
      let m' =
        store a.collab_token
          (with_collab (informed a e) (on_data_recv answers a.received e.collab).0) m in
      if is_notify_result a.received then remove_timeout a.collab_token m' else m'
  | none ↦ if a.is_get_version && a.is_for_here then new_collab answers socket a m else m
]

abbrev pub has_connected : List Effect → Bool
has_connected [] = false
has_connected (connect_device ∷ es) = true
has_connected (e ∷ es) = has_connected es

-- The thread of one collaboration takes its next event; `ConnectDevice` sets the session.
unfoldable pub run_collab : Answers → ℕ → ℕ → Manager → Manager
run_collab answers session token m = elim (lookup token m.collabs) [
  | none ↦ m
  | some e ↦
      let (c, effects) = run_next answers e.collab in
      let e' : Entry = record e {
        collab = c;
        softbus_session_id = if has_connected effects then session else e.softbus_session_id;
      } in
      store token e' m
]

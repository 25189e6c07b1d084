-- ===== src/ContinueManager/Start.antt =====
-- How the manager starts a continuation: the requests, their tasks, and what it does until the timer runs.
use dmsfwk.Prelude.{
  ℕ, Bool, true, false, not, ◌&&◌, ◌||◌, Option, none, some, List, [], ◌∷◌, ◌++◌, ◌==◌, lookup,
  insert, erase, if◌then◌else◌,
}
use dmsfwk.Continue.{
  Direction, source, sink, SubService, pull, push, Code, err_ok, invalid_parameters_err,
  invalid_remote_parameters_err, operation_device_not_initiator_or_target, Continue, Answers,
  post_start_task,
}
use dmsfwk.Continue as Continue
use dmsfwk.ContinueManager.{
  DschedContinueInfo, Entry, DmsAbilityInfo, System, Manager, mission_task, bundle_task,
  time_out_task, increment, key, post_checked, notify_all_connect_decision,
  check_continuation_limit,
}

-- The checks of a request: the devices are named, there is a callback, and the other device is known.
unfoldable pub check_request : System → ℕ → ℕ → Bool → Code
check_request system src dst has_callback =
    if src == 0 || dst == 0 || not has_callback
    then invalid_parameters_err
    else elim system.local_device_id [
      | none ↦ invalid_parameters_err
      | some local ↦
          if not (local == src) && not (local == dst)
          then operation_device_not_initiator_or_target
          else if system.has_device_info (if local == src then dst else src)
          then err_ok
          else invalid_remote_parameters_err
    ]

unfoldable pub continue_mission : System → ℕ → ℕ → ℕ → Bool → Manager → Manager × Code
continue_mission system src dst mission has_callback m =
    post_checked (check_request system src dst has_callback)
      (mission_task src dst mission has_callback) m

-- On the source, the mission of the bundle is to be found.
abbrev pub is_mission_found : System → DschedContinueInfo → Bool
is_mission_found system info = elim system.local_device_id [
  | none ↦ true
  | some local ↦
      if local == info.source_device_id
      then elim (system.get_mission_id_by_bundle_name info.sink_bundle_name) [
        | none ↦ false
        | some id ↦ true
      ]
      else true
]

unfoldable pub check_request_info : System → DschedContinueInfo → Bool → Code
check_request_info system info has_callback =
    elim (check_request system info.source_device_id info.sink_device_id has_callback) [
      | err_ok ↦ if is_mission_found system info then err_ok else invalid_parameters_err
      | failed ↦ failed
    ]

unfoldable pub continue_mission_info : System → DschedContinueInfo → Bool → Manager → Manager × Code
continue_mission_info system info has_callback m =
    post_checked (check_request_info system info has_callback) (bundle_task info has_callback) m

-- The constructor for a request of this device.
abbrev pub new_continue : SubService → Direction → DschedContinueInfo → Entry
new_continue sub_type direction info = record {
  continuation = record {
    direction = direction;
    sub_service = sub_type;
    state = none;
    has_handler = false;
    queue = [];
    mission_id = info.info_mission_id;
    sink_mission_id = 0;
    is_source_exit = true;
  };
  continue_info = info;
  softbus_session_id = 0;
}

unfoldable pub has_type : ℕ → List ℕ → Bool
has_type continue_type [] = false
has_type continue_type (t ∷ types) =
    if t == continue_type then true else has_type continue_type types

-- The first name of the first ability that continues the type and has names.
unfoldable pub first_name : ℕ → List DmsAbilityInfo → Option ℕ
first_name continue_type [] = none
first_name continue_type (a ∷ abilities) =
    let rest = first_name continue_type abilities in
    elim a.continue_bundle_names [
      | [] ↦ rest
      | name ∷ names ↦ if has_type continue_type a.ability_continue_types then some name else rest
    ]

unfoldable pub get_first_bundle_name : System → DschedContinueInfo → ℕ → ℕ → Option ℕ
get_first_bundle_name system info bundle_name device_id =
    elim (system.get_distributed_bundle_info device_id bundle_name) [
      | none ↦ none
      | some abilities ↦ first_name info.continue_type abilities
    ]

abbrev pub set_time_out : System → DschedContinueInfo → Bool → Manager → Manager
set_time_out system info is_later m =
    if m.has_handler
    then if is_later
      then record m { timers = m.timers ++ (system.task_name info, info) ∷ [] }
      else record m { tasks = m.tasks ++ time_out_task info ∷ [] }
    else m

abbrev pub peer_device_id : Direction → DschedContinueInfo → ℕ
peer_device_id source info = info.sink_device_id
peer_device_id sink info = info.source_device_id

abbrev pub forget_decision : ℕ → Manager → Manager
forget_decision peer m = record m { peer_connect_decision = erase peer m.peer_connect_decision }

-- The decisions that come while the manager waits; it stops at the first that allows the peer.
unfoldable pub wait_for : ℕ → List (ℕ × Bool) → Manager → Manager
wait_for peer [] m = m
wait_for peer ((device, is_support) ∷ decisions) m =
    let m' = notify_all_connect_decision device is_support m in
    let rest = wait_for peer decisions m' in if device == peer && is_support then m' else rest

abbrev pub after_wait : Option Bool → System → ℕ → DschedContinueInfo → Manager → Manager
after_wait none system peer info m = set_time_out system info false m
after_wait (some allowed) system peer info m =
    set_time_out system info allowed (forget_decision peer m)

unfoldable pub wait_all_connect_decision :
    System → List (ℕ × Bool) → Direction → DschedContinueInfo → Manager → Manager
wait_all_connect_decision system decisions direction info m =
    let peer = peer_device_id direction info in
    let m' = wait_for peer decisions m in
    after_wait (lookup peer m'.peer_connect_decision) system peer info m'

abbrev pub sub_type_of : Direction → SubService
sub_type_of source = push
sub_type_of sink = pull

-- The count of the direction goes up.
abbrev pub count : Direction → Manager → Manager
count source m = record m { cnt_source = increment m.cnt_source }
count sink m = record m { cnt_sink = increment m.cnt_sink }

-- A pull without the bundle of the source gets it from the bundles of the sink.
unfoldable pub with_source_bundle : System → Direction → DschedContinueInfo → DschedContinueInfo
with_source_bundle system source info = info
with_source_bundle system sink info =
    if info.source_bundle_name == 0
    then elim (get_first_bundle_name system info info.sink_bundle_name info.sink_device_id) [
      | none ↦ info
      | some name ↦ record info { source_bundle_name = name }
    ]
    else info

-- The new continuation, with the thread that it starts and the start that it posts to itself.
abbrev pub started : Answers → Direction → DschedContinueInfo → Entry
started answers direction info =
    let e = new_continue (sub_type_of direction) direction info in
    record e { continuation = (post_start_task answers (Continue.init e.continuation)).0 }

-- The table with the new continuation.
unfoldable pub enter : System → Answers → Direction → DschedContinueInfo → Manager → Manager
enter system answers direction info m =
    forget_decision (peer_device_id direction info) (record m {
      continues = insert (key system info) (started answers direction info) m.continues;
    })

unfoldable pub start_counted :
    System → Answers → List (ℕ × Bool) → Direction → DschedContinueInfo → Manager → Manager
start_counted system answers decisions direction info m =
    elim (lookup (key system info) m.continues) [
      | some old ↦ m
      | none ↦
          wait_all_connect_decision system decisions direction info
            (enter system answers direction info m)
    ]

-- What the limit says.
abbrev pub admit :
    Code × Direction → System → Answers → List (ℕ × Bool) → DschedContinueInfo → Manager → Manager
admit (err_ok, direction) system answers decisions info m =
    start_counted system answers decisions direction (with_source_bundle system direction info)
      (count direction m)
admit (failed, direction) system answers decisions info m = m

unfoldable pub handle_continue_mission_with_bundle_name :
    System → Answers → List (ℕ × Bool) → DschedContinueInfo → Manager → Manager
handle_continue_mission_with_bundle_name system answers decisions info m =
    admit (check_continuation_limit system info.source_device_id info.sink_device_id m) system
      answers decisions info m

-- The bundles of the mission, where this device is the source.
abbrev pub with_mission_bundle : System → ℕ → DschedContinueInfo → DschedContinueInfo
with_mission_bundle system local info = elim (system.get_mission_info info.info_mission_id) [
  | none ↦ info
  | some bundle ↦
      if info.source_device_id == local
      then record info { source_bundle_name = bundle; sink_bundle_name = bundle }
      else info
]

abbrev pub mission_info : ℕ → ℕ → ℕ → DschedContinueInfo
mission_info src dst mission = record {
  source_device_id = src;
  source_bundle_name = 0;
  sink_device_id = dst;
  sink_bundle_name = 0;
  continue_type = 0;
  sink_ability_name = 0;
  info_mission_id = mission;
}

unfoldable pub handle_continue_mission :
    System → Answers → List (ℕ × Bool) → ℕ → ℕ → ℕ → Bool → Manager → Manager
handle_continue_mission system answers decisions src dst mission has_callback m =
    if src == 0 || dst == 0 || not has_callback then m else elim system.local_device_id [
      | none ↦ m
      | some local ↦
          handle_continue_mission_with_bundle_name system answers decisions
            (with_mission_bundle system local (mission_info src dst mission)) m
    ]

-- The information as the other constructor has it: no mission and no ability, and a bundle of the source.
abbrev pub bundle_info : DschedContinueInfo → DschedContinueInfo
bundle_info info = record {
  source_device_id = info.source_device_id;
  source_bundle_name =
      if info.source_bundle_name == 0 then info.sink_bundle_name else info.source_bundle_name;
  sink_device_id = info.sink_device_id;
  sink_bundle_name = info.sink_bundle_name;
  continue_type = info.continue_type;
  sink_ability_name = 0;
  info_mission_id = 0;
}

unfoldable pub handle_continue_mission_info :
    System → Answers → List (ℕ × Bool) → DschedContinueInfo → Bool → Manager → Manager
handle_continue_mission_info system answers decisions info has_callback m =
    if info.source_device_id == 0 || info.sink_device_id == 0 || not has_callback
    then m
    else handle_continue_mission_with_bundle_name system answers decisions (bundle_info info) m

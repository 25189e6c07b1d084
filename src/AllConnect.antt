-- ===== src/AllConnect.antt =====
-- services/dtbschedmgr/src/softbus_adapter/allconnectmgr/dsched_all_connect_manager.cpp: the requests for a
-- connection to a peer, which the all-connect service answers later, in order. Numbers stand for the
-- peers. The service's library is a parameter: whether it is there, and the codes of its calls.
pub mod Decisions
use dmsfwk.Prelude.{
  ℕ, Bool, true, false, Option, none, some, List, [], ◌∷◌, ◌++◌, lookup, insert, erase,
  if◌then◌else◌,
}

pub data ApplyCode : Type 0 where
  err_ok dms_connect_apply_timeout_failed dms_connect_apply_reject_failed : ApplyCode
  -- any other code of the service's library
  library_failed : ℕ → ApplyCode

pub data ResultCode : Type 0 where
  pass reject : ResultCode

-- Whether the library is loaded, the peers whose requests wait for a result, and the decisions that
-- nobody has taken yet.
pub record AllConnect : Type 0 where
  pub has_library : Bool
  pub peer_connect_cb_queue : List ℕ
  pub peer_connect_decision : List (ℕ × Bool)

abbrev pub decided : Bool → ApplyCode
decided true = err_ok
decided false = dms_connect_apply_reject_failed

-- `WaitAllConnectApplyCb` from the end of its wait on: there is a decision, or the time has passed.
unfoldable pub wait_all_connect_apply_cb : ℕ → AllConnect → AllConnect × ApplyCode
wait_all_connect_apply_cb peer m = elim (lookup peer m.peer_connect_decision) [
  | none ↦ (m, dms_connect_apply_timeout_failed)
  | some is_support ↦
      (record m { peer_connect_decision = erase peer m.peer_connect_decision }, decided is_support)
]

-- `WaitAllConnectApplyCb` when it is called: it ends at once where a decision of the peer is left over,
-- and waits elsewhere, which is `none`.
unfoldable pub begin_wait : ℕ → AllConnect → AllConnect × Option ApplyCode
begin_wait peer m = elim (lookup peer m.peer_connect_decision) [
  | none ↦ (m, none)
  | some is_support ↦ let (m', code) = wait_all_connect_apply_cb peer m in (m', some code)
]

-- `ApplyAdvanceResource` until it returns or waits, with the code of the library: `none` where it waits.
unfoldable pub apply_advance_resource : ApplyCode → ℕ → AllConnect → AllConnect × Option ApplyCode
apply_advance_resource applied peer m =
    let pushed : AllConnect = record m {
      peer_connect_cb_queue = m.peer_connect_cb_queue ++ peer ∷ [];
    } in
    let waiting = begin_wait peer pushed in
    if m.has_library
    then elim applied [ err_ok ↦ waiting | failed ↦ (pushed, some failed) ]
    else (m, some err_ok)

abbrev pub notify_all_connect_decision : ℕ → Bool → AllConnect → AllConnect
notify_all_connect_decision peer is_support m = record m {
  peer_connect_decision = insert peer is_support m.peer_connect_decision;
}

abbrev pub is_pass : ResultCode → Bool
is_pass pass = true
is_pass reject = false

-- A result goes to the peer at the front of the queue.
abbrev pub give_result : List ℕ → Bool → AllConnect → AllConnect
give_result [] is_support m = m
give_result (peer ∷ peers) is_support m = record (notify_all_connect_decision peer is_support m) {
  peer_connect_cb_queue = peers;
}

unfoldable pub apply_result : ResultCode → AllConnect → AllConnect
apply_result result m = give_result m.peer_connect_cb_queue (is_pass result) m

-- ===== src/Lib.antt =====
-- dmsfwk: the distributed scheduler's transport, continuations and the collaboration channel.
--
-- The program moves running abilities between devices. Its services send each other messages over
-- SoftBus, which limits the size of a packet. Two parts cut messages into packets and put them together
-- again, each with its own header.
--
--   Buffer: the buffer classes of services/dtbschedmgr/src/softbus_adapter/transport/
--     dsched_data_buffer.cpp and services/dtbcollabmgr/src/channel_manager/av_trans_data_buffer.cpp, as
--     lists of bytes, and `memcpy_s`, the bounds-checked copy of the C standard (Annex K).
--   Transport: services/dtbschedmgr/src/softbus_adapter/transport. Header, Sender and Receiver are the
--     class `DSchedSoftbusSession` of dsched_softbus_session.cpp: `make_frag_data_header` and
--     `get_frag_data_header` for its header, `un_pack_send_data` for sending, `pack_recv_data` for
--     receiving. Adapter is `DSchedTransportSoftbusAdapter`: the sessions by socket, with their reference
--     counts, and the listeners.
--   Collab: services/dtbcollabmgr/src/channel_manager. Header is session_data_header.cpp; Sender and
--     Receiver are the class `DataSenderReceiver` of data_sender_receiver.cpp, with `process_recv_data`
--     for `ProcessRecvData` of channel_manager.cpp.
--   Continue: services/dtbschedmgr/src/continue. Continue, Execute and States are the class
--     `DSchedContinue` of dsched_continue.cpp with its state machine in state: the queue of events, what
--     each event does (`execute_continue_req` to `execute_continue_end`), and which events each of the
--     eight states admits. Order, Runs, Ending and Notices hold the proofs.
--   ContinueManager: `DSchedContinueManager` of dsched_continue_manager.cpp there. Start has the requests of
--     this device and the limit on them; Routing what comes for a continuation of the table, and its end;
--     Threads the queue of tasks, the timers, and `run_continue`, in which the thread of one continuation
--     takes its next event; Callbacks the callbacks for the quick start. A key is the place of
--     the four names, joined with nothing between them as in `operator <`. Counts and its children,
--     TimesOut and Uncounted hold the proofs.
--   MissionConditions: services/dtbschedmgr/src/mission/dms_continue_condition_manager.cpp, the class
--     `DmsContinueConditionMgr`: the missions of each user with the events that change them, and in Conditions
--     when a mission may be offered and which one is taken for a bundle. Focus, Steps, Current, Runs and
--     LastFocus hold the proofs. ContinueManager takes its answers as arguments.
--   SendManager: services/dtbschedmgr/src/mission/notification, the class `DMSContinueSendMgr` of
--     dms_continue_send_manager.cpp with the strategies of dms_continue_send_strategy.cpp (Strategies), which
--     ask MissionConditions whether to broadcast; `notify_data_recv` is how dms_continue_recv_manager.cpp
--     reads a broadcast. Offers and Forgotten hold the proofs.
--   DschedCollab: services/dtbschedmgr/src/collab. DschedCollab, Steps and States are the class
--     `DSchedCollab` of dsched_collab.cpp with its state machine in state: the queue of events, what each
--     event does (`exe_src_get_peer_version` to `exe_disconnect`), what the other device's commands post,
--     and which events each of the eight states admits. Order, Ending, Runs and Failures hold the proofs.
--   CollabManager: `DSchedCollabManager` of dsched_collab_manager.cpp there: the table of collaborations by
--     token, the timers, and in Routing what comes for a client, a socket or a token. `run_collab` lets the
--     thread of one collaboration take its next event. Relations is the check of the softbus's
--     relation checker. Table, Kept, Steps, Timers, Routing/Sockets and Routing/Links hold the proofs.
--   AllConnect: services/dtbschedmgr/src/softbus_adapter/allconnectmgr, the class `DSchedAllConnectManager`:
--     the queue of requests and the decisions. A call of `apply_advance_resource` returns at once or waits
--     (`begin_wait`); `wait_all_connect_apply_cb` is the end of the wait. Decisions holds the proofs.
--   AbilityManager: services/dtbabilitymgr. The class `DistributedAbilityManagerService` of
--     distributed_ability_manager_service.cpp: Tokens (`register`, `unregister`), Callbacks (the callbacks
--     of a token, with notifier_info.cpp), Panel (`start_device_manager`, the connection to the panel and
--     what the panel reports) and Tasks (the queue of tasks, the death of a client, and `step` for all
--     the calls). Clients and the children of Tokens and Callbacks hold the proofs.
--   Version: services/dtbschedmgr/src/dms_version_manager.cpp, the class `DmsVersionManager`, with the
--     device profile, the JSON library and the string utilities as parameters.
--   Prelude and Tests: the shared names, and the theorems at concrete inputs.
--
-- A continuation sends its commands through the adapter of Transport and ends by disconnecting there;
-- Continue takes the adapter's answers as arguments, like those of the other services.
--
-- State is a record that a function takes and returns. What other components answer (SoftBus, the
-- other services, the device storage) is an argument; what a function asks of them is in its
-- result, in order: the packets sent, or a list of effects. Unsigned arithmetic wraps where it is
-- written with `% 2 ^ 32`. Values in headers are copied from memory, so the host is little-endian.
-- A read past the end of a list of bytes, or a use of a null buffer, is a result of its own.
--
-- Loops run on fuel: 50 rounds for the 49 bytes of a header, 57 rounds for the other header, whose
-- items take four bytes at least, and for a message a round for each byte and one more. A packet
-- whose buffer cannot be made, with 80 MB or more, counts as a failed copy.
--
-- Not modelled: logs and time stamps, locks (each operation is one step), the set-up of sockets, the
-- sending of streams and files, and the other services of the repository.
mod Prelude
mod Tests
pub mod Buffer
pub mod Transport
pub mod Collab
pub mod Continue
pub mod ContinueManager
pub mod MissionConditions
pub mod SendManager
pub mod Version
pub mod AbilityManager
pub mod DschedCollab
pub mod CollabManager
pub mod AllConnect

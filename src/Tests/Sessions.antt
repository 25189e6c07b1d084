-- ===== src/Tests/Sessions.antt =====
-- dsched_transport_softbus_adapter.cpp: a device with one session that two callers hold.

use dmsfwk.Prelude.{
  Ascending, ◌≡◌, ◌≢◌, refl, true, false, none, some, [], ◌∷◌, lookup, insert, arith,
}
use dmsfwk.Transport.Receiver.{reset_assemble_frag}
use dmsfwk.Transport.Adapter.{
  contains, Adapter, Answers, Channel, ok, continue, find_peer, is_need_all_connect,
  add_new_peer_session, create_session_record, register_listener, unregister_listener,
  connect_device, disconnect_device,
}
use dmsfwk.Transport.Adapter.Listeners.{is_registered, unregister_listener-register_listener}
use dmsfwk.Transport.Adapter.Refcount.{
  Held, step, binds, disconnect_device-connect_device, step-Held,
}

abbrev channel : Channel
channel = record {
  peer_device_id = "tablet";
  is_server = false;
  ref_count = 2;
  session = reset_assemble_frag;
}

abbrev adapter : Adapter
adapter = record {
  sessions = (4, channel) ∷ [];
  listeners = (1, 10 ∷ []) ∷ [];
  server_socket = 3;
  is_all_connect_exist = true;
  collab_all_connect_decisions = false;
}

abbrev answers : Answers
answers = record {
  is_wifi_active = true;
  apply_resource = ok;
  socket = 6;
  bind = ok;
  has_local_device_id = true;
}

adapter-Held : Held 0 adapter.sessions
adapter-Held = (omega arith, omega arith, tt)

connected : (connect_device adapter answers "phone" continue).ret ≡ ok
unfolding connect_device find_peer is_need_all_connect add_new_peer_session create_session_record
    insert
connected = refl

fresh : lookup 6 adapter.sessions ≡ none
unfolding lookup
fresh = refl

disconnect_device-connect_device_example :
    (disconnect_device (connect_device adapter answers "phone" continue).adapter "phone").0.sessions
    ≡ adapter.sessions
disconnect_device-connect_device_example =
    disconnect_device-connect_device adapter answers "phone" continue adapter-Held fresh connected

step-Held_example : Held 0 (step adapter (binds 2 "watch" true)).sessions
step-Held_example = step-Held adapter (binds 2 "watch" true) (omega arith) adapter-Held

listeners-Ascending : Ascending 0 adapter.listeners
listeners-Ascending = (omega arith, tt)

not_empty : lookup 1 adapter.listeners ≢ some []
unfolding lookup
not_empty = λ e. cc

new_listener : is_registered (lookup 1 adapter.listeners) 12 ≡ false
unfolding contains lookup
new_listener = refl

unregister_listener-register_listener_example :
    unregister_listener (register_listener adapter 1 (some 12)) 1 (some 12) ≡ adapter
unregister_listener-register_listener_example =
    unregister_listener-register_listener adapter 1 12 listeners-Ascending not_empty new_listener

-- ===== src/Transport/Adapter.antt =====
-- dsched_transport_softbus_adapter.cpp: the sessions of a device, by socket number, and the listeners
-- for what they receive. What SoftBus, the all-connect manager and the device storage answer is an
-- argument; what the adapter asks of them and of its listeners is a list of effects, in order.
pub mod Refcount
pub mod Listeners
use Prim.Native.String.{String}
use text.Mathlib.Text.{◌==◌ as str_eq}
use dmsfwk.Prelude.{
  ℕ, ◌+◌, ◌-◌, ◌%◌, ◌^◌, Bool, true, false, ◌&&◌, ◌||◌, Option, none, some, List, [], ◌∷◌, ◌++◌,
  map, length, ltb, leb, ◌==◌, lookup, insert, erase, if◌then◌else◌,
}
use dmsfwk.Buffer.{new_buffer, memcpy_s}
use dmsfwk.Transport.Header.{SessionDataHeader}
use dmsfwk.Transport.Receiver.{Session, Ready, reset_assemble_frag, pack_recv_data}

pub data ServiceType : Type 0 where
  invalid continue collab : ServiceType

-- `other n` is any code of another component but `ERR_OK`.
pub data Status : Type 0 where
  ok remote_device_bind_ability_err get_local_device_err : Status
  other : ℕ → Status

-- The fields of `DSchedSoftbusSession` that the adapter uses; `ref_count` is the pattern of an `int32_t`.
pub record Channel : Type 0 where
  pub peer_device_id : String
  pub is_server : Bool
  pub ref_count : ℕ
  pub session : Session

pub record Adapter : Type 0 where
  pub sessions : List (ℕ × Channel)
  pub listeners : List (ℕ × List ℕ)
  pub server_socket : ℕ
  pub is_all_connect_exist : Bool
  pub collab_all_connect_decisions : Bool  -- the build option

pub data Effect : Type 0 where
  -- `Shutdown` of SoftBus
  shutdown : ℕ → Effect
  -- `OnShutdown` of a listener
  session_shutdown : ℕ → ℕ → Bool → Effect
  -- `NotifyAllConnectDecision` of the manager of a service
  decision : ServiceType → String → Effect
  -- `OnDataRecv` of a listener
  data_recv : ℕ → ℕ → List ℕ → Effect

-- What a call of `ConnectDevice` is answered. A socket number that is not positive is 0 here.
pub record Answers : Type 0 where
  pub is_wifi_active : Bool
  pub apply_resource : Status
  pub socket : ℕ
  pub bind : Status
  pub has_local_device_id : Bool

-- The state after the call, its code, the session number that it sets (`none` is not positive) and
-- its effects.
pub record Connected : Type 0 where
  pub adapter : Adapter
  pub ret : Status
  pub session_id : Option ℕ
  pub effects : List Effect

-- `OnConnect` and `OnDisconnect` step the count of 32 bits, and a pattern from 2 ^ 31 on is negative.
unfoldable pub count_up : ℕ → ℕ
count_up n = (n + 1) % 2 ^ 32

unfoldable pub count_down : ℕ → ℕ
count_down n = (n + (2 ^ 32 - 1)) % 2 ^ 32

unfoldable pub is_in_use : ℕ → Bool
is_in_use n = ltb 0 n && ltb n (2 ^ 31)

unfoldable pub new_channel : String → Bool → Channel
new_channel peer is_server = record {
  peer_device_id = peer;
  is_server = is_server;
  ref_count = 1;
  session = reset_assemble_frag;
}

-- The first session with the device, in the order of the map.
unfoldable pub find_peer : String → List (ℕ × Channel) → Option (ℕ × Channel)
find_peer peer [] = none
find_peer peer ((id, c) ∷ m) =
    if str_eq peer c.peer_device_id then some (id, c) else find_peer peer m

unfoldable pub is_need_all_connect : Adapter → Bool → ServiceType → Bool
is_need_all_connect a is_wifi_active continue = a.is_all_connect_exist && is_wifi_active
is_need_all_connect a is_wifi_active _ =
    a.collab_all_connect_decisions && (a.is_all_connect_exist && is_wifi_active)

abbrev decision_for : ServiceType → String → List Effect
decision_for invalid peer = []
decision_for type peer = decision type peer ∷ []

abbrev notify_connect_decision : Adapter → Bool → ServiceType → String → List Effect
notify_connect_decision a is_wifi_active type peer =
    if is_need_all_connect a is_wifi_active type then decision_for type peer else []

unfoldable pub create_session_record :
    Adapter → ℕ → String → Bool → Bool → Adapter × Status × List Effect
create_session_record a id peer is_server has_local_device_id =
    if has_local_device_id
    then (record a { sessions = insert id (new_channel peer is_server) a.sessions }, ok, [])
    else (a, get_local_device_err, shutdown id ∷ [])

abbrev failed_session : Adapter → Status → ℕ → List Effect → Connected
failed_session a ret id before = record {
  adapter = a;
  ret = ret;
  session_id = none;
  effects = before ++ shutdown id ∷ [];
}

unfoldable pub add_new_peer_session : Adapter → Answers → String → Connected
unfolding create_session_record
add_new_peer_session a answers peer =
    if answers.socket == 0
    then record {
      adapter = a;
      ret = remote_device_bind_ability_err;
      session_id = none;
      effects = [];
    }
    else elim answers.bind [
      | ok ↦
          let (a', ret, before) =
            create_session_record a answers.socket peer false answers.has_local_device_id in
          elim ret [
            | ok ↦ record {
              adapter = a';
              ret = ok;
              session_id = some answers.socket;
              effects = before;
            }
            | failed ↦ failed_session a' failed answers.socket before
          ]
      | failed ↦ failed_session a failed answers.socket []
    ]

unfoldable pub connect_device : Adapter → Answers → String → ServiceType → Connected
unfolding find_peer is_need_all_connect add_new_peer_session
connect_device a answers peer type = elim (find_peer peer a.sessions) [
  | some (id, c) ↦ record {
    adapter = record a {
      sessions = insert id (record c { ref_count = count_up c.ref_count }) a.sessions;
    };
    ret = ok;
    session_id = some id;
    effects = notify_connect_decision a answers.is_wifi_active type peer;
  }
  | none ↦
      if is_need_all_connect a answers.is_wifi_active type
      then elim answers.apply_resource [
        | ok ↦
            let added = add_new_peer_session a answers peer in
            record added {
              effects = notify_connect_decision a answers.is_wifi_active type peer ++ added.effects;
            }
        | failed ↦ record {
          adapter = a;
          ret = failed;
          session_id = none;
          effects = notify_connect_decision a answers.is_wifi_active type peer;
        }
      ]
      else add_new_peer_session a answers peer
]

-- Every listener of every type, in the order of the map.
unfoldable pub notify_listeners_session_shutdown : List (ℕ × List ℕ) → ℕ → Bool → List Effect
notify_listeners_session_shutdown [] id is_self_called = []
notify_listeners_session_shutdown ((type, ls) ∷ m) id is_self_called =
    map (λ l. session_shutdown l id is_self_called) ls
    ++ notify_listeners_session_shutdown m id is_self_called

unfoldable pub disconnect_device : Adapter → String → Adapter × List Effect
unfolding find_peer
disconnect_device a peer = elim (find_peer peer a.sessions) [
  | none ↦ (a, [])
  | some (id, c) ↦
      let ref_count = count_down c.ref_count in
      if id == 0
      then (a, [])
      else if is_in_use ref_count
      then (record a { sessions = insert id (record c { ref_count = ref_count }) a.sessions }, [])
      else (
        record a { sessions = erase id a.sessions },
        shutdown id ∷ notify_listeners_session_shutdown a.listeners id true,
      )
]

unfoldable pub on_bind : Adapter → ℕ → String → Bool → Adapter × List Effect
on_bind a id peer has_local_device_id =
    let (a', ret, effects) = create_session_record a id peer true has_local_device_id in
    (a', effects)

unfoldable pub on_shutdown : Adapter → ℕ → Bool → Adapter × List Effect
on_shutdown a id is_self_called = elim (lookup id a.sessions) [
  | none ↦ (a, [])
  | some c ↦ (
    record a { sessions = erase id a.sessions },
    shutdown id ∷ notify_listeners_session_shutdown a.listeners id is_self_called,
  )
]

unfoldable pub release_channel : Adapter → Adapter × List Effect
release_channel a = (
  record a { sessions = []; server_socket = 0 },
  map (λ (e : ℕ × Channel). shutdown e.0) a.sessions ++ shutdown a.server_socket ∷ [],
)

unfoldable pub on_data_ready : Adapter → ℕ → ℕ × List ℕ → List Effect
on_data_ready a id (type, message) = elim (lookup type a.listeners) [
  | none ↦ []
  | some ls ↦ map (λ l. data_recv l id message) ls
]

unfoldable pub all_data_ready : Adapter → ℕ → Ready → List Effect
unfolding on_data_ready
all_data_ready a id [] = []
all_data_ready a id (r ∷ rs) = on_data_ready a id r ++ all_data_ready a id rs

-- 104857600
abbrev pub dsched_max_recv_data_len : ℕ
dsched_max_recv_data_len = 104_857_600

-- `none` is a use of a null `packBuffer_` in the session.
unfoldable pub on_bytes : SessionDataHeader → Adapter → ℕ → List ℕ → Option (Adapter × List Effect)
unfolding all_data_ready
on_bytes g a id bytes =
    if length bytes == 0 || ltb dsched_max_recv_data_len (length bytes)
    then some (a, [])
    else elim (lookup id a.sessions) [
      | none ↦ some (a, [])
      | some c ↦ elim (memcpy_s (new_buffer (length bytes)) 0 bytes) [
        | none ↦ some (a, [])
        | some buffer ↦ elim (pack_recv_data g c.session buffer) [
          | none ↦ none
          | some (s, ready) ↦ some (
            record a { sessions = insert id (record c { session = s }) a.sessions },
            all_data_ready a id ready,
          )
        ]
      ]
    ]

unfoldable pub contains : ℕ → List ℕ → Bool
contains l [] = false
contains l (x ∷ xs) = x == l || contains l xs

unfoldable pub remove_first : ℕ → List ℕ → List ℕ
remove_first l [] = []
remove_first l (x ∷ xs) = if x == l then xs else x ∷ remove_first l xs

-- `none` is the null listener.
unfoldable pub register_listener : Adapter → ℕ → Option ℕ → Adapter
unfolding contains
register_listener a type none = a
register_listener a type (some l) = elim (lookup type a.listeners) [
  | none ↦ record a { listeners = insert type (l ∷ []) a.listeners }
  | some ls ↦
      if contains l ls then a else record a { listeners = insert type (ls ++ l ∷ []) a.listeners }
]

unfoldable pub unregister_listener : Adapter → ℕ → Option ℕ → Adapter
unfolding contains remove_first
unregister_listener a type none = a
unregister_listener a type (some l) = elim (lookup type a.listeners) [
  | none ↦ a
  | some ls ↦
      if contains l ls
      then elim (remove_first l ls) [
        | [] ↦ record a { listeners = erase type a.listeners }
        | x ∷ xs ↦ record a { listeners = insert type (x ∷ xs) a.listeners }
      ]
      else a
]

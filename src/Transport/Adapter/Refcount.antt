-- ===== src/Transport/Adapter/Refcount.antt =====
-- The reference counts of the sessions: each device that connects is held until it disconnects.
use Prim.Native.String.{String}
use text.Mathlib.Text.{◌==◌ as str_eq}
use text.Mathlib.TextPositions.{eq_refl}
use dmsfwk.Prelude.{
  ℕ, ◌+◌, ◌^◌, ◌≤◌, ◌<◌, ◌≡◌, Bool, true, false, Option, none, some, List, [], ◌∷◌, inl, inr, ltb,
  length, ◌||◌, ◌==◌, lookup, insert, erase, erase-insert, insert-insert, Bool-cases, Option-cases,
  arith,
}
use dmsfwk.Buffer.{new_buffer, memcpy_s}
use dmsfwk.Transport.Receiver.{pack_recv_data}
use dmsfwk.Transport.Header.{SessionDataHeader}
use dmsfwk.Transport.Adapter.{
  ServiceType, ok, Channel, Adapter, Effect, Answers, new_channel, find_peer, create_session_record,
  count_up, count_down, is_in_use, add_new_peer_session, connect_device, disconnect_device, on_bind,
  on_shutdown, release_channel, on_bytes, dsched_max_recv_data_len,
}

-- The count is positive, as a number of 32 bits with a sign.
abbrev pub IsUsed : ℕ → Type 0
IsUsed count = (0 < count) × (count < 2 ^ 31)

count_down-count_up : (n : ℕ) → IsUsed n → count_down (count_up n) ≡ n
unfolding count_down count_up
count_down-count_up n h = omega (arith, h.0, h.1)

count_up-IsUsed : (n : ℕ) → n + 1 < 2 ^ 31 → IsUsed (count_up n)
unfolding count_up
count_up-IsUsed n h = (omega (arith, h), omega (arith, h))

used : (n : ℕ) → IsUsed n → is_in_use n ≡ true
unfolding is_in_use
used n h = ground (arith, h.0, h.1)

in_use-IsUsed : (n : ℕ) → is_in_use n ≡ true → IsUsed n
unfolding is_in_use
in_use-IsUsed n h = (ground arith, ground arith)

-- The keys grow from above `n`, and every session is in use.
abbrev pub Held : ℕ → List (ℕ × Channel) → Type 0
Held n [] = Unit {0}
Held n ((id, c) ∷ m) = (n < id) × IsUsed c.ref_count × Held id m

Held-mono : (n k : ℕ) (m : List (ℕ × Channel)) → n ≤ k → Held k m → Held n m
Held-mono n k [] a h = tt
Held-mono n k ((id, c) ∷ m) a h = (omega arith, h.1, h.2)

insert-Held :
    (n k : ℕ) (c : Channel) (m : List (ℕ × Channel))
    → n < k
    → IsUsed c.ref_count
    → Held n m
    → Held n (insert k c m)
unfolding insert
insert-Held n k c [] a b h = (a, b, tt)
insert-Held n k c ((id, d) ∷ m) a b h = ground (arith, insert-Held id k c m)

erase-Held : (n k : ℕ) (m : List (ℕ × Channel)) → Held n m → Held n (erase k m)
unfolding erase
erase-Held n k [] h = tt
erase-Held n k ((id, d) ∷ m) h = ground (arith, erase-Held id k m, Held-mono n id m)

find_peer-Held :
    (n : ℕ) (peer : String) (m : List (ℕ × Channel)) (id : ℕ) (c : Channel)
    → Held n m
    → find_peer peer m ≡ some (id, c)
    → (n < id) × IsUsed c.ref_count × (str_eq peer c.peer_device_id ≡ true)
unfolding find_peer
find_peer-Held n peer [] id c h e = cc
find_peer-Held n peer ((j, d) ∷ m) id c h e = elim (Bool-cases (str_eq peer d.peer_device_id)) [
  | inl here ↦ (ground arith, ground arith, ground arith)
  | inr there ↦
      let (a, b, same) = find_peer-Held j peer m id c h.2 (ground arith) in (omega arith, b, same)
]

-- A session that is written back under its own device is found again.
find_peer-insert :
    (n : ℕ) (peer : String) (m : List (ℕ × Channel)) (id : ℕ) (c d : Channel)
    → Held n m
    → find_peer peer m ≡ some (id, c)
    → str_eq peer d.peer_device_id ≡ true
    → find_peer peer (insert id d m) ≡ some (id, d)
unfolding find_peer insert
find_peer-insert n peer [] id c d h e same = cc
find_peer-insert n peer ((j, b) ∷ m) id c d h e same =
    elim (Bool-cases (str_eq peer b.peer_device_id)) [
      | inl here ↦ ground arith
      | inr there ↦
          let rest : find_peer peer m ≡ some (id, c) = ground arith in
          ground (
            arith,
            find_peer-Held j peer m id c h.2 rest,
            find_peer-insert j peer m id c d h.2 rest same,
          )
    ]

insert-find_peer :
    (n : ℕ) (peer : String) (m : List (ℕ × Channel)) (id : ℕ) (c : Channel)
    → Held n m
    → find_peer peer m ≡ some (id, c)
    → insert id c m ≡ m
unfolding find_peer insert
insert-find_peer n peer [] id c h e = cc
insert-find_peer n peer ((j, b) ∷ m) id c h e = elim (Bool-cases (str_eq peer b.peer_device_id)) [
  | inl here ↦ ground arith
  | inr there ↦
      let rest : find_peer peer m ≡ some (id, c) = ground arith in
      ground (arith, find_peer-Held j peer m id c h.2 rest, insert-find_peer j peer m id c h.2 rest)
]

find_peer-insert_new :
    (peer : String) (m : List (ℕ × Channel)) (id : ℕ) (d : Channel)
    → find_peer peer m ≡ none
    → lookup id m ≡ none
    → str_eq peer d.peer_device_id ≡ true
    → find_peer peer (insert id d m) ≡ some (id, d)
unfolding find_peer insert lookup
find_peer-insert_new peer [] id d e fresh same = ground arith
find_peer-insert_new peer ((j, b) ∷ m) id d e fresh same =
    ground (arith, find_peer-insert_new peer m id d)

connect_known :
    (a : Adapter) (answers : Answers) (peer : String) (type : ServiceType) (id : ℕ) (c : Channel)
    → Held 0 a.sessions
    → find_peer peer a.sessions ≡ some (id, c)
    → (disconnect_device (connect_device a answers peer type).adapter peer).0.sessions ≡ a.sessions
unfolding connect_device disconnect_device
connect_known a answers peer type id c h e =
    let (pos, used_once, same) = find_peer-Held 0 peer a.sessions id c h e in
    let d = record c { ref_count = count_up c.ref_count } in
    let back : count_down (count_up c.ref_count) ≡ c.ref_count =
      count_down-count_up c.ref_count used_once in
    let held : is_in_use c.ref_count ≡ true = used c.ref_count used_once in
    rw (e, connect_device, find_peer-insert 0 peer a.sessions id c d h e same, disconnect_device)
      (ground
        (arith, back, insert-insert id c d a.sessions, insert-find_peer 0 peer a.sessions id c h e))

added_sessions :
    (a : Adapter) (answers : Answers) (peer : String)
    → (add_new_peer_session a answers peer).ret ≡ ok
    → (0 < answers.socket)
      × ((add_new_peer_session a answers peer).adapter.sessions
          ≡ insert answers.socket (new_channel peer false) a.sessions)
unfolding add_new_peer_session
added_sessions a answers peer e = (ground arith, ground arith)

connect_new_sessions :
    (a : Adapter) (answers : Answers) (peer : String) (type : ServiceType)
    → find_peer peer a.sessions ≡ none
    → (connect_device a answers peer type).ret ≡ ok
    → (0 < answers.socket)
      × ((connect_device a answers peer type).adapter.sessions
          ≡ insert answers.socket (new_channel peer false) a.sessions)
unfolding connect_device
connect_new_sessions a answers peer type none_yet e =
    (ground (arith, added_sessions a answers peer), ground (arith, added_sessions a answers peer))

last_gone : is_in_use (count_down 1) ≡ false
unfolding is_in_use count_down
last_gone = λ i. false

disconnect_last :
    (a : Adapter) (m : List (ℕ × Channel)) (peer : String) (id : ℕ)
    → a.sessions ≡ insert id (new_channel peer false) m
    → find_peer peer m ≡ none
    → lookup id m ≡ none
    → 0 < id
    → (disconnect_device a peer).0.sessions ≡ m
unfolding disconnect_device new_channel
disconnect_last a m peer id e none_yet fresh pos = ground (
  arith,
  last_gone,
  find_peer-insert_new peer m id (new_channel peer false) none_yet fresh (eq_refl peer),
  erase-insert id (new_channel peer false) m fresh,
)

-- Where the sessions are numbered from 1 on in order, each held at least once, and SoftBus gives a
-- number that no session has, a device that connects with success and then disconnects leaves the
-- sessions as they were, whether or not it was connected before.
pub disconnect_device-connect_device :
    (a : Adapter) (answers : Answers) (peer : String) (type : ServiceType)
    → Held 0 a.sessions
    → lookup answers.socket a.sessions ≡ none
    → (connect_device a answers peer type).ret ≡ ok
    → (disconnect_device (connect_device a answers peer type).adapter peer).0.sessions ≡ a.sessions
disconnect_device-connect_device a answers peer type h fresh e =
    elim (Option-cases (find_peer peer a.sessions)) [
      | inr ((id, c), known) ↦ connect_known a answers peer type id c h known
      | inl new ↦
          let (pos, same) = connect_new_sessions a answers peer type new e in
          disconnect_last (connect_device a answers peer type).adapter a.sessions peer
            answers.socket same new fresh pos
    ]

lookup-Held :
    (n k : ℕ) (m : List (ℕ × Channel)) (c : Channel)
    → Held n m
    → lookup k m ≡ some c
    → (n < k) × IsUsed c.ref_count
unfolding lookup
lookup-Held n k [] c h e = cc
lookup-Held n k ((j, d) ∷ m) c h e = ground (arith, lookup-Held j k m c h.2)

-- What the device may be asked, or told by SoftBus.
pub data Call : Type 0 where
  connects : Answers → String → ServiceType → Call
  disconnects : String → Call
  binds : ℕ → String → Bool → Call
  shuts : ℕ → Bool → Call
  receives : SessionDataHeader → ℕ → List ℕ → Call
  releases : Call

abbrev after_bytes : Adapter → Option (Adapter × List Effect) → Adapter
after_bytes a none = a
after_bytes a (some (a', effects)) = a'

pub step : Adapter → Call → Adapter
step a (connects answers peer type) = (connect_device a answers peer type).adapter
step a (disconnects peer) = (disconnect_device a peer).0
step a (binds id peer has_local_device_id) = (on_bind a id peer has_local_device_id).0
step a (shuts id is_self_called) = (on_shutdown a id is_self_called).0
step a (receives g id bytes) = after_bytes a (on_bytes g a id bytes)
step a releases = (release_channel a).0

-- SoftBus numbers the sockets that it binds from 1 on, and a device connects again only while the count of
-- its session is below the greatest `int32_t`.
abbrev pub IsAllowed : Adapter → Call → Type 0
IsAllowed a (connects answers peer type) =
    (id : ℕ) (c : Channel) → find_peer peer a.sessions ≡ some (id, c) → c.ref_count + 1 < 2 ^ 31
IsAllowed a (binds id peer has_local_device_id) = 0 < id
IsAllowed a _ = Unit {0}

add_new_peer_session-Held :
    (a : Adapter) (answers : Answers) (peer : String)
    → Held 0 a.sessions
    → Held 0 (add_new_peer_session a answers peer).adapter.sessions
unfolding add_new_peer_session new_channel
add_new_peer_session-Held a answers peer h =
    ground (arith, insert-Held 0 answers.socket (new_channel peer false) a.sessions)

connect_device-Held :
    (a : Adapter) (answers : Answers) (peer : String) (type : ServiceType)
    → ((id : ℕ) (c : Channel) → find_peer peer a.sessions ≡ some (id, c) → c.ref_count + 1 < 2 ^ 31)
    → Held 0 a.sessions
    → Held 0 (connect_device a answers peer type).adapter.sessions
unfolding connect_device
connect_device-Held a answers peer type room h = elim (Option-cases (find_peer peer a.sessions)) [
  | inr ((id, c), e) ↦
      rw (e, connect_device)
        (insert-Held 0 id _ a.sessions (find_peer-Held 0 peer a.sessions id c h e).0
          (count_up-IsUsed c.ref_count (room id c e)) h)
  | inl e ↦ ground (arith, add_new_peer_session-Held a answers peer h)
]

disconnect_device-Held :
    (a : Adapter) (peer : String) → Held 0 a.sessions → Held 0 (disconnect_device a peer).0.sessions
unfolding disconnect_device
disconnect_device-Held a peer h = elim (Option-cases (find_peer peer a.sessions)) [
  | inl e ↦ rw (e, disconnect_device) h
  | inr ((id, c), e) ↦ ground (
    arith,
    find_peer-Held 0 peer a.sessions id c h e,
    erase-Held 0 id a.sessions h,
    in_use-IsUsed (count_down c.ref_count),
    insert-Held 0 id (record c { ref_count = count_down c.ref_count }) a.sessions,
  )
]

on_bytes-Held :
    (g : SessionDataHeader) (a : Adapter) (id : ℕ) (bytes : List ℕ)
    → Held 0 a.sessions
    → Held 0 (after_bytes a (on_bytes g a id bytes)).sessions
unfolding on_bytes
on_bytes-Held g a id bytes h =
    elim (Bool-cases (length bytes == 0 || ltb dsched_max_recv_data_len (length bytes))) [
      | inl refused ↦ rw (refused, on_bytes) h
      | inr taken ↦ elim (Option-cases (lookup id a.sessions)) [
        | inl e ↦ rw (taken, e, on_bytes) h
        | inr (c, e) ↦ elim (Option-cases (memcpy_s (new_buffer (length bytes)) 0 bytes)) [
          | inl e' ↦ rw (taken, e, e', on_bytes) h
          | inr (buffer, e') ↦ elim (Option-cases (pack_recv_data g c.session buffer)) [
            | inl e'' ↦ rw (taken, e, e', e'', on_bytes) h
            | inr ((s, ready), e'') ↦
                let (pos, used) = lookup-Held 0 id a.sessions c h e in
                rw (taken, e, e', e'', on_bytes)
                  (insert-Held 0 id (record c { session = s }) a.sessions pos used h)
          ]
        ]
      ]
    ]

-- Every operation keeps the sessions in order, numbered from 1 on and held at least once, with counts of 32
-- bits with a sign, if SoftBus binds only sockets with such numbers, and no device connects again whose
-- session has the greatest count, 2 ^ 31 - 1.
pub step-Held :
    (a : Adapter) (c : Call) → IsAllowed a c → Held 0 a.sessions → Held 0 (step a c).sessions
unfolding step on_bind on_shutdown release_channel create_session_record new_channel
step-Held a (connects answers peer type) n h = connect_device-Held a answers peer type n h
step-Held a (disconnects peer) n h = disconnect_device-Held a peer h
step-Held a (binds id peer has_local_device_id) n h =
    ground (arith, insert-Held 0 id (new_channel peer true) a.sessions)
step-Held a (shuts id is_self_called) n h = ground (arith, erase-Held 0 id a.sessions h)
step-Held a (receives g id bytes) n h = on_bytes-Held g a id bytes h
step-Held a releases n h = tt

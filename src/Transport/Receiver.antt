-- ===== src/Transport/Receiver.antt =====
-- dsched_softbus_session.cpp: what a session does with the bytes that it receives.
use dmsfwk.Prelude.{
  ℕ, ◌+◌, ◌%◌, ◌^◌, Bool, true, false, not, ◌||◌, Option, none, some, List, [], ◌∷◌, ◌++◌, length,
  drop, ltb, ◌==◌, if◌then◌else◌,
}
use dmsfwk.Buffer.{new_buffer, memcpy_s}
use dmsfwk.Transport.Header.{
  SessionDataHeader, frag_start, frag_mid, frag_end, frag_start_end, binary_header_frag_len,
  get_frag_data_header,
}

-- The part of `DSchedSoftbusSession` that reassembly uses. `none` is the null `packBuffer_`.
pub record Session : Type 0 where
  pub pack_buffer : Option (List ℕ)
  pub is_waiting : Bool
  pub now_seq : ℕ
  pub now_sub_seq : ℕ
  pub offset : ℕ
  pub total_len : ℕ

-- The calls of `OnDataReady`: the data type and the message.
abbrev pub Ready : Type 0
Ready = List (ℕ × List ℕ)

-- The new session and the messages handed on. `none` is a use of the null `packBuffer_`.
abbrev pub Outcome : Type 0
Outcome = Option (Session × Ready)

-- 4 * 1024 * 1024
abbrev pub binary_data_max_len : ℕ
binary_data_max_len = 4_194_304

-- 100 * 1024 * 1024
abbrev pub binary_data_max_total_len : ℕ
binary_data_max_total_len = 104_857_600

abbrev pub reset_assemble_frag : Session
reset_assemble_frag = record {
  pack_buffer = none;
  is_waiting = false;
  now_seq = 0;
  now_sub_seq = 0;
  offset = 0;
  total_len = 0;
}

-- `true` is `ERR_OK`.
unfoldable pub check_un_pack_buffer : Session → SessionDataHeader → Bool
check_un_pack_buffer s h =
    if not s.is_waiting
    then false
    else if not (s.now_seq == h.seq_num)
    then false
    else if not ((s.now_sub_seq + 1) % 2 ^ 32 == h.sub_seq)
    then false
    else if ltb s.total_len ((h.data_len + s.offset) % 2 ^ 32)
    then false
    else true

unfoldable pub assemble_no_frag : Session → List ℕ → SessionDataHeader → Session × Ready
assemble_no_frag s buffer h =
    if not (h.data_len == h.total_len)
    then (s, [])
    else if ltb (length buffer) binary_header_frag_len
    then (s, [])
    else elim (memcpy_s (new_buffer h.data_len) 0 (drop binary_header_frag_len buffer)) [
      | none ↦ (s, [])
      | some data' ↦ (s, (h.data_type, data') ∷ [])
    ]

-- The branch of `AssembleFrag` for the first fragment.
unfoldable pub assemble_start : Session → List ℕ → SessionDataHeader → Session × Ready
assemble_start s buffer h =
    if ltb (length buffer) binary_header_frag_len
    then (begun, [])
    else elim (memcpy_s (new_buffer h.total_len) 0 (drop binary_header_frag_len buffer)) [
      | none ↦ (reset_assemble_frag, [])
      | some pack ↦ (record begun { pack_buffer = some pack; offset = h.data_len }, [])
    ]
  where
    begun : Session
    begun = record s {
      is_waiting = true;
      now_seq = h.seq_num;
      now_sub_seq = h.sub_seq;
      offset = 0;
      total_len = h.total_len;
      pack_buffer = some (new_buffer h.total_len);
    }

-- The branches of `AssembleFrag` for a later fragment, and for the last.
unfoldable pub assemble_next : Session → List ℕ → SessionDataHeader → Outcome
unfolding check_un_pack_buffer
assemble_next s buffer h =
    if not (check_un_pack_buffer s h) then some (reset_assemble_frag, []) else elim s.pack_buffer [
      | none ↦ none
      | some pack ↦ elim (memcpy_s pack s.offset (drop binary_header_frag_len buffer)) [
        | none ↦ some (reset_assemble_frag, [])
        | some pack' ↦
            if h.frag_flag == frag_end
            then some (reset_assemble_frag, (h.data_type, pack') ∷ [])
            else some (
              record s {
                now_sub_seq = h.sub_seq;
                pack_buffer = some pack';
                offset = (s.offset + h.data_len) % 2 ^ 32;
              },
              [],
            )
      ]
    ]

unfoldable pub assemble_frag : Session → List ℕ → SessionDataHeader → Outcome
assemble_frag s buffer h =
    if h.frag_flag == frag_start
    then some (assemble_start s buffer h)
    else if h.frag_flag == frag_mid || h.frag_flag == frag_end
    then assemble_next s buffer h
    else some (s, [])

abbrev pub is_bad_packet : List ℕ → SessionDataHeader → Bool
is_bad_packet buffer h =
    not (length buffer == (h.data_len + binary_header_frag_len) % 2 ^ 32)
    || ltb h.total_len h.data_len
    || ltb binary_data_max_len h.data_len
    || ltb binary_data_max_total_len h.total_len

-- `g` is what the stack holds where the header is declared.
unfoldable pub pack_recv_data : SessionDataHeader → Session → List ℕ → Outcome
pack_recv_data g s buffer =
    if ltb (length buffer) binary_header_frag_len
    then some (s, [])
    else elim (get_frag_data_header buffer g) [
      | none ↦ some (s, [])
      | some h ↦
          if is_bad_packet buffer h
          then some (s, [])
          else if h.frag_flag == frag_start_end
          then some (assemble_no_frag s buffer h)
          else assemble_frag s buffer h
    ]

-- `OnBytesReceived` for one packet after another.
unfoldable pub receive_all : SessionDataHeader → Session → List (List ℕ) → Outcome
receive_all g s [] = some (s, [])
receive_all g s (p ∷ ps) = elim (pack_recv_data g s p) [
  | none ↦ none
  | some (s', ready) ↦ elim (receive_all g s' ps) [
    | none ↦ none
    | some (s'', more) ↦ some (s'', ready ++ more)
  ]
]

-- ===== src/Transport/Safety.antt =====
-- Whatever bytes a peer sends, reassembly never uses a null `packBuffer_` and stays in bounds.
use mathlib.Core.Bool.{false≢true}
use dmsfwk.Prelude.{
  ℕ, ◌+◌, ◌%◌, ◌^◌, ◌≤◌, ◌<◌, ◌≡◌, ◌≢◌, refl, ap, ◌∙◌, ◌⊎◌, inl, inr, ◌||◌, true, false, none, some,
  List, [], ◌∷◌, length, drop, ltb, length-replicate, sym, le→ltb_false, Bool-cases, if_cases,
  Option-cases, ◌==◌, if◌then◌else◌, arith,
}
use dmsfwk.Buffer.{new_buffer, memcpy_s, is_bad_capacity}
use dmsfwk.Buffer.Laws.{memcpy_s-some, length-overwrite}
use dmsfwk.Transport.Header.{
  SessionDataHeader, get_frag_data_header, frag_start, frag_mid, frag_end, frag_start_end,
}
use dmsfwk.Transport.Receiver.{
  Session, Outcome, binary_data_max_len, binary_data_max_total_len, check_un_pack_buffer,
  assemble_no_frag, assemble_start, assemble_next, assemble_frag, is_bad_packet, pack_recv_data,
  receive_all,
}

-- A session that waits for fragments has a buffer of the announced length, filled up to `offset`.
abbrev pub IsSound : Session → Type 0
IsSound s =
    (s.is_waiting ≡ false)
    ⊎ ((pack : List ℕ) × (s.pack_buffer ≡ some pack)
        × (length pack ≡ s.total_len)
        × (s.offset ≤ s.total_len)
        × (s.total_len ≤ binary_data_max_total_len))

abbrev pub Ends : Outcome → Type 0
Ends none = ⊥
Ends (some (s, ready)) = IsSound s × (length ready ≤ 1)

length-new_buffer : (n : ℕ) → 0 < length (new_buffer n) → length (new_buffer n) ≡ n
unfolding new_buffer
length-new_buffer n h = elim (Bool-cases (is_bad_capacity n)) [
  | inl bad ↦ absurd (omega (arith, rw (bad, new_buffer) at h))
  | inr fine ↦ rw (fine, new_buffer) (length-replicate n 0)
]

length-memcpy_s :
    (dest : List ℕ) (pos : ℕ) (src : List ℕ) {out : List ℕ}
    → memcpy_s dest pos src ≡ some out
    → length out ≡ length dest
length-memcpy_s dest pos src e =
    let (_, fits, same) = memcpy_s-some dest pos src e in
    ap length same ∙ length-overwrite dest pos src fits

assemble_start-IsSound :
    (s : Session) (p : List ℕ) (h : SessionDataHeader)
    → 49 ≤ length p
    → h.data_len ≤ h.total_len
    → h.total_len ≤ binary_data_max_total_len
    → Ends (some (assemble_start s p h))
unfolding assemble_start
assemble_start-IsSound s p h a b c =
    elim (Option-cases (memcpy_s (new_buffer h.total_len) 0 (drop 49 p))) [
      | inl failed ↦
          rw (le→ltb_false (length p) 49 a, failed, assemble_start) (inl refl, omega arith)
      | inr (pack, e) ↦
          rw (le→ltb_false (length p) 49 a, e, assemble_start)
            (inr (pack, refl, length-started pack e, b, c), omega arith)
    ]
  where
    length-started :
        (pack : List ℕ)
        → memcpy_s (new_buffer h.total_len) 0 (drop 49 p) ≡ some pack
        → length pack ≡ h.total_len
    length-started pack e =
        length-memcpy_s (new_buffer h.total_len) 0 (drop 49 p) e
        ∙ length-new_buffer h.total_len (memcpy_s-some (new_buffer h.total_len) 0 (drop 49 p) e).0

check_facts :
    (s : Session) (h : SessionDataHeader)
    → check_un_pack_buffer s h ≡ true
    → (s.is_waiting ≡ true) × ((h.data_len + s.offset) % 2 ^ 32 ≤ s.total_len)
unfolding check_un_pack_buffer
check_facts s h e = (ground arith, ground arith)

module _ (s : Session) (p : List ℕ) (h : SessionDataHeader)
    (small : h.data_len ≤ binary_data_max_len) where
  refused : check_un_pack_buffer s h ≡ false → Ends (assemble_next s p h)
  unfolding assemble_next
  refused e = rw (e, assemble_next) (inl refl, omega arith)

  -- The fragment is copied behind what is there, or dropped with it.
  copied :
      (pack : List ℕ)
      → check_un_pack_buffer s h ≡ true
      → s.pack_buffer ≡ some pack
      → length pack ≡ s.total_len
      → s.offset ≤ s.total_len
      → s.total_len ≤ binary_data_max_total_len
      → Ends (assemble_next s p h)
  unfolding assemble_next
  copied pack e held full a b = elim (Option-cases (memcpy_s pack s.offset (drop 49 p))) [
    | inl failed ↦ rw (e, held, failed, assemble_next) (inl refl, omega arith)
    | inr (out, e') ↦ elim (Bool-cases (h.frag_flag == frag_end)) [
      | inl last ↦ rw (e, held, e', last, assemble_next) (inl refl, omega arith)
      | inr more ↦
          rw (e, held, e', more, assemble_next)
            (
              inr (
                out,
                refl,
                length-memcpy_s pack s.offset (drop 49 p) e' ∙ full,
                omega (arith, (check_facts s h e).1),
                b,
              ),
              omega arith,
            )
    ]
  ]

  assemble_next-IsSound : IsSound s → Ends (assemble_next s p h)
  assemble_next-IsSound v = elim (Bool-cases (check_un_pack_buffer s h)) [
    | inr e ↦ refused e
    | inl e ↦ elim v [
      | inl idle ↦ absurd (false≢true (sym idle ∙ (check_facts s h e).0))
      | inr (pack, held, full, a, b) ↦ copied pack e held full a b
    ]
  ]

assemble_no_frag_keeps :
    (s : Session) (p : List ℕ) (h : SessionDataHeader)
    → ((assemble_no_frag s p h).0 ≡ s) × (length (assemble_no_frag s p h).1 ≤ 1)
unfolding assemble_no_frag
assemble_no_frag_keeps s p h = (ground arith, ground arith)

assemble_no_frag-IsSound :
    (s : Session) (p : List ℕ) (h : SessionDataHeader)
    → IsSound s
    → Ends (some (assemble_no_frag s p h))
assemble_no_frag-IsSound s p h v =
    let (same, few) = assemble_no_frag_keeps s p h in (rw same v, few)

is_bad_packet_facts :
    (p : List ℕ) (h : SessionDataHeader)
    → is_bad_packet p h ≡ false
    → (h.data_len ≤ h.total_len)
      × (h.data_len ≤ binary_data_max_len)
      × (h.total_len ≤ binary_data_max_total_len)
is_bad_packet_facts p h e = (ground arith, ground arith, ground arith)

assemble_frag-IsSound :
    (s : Session) (p : List ℕ) (h : SessionDataHeader)
    → 49 ≤ length p
    → is_bad_packet p h ≡ false
    → IsSound s
    → Ends (assemble_frag s p h)
unfolding assemble_frag
assemble_frag-IsSound s p h a e v =
    let (b, c, d) = is_bad_packet_facts p h e in
    if_cases Ends (h.frag_flag == frag_start) (some (assemble_start s p h))
      (if h.frag_flag == frag_mid || h.frag_flag == frag_end
        then assemble_next s p h
        else some (s, []))
      (λ _. assemble_start-IsSound s p h a b d)
      λ _.
        if_cases Ends (h.frag_flag == frag_mid || h.frag_flag == frag_end) (assemble_next s p h)
          (some (s, [])) (λ _. assemble_next-IsSound s p h c v) (λ _. (v, omega arith))

read-IsSound :
    (s : Session) (p : List ℕ) (h : SessionDataHeader)
    → 49 ≤ length p
    → IsSound s
    → Ends (
        if is_bad_packet p h
        then some (s, [])
        else if h.frag_flag == frag_start_end
        then some (assemble_no_frag s p h)
        else assemble_frag s p h)
read-IsSound s p h a v = elim (Bool-cases (is_bad_packet p h)) [
  | inl bad ↦ rw bad (v, omega arith)
  | inr fine ↦ rw fine (
      if_cases Ends (h.frag_flag == frag_start_end) (some (assemble_no_frag s p h))
        (assemble_frag s p h) (λ _. assemble_no_frag-IsSound s p h v)
        (λ _. assemble_frag-IsSound s p h a fine v))
]

-- A session that waits for no fragment, or whose buffer has the announced length and is filled up
-- to an offset within it, takes any packet without using a null buffer, hands on one message at
-- most, and is again such a session.
pub pack_recv_data-IsSound :
    (g : SessionDataHeader) (s : Session) (p : List ℕ) → IsSound s → Ends (pack_recv_data g s p)
unfolding pack_recv_data
pack_recv_data-IsSound g s p v = elim (Bool-cases (ltb (length p) 49)) [
  | inl short ↦ rw (short, pack_recv_data) (v, omega arith)
  | inr long ↦ elim (Option-cases (get_frag_data_header p g)) [
    | inl bad ↦ rw (long, bad, pack_recv_data) (v, omega arith)
    | inr (h, e) ↦ rw (long, e, pack_recv_data) (read-IsSound s p h (ground arith) v)
  ]
]

receive_all-step :
    (g : SessionDataHeader) (s : Session) (p : List ℕ) (ps : List (List ℕ)) (out : Outcome)
    → pack_recv_data g s p ≡ out
    → Ends out
    → ((s' : Session) → IsSound s' → receive_all g s' ps ≢ none)
    → receive_all g s (p ∷ ps) ≢ none
unfolding receive_all
receive_all-step g s p ps none e ends rest = absurd ends
receive_all-step g s p ps (some (s', ready)) e ends rest = ground (arith, rest s' ends.0)

-- No sequence of packets makes a session that is sound at first use a null buffer.
pub receive_all-ne-none :
    (g : SessionDataHeader) (s : Session) (ps : List (List ℕ))
    → IsSound s
    → receive_all g s ps ≢ none
unfolding receive_all
receive_all-ne-none g s [] v = λ e. cc
receive_all-ne-none g s (p ∷ ps) v =
    receive_all-step g s p ps (pack_recv_data g s p) refl (pack_recv_data-IsSound g s p v)
      (λ s' v'. receive_all-ne-none g s' ps v')

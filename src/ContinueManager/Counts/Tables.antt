-- ===== src/ContinueManager/Counts/Tables.antt =====
-- The counts of the manager are those of its table: what enters, stays and leaves.
use dmsfwk.Prelude.{
  ℕ, ◌+◌, ◌≤◌, ◌≡◌, refl, sym, ap, ◌∙◌, inl, inr, true, false, none, some, List, lookup, insert,
  erase, Ascending, insert-Ascending, erase-Ascending, Option-cases, if◌then◌else◌, arith,
}
use dmsfwk.Continue.{Direction, source, sink}
use dmsfwk.ContinueManager.{DschedContinueInfo, Entry, System, increment, decrement, key}
use dmsfwk.ContinueManager.Counts.{
  Names, IsAsked, plays, one, number, Keyed, number-insert_new, number-insert_same, number-erase,
  insert-Keyed, erase-Keyed, lookup-Keyed,
}

-- Two continuations of such names with one key have one part for this device.
abbrev pub Separates : System → ℕ → Names → Type 0
Separates system local Asked =
    (i j : DschedContinueInfo)
    → IsAsked Asked i
    → IsAsked Asked j
    → key system i ≡ key system j
    → (d : Direction) → plays local d i ≡ plays local d j

-- The counts are right, and there is one continuation at most for each part.
abbrev pub Fits : System → ℕ → Names → List (ℕ × Entry) → ℕ → ℕ → Type 0
Fits system local Asked continues sinks sources =
    Ascending 0 continues
    × Keyed system Asked continues
    × (sinks ≡ number local sink continues)
    × (sources ≡ number local source continues)
    × (sinks ≤ 1)
    × (sources ≤ 1)

module _ (system : System) (local : ℕ) (Asked : Names) (apart : Separates system local Asked) where
  one-plays :
      (d : Direction) (e e' : Entry)
      → IsAsked Asked e.continue_info
      → IsAsked Asked e'.continue_info
      → key system e.continue_info ≡ key system e'.continue_info
      → one local d e ≡ one local d e'
  one-plays d e e' asked asked' same =
      ap (λ b. if b then 1 else 0) (apart e.continue_info e'.continue_info asked asked' same d)

  -- A continuation that changes, but not its names, leaves the counts right.
  pub store-Fits :
      (k : ℕ) (e old : Entry) (continues : List (ℕ × Entry)) (sinks sources : ℕ)
      → lookup k continues ≡ some old
      → key system e.continue_info ≡ key system old.continue_info
      → IsAsked Asked e.continue_info
      → Fits system local Asked continues sinks sources
      → Fits system local Asked (insert k e continues) sinks sources
  store-Fits k e old continues sinks sources there same asked h =
      let (own, asked') = lookup-Keyed system Asked k old continues h.1 there in
      let as_sink =
        number-insert_same local 0 k sink e old continues h.0 there
          (one-plays sink e old asked asked' same) in
      let as_source =
        number-insert_same local 0 k source e old continues h.0 there
          (one-plays source e old asked asked' same) in
      (
        insert-Ascending 0 k e continues (omega arith) h.0,
        insert-Keyed system Asked k e continues (own ∙ sym same) asked h.1,
        h.2 ∙ sym as_sink,
        h.3 ∙ sym as_source,
        h.4,
        h.5,
      )

  -- One that is in the table is counted.
  pub lookup-counted :
      (info : DschedContinueInfo) (d : Direction) (e : Entry) (continues : List (ℕ × Entry))
      (sinks sources : ℕ)
      → IsAsked Asked info
      → Fits system local Asked continues sinks sources
      → lookup (key system info) continues ≡ some e
      → plays local d info ≡ true
      → 1 ≤ number local d continues
  lookup-counted info d e continues sinks sources asked h there role =
      let (own, asked') = lookup-Keyed system Asked (key system info) e continues h.1 there in
      let same = apart info e.continue_info asked asked' own d in
      ground (arith, role, same, number-erase local (key system info) d e continues there)

  one-part :
      (info : DschedContinueInfo) → plays local source info ≡ true → plays local sink info ≡ false
  one-part info h = ground arith

  -- What the number of a part is, but for one continuation of the table.
  number-leaving :
      (d : Direction) (info : DschedContinueInfo) (e : Entry) (continues : List (ℕ × Entry))
      → IsAsked Asked info
      → Keyed system Asked continues
      → lookup (key system info) continues ≡ some e
      → (if plays local d info then 1 else 0) + number local d (erase (key system info) continues)
        ≡ number local d continues
  number-leaving d info e continues asked h there =
      let (own, asked') = lookup-Keyed system Asked (key system info) e continues h there in
      let same = apart info e.continue_info asked asked' own d in
      ground (arith, same, number-erase local (key system info) d e continues there)

  -- One that leaves is counted no more.
  pub leaves_as_sink :
      (info : DschedContinueInfo) (e : Entry) (continues : List (ℕ × Entry)) (sinks sources : ℕ)
      → IsAsked Asked info
      → Fits system local Asked continues sinks sources
      → lookup (key system info) continues ≡ some e
      → plays local sink info ≡ true
      → Fits system local Asked (erase (key system info) continues) (decrement sinks) sources
  leaves_as_sink info e continues sinks sources asked h there role =
      let as_sink = number-leaving sink info e continues asked h.1 there in
      let as_source = number-leaving source info e continues asked h.1 there in
      (
        erase-Ascending 0 (key system info) continues h.0,
        erase-Keyed system Asked (key system info) continues h.1,
        ground arith,
        ground arith,
        ground arith,
        h.5,
      )

  pub leaves_as_source :
      (info : DschedContinueInfo) (e : Entry) (continues : List (ℕ × Entry)) (sinks sources : ℕ)
      → IsAsked Asked info
      → Fits system local Asked continues sinks sources
      → lookup (key system info) continues ≡ some e
      → plays local source info ≡ true
      → Fits system local Asked (erase (key system info) continues) sinks (decrement sources)
  leaves_as_source info e continues sinks sources asked h there role =
      let as_sink = number-leaving sink info e continues asked h.1 there in
      let as_source = number-leaving source info e continues asked h.1 there in
      (
        erase-Ascending 0 (key system info) continues h.0,
        erase-Keyed system Asked (key system info) continues h.1,
        ground arith,
        ground arith,
        h.4,
        ground arith,
      )

  -- One for which this device has no part was never counted.
  pub leaves_uncounted :
      (info : DschedContinueInfo) (e : Entry) (continues : List (ℕ × Entry)) (sinks sources : ℕ)
      → IsAsked Asked info
      → Fits system local Asked continues sinks sources
      → lookup (key system info) continues ≡ some e
      → plays local sink info ≡ false
      → plays local source info ≡ false
      → Fits system local Asked (erase (key system info) continues) sinks sources
  leaves_uncounted info e continues sinks sources asked h there no_sink no_source =
      let as_sink = number-leaving sink info e continues asked h.1 there in
      let as_source = number-leaving source info e continues asked h.1 there in
      (
        erase-Ascending 0 (key system info) continues h.0,
        erase-Keyed system Asked (key system info) continues h.1,
        ground arith,
        ground arith,
        h.4,
        h.5,
      )

  absent :
      (info : DschedContinueInfo) (d : Direction) (continues : List (ℕ × Entry)) (sinks sources : ℕ)
      → IsAsked Asked info
      → Fits system local Asked continues sinks sources
      → number local d continues ≡ 0
      → plays local d info ≡ true
      → lookup (key system info) continues ≡ none
  absent info d continues sinks sources asked h free role =
      elim (Option-cases (lookup (key system info) continues)) [
        | inl nobody ↦ nobody
        | inr (old, there) ↦
            let counted = lookup-counted info d old continues sinks sources asked h there role in
            absurd (omega (arith, counted, free))
      ]

  -- One that enters where there is none of its part is the one that is counted.
  pub enters_as_sink :
      (e : Entry) (continues : List (ℕ × Entry)) (sinks sources : ℕ)
      → IsAsked Asked e.continue_info
      → Fits system local Asked continues sinks sources
      → sinks ≡ 0
      → plays local sink e.continue_info ≡ true
      → (lookup (key system e.continue_info) continues ≡ none)
        × Fits system local Asked
            (insert (key system e.continue_info) e continues)
            (increment sinks)
            sources
  enters_as_sink e continues sinks sources asked h free role =
      let k = key system e.continue_info in
      let nobody =
        absent e.continue_info sink continues sinks sources asked h (sym h.2 ∙ free) role in
      let as_sink = number-insert_new local k sink e continues nobody in
      let as_source = number-insert_new local k source e continues nobody in
      let table = insert-Ascending 0 k e continues (omega arith) h.0 in
      let keys = insert-Keyed system Asked k e continues refl asked h.1 in
      (nobody, (table, keys, ground arith, ground arith, ground arith, h.5))

  pub enters_as_source :
      (e : Entry) (continues : List (ℕ × Entry)) (sinks sources : ℕ)
      → IsAsked Asked e.continue_info
      → Fits system local Asked continues sinks sources
      → sources ≡ 0
      → plays local source e.continue_info ≡ true
      → (lookup (key system e.continue_info) continues ≡ none)
        × Fits system local Asked
            (insert (key system e.continue_info) e continues)
            sinks
            (increment sources)
  enters_as_source e continues sinks sources asked h free role =
      let k = key system e.continue_info in
      let nobody =
        absent e.continue_info source continues sinks sources asked h (sym h.3 ∙ free) role in
      let as_sink = number-insert_new local k sink e continues nobody in
      let as_source = number-insert_new local k source e continues nobody in
      let table = insert-Ascending 0 k e continues (omega arith) h.0 in
      let keys = insert-Keyed system Asked k e continues refl asked h.1 in
      (nobody, (table, keys, ground arith, ground arith, h.4, ground arith))

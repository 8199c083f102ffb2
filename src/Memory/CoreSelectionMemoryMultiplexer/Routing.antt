-- ===== src/Memory/CoreSelectionMemoryMultiplexer/Routing.antt =====
-- Which core gets which response from CoreLib/CoreSelectionMemoryMultiplexer.cpp.
use ecc_cpu.Base.{
  ℕ, zero, suc, ◌+◌, ◌<◌, ◌≤◌, ◌≡◌, ◌≢◌, refl, sym, ◌∙◌, ap, subst, arith, true, false, ◌==◌, ltb,
  Option, none, some, Bool-cases, inl, inr, update, ==_iff, update_self, update_ne,
}
use ecc_cpu.Packets.{BusPacket}
use ecc_cpu.Bus.MemoryBus.{MemoryBus, accept_request, get_response, send_request, send_response}
use ecc_cpu.Memory.CoreSelectionMemoryMultiplexer.{
  MultiplexerState, top, scanning, accepted, waiting, answering, Stepped, one_input_matches,
  send_to_source, take_response, scan, forward, answer, step_from, step,
}

-- The responses on the buses of the cores bear their numbers.
abbrev pub BelongTo : (ℕ → MemoryBus) → Type 0
BelongTo inputs =
    (ix : ℕ) → (inputs ix).response_busy ≡ true → ((inputs ix).response_data).source.core_id ≡ ix

-- The core that the held response is for has taken its last one.
abbrev pub CanAnswer : MultiplexerState → (ℕ → MemoryBus) → Type 0
CanAnswer top inputs = Unit {0}
CanAnswer (scanning ix) inputs = Unit {0}
CanAnswer (accepted ix pkt) inputs = Unit {0}
CanAnswer (waiting ix pkt) inputs = Unit {0}
CanAnswer (answering pkt) inputs = (inputs (pkt.source).core_id).response_busy ≡ false

-- A bus has the same response, or none, as another.
abbrev pub SameResponse : MemoryBus → MemoryBus → Type 0
SameResponse bus bus' =
    (bus'.response_busy ≡ bus.response_busy) × (bus'.response_data ≡ bus.response_data)

-- A step that holds a response gives it to the core whose number it bears and to no other; any other
-- step gives no core a response, and takes none from one.
abbrev pub Delivers : MultiplexerState → (ℕ → MemoryBus) → (ℕ → MemoryBus) → Type 0
Delivers (answering pkt) inputs inputs' =
    ((inputs' (pkt.source).core_id).response_busy ≡ true)
    × ((inputs' (pkt.source).core_id).response_data ≡ pkt)
    × ((ix : ℕ) → ix ≢ (pkt.source).core_id → inputs' ix ≡ inputs ix)
Delivers top inputs inputs' = (ix : ℕ) → SameResponse (inputs ix) (inputs' ix)
Delivers (scanning jx) inputs inputs' = (ix : ℕ) → SameResponse (inputs ix) (inputs' ix)
Delivers (accepted jx pkt) inputs inputs' = (ix : ℕ) → SameResponse (inputs ix) (inputs' ix)
Delivers (waiting jx pkt) inputs inputs' = (ix : ℕ) → SameResponse (inputs ix) (inputs' ix)

-- The bus with the response that it has been sent.
abbrev with_response : MemoryBus → BusPacket → MemoryBus
with_response bus pkt = record bus { response_busy = true; response_data = pkt }

-- The loop finds the core of the response, if it is one of those left.
send_to_source-found :
    (left ix : ℕ) (pkt : BusPacket) (inputs : ℕ → MemoryBus)
    → ix ≤ (pkt.source).core_id
    → (pkt.source).core_id < ix + left
    → (inputs (pkt.source).core_id).response_busy ≡ false
    → send_to_source left ix pkt inputs
      ≡ some (update inputs (pkt.source).core_id (with_response (inputs (pkt.source).core_id) pkt))
unfolding send_to_source send_response
send_to_source-found zero ix pkt inputs low high room = absurd (omega arith)
send_to_source-found (suc left) ix pkt inputs low high room =
    elim (Bool-cases ((pkt.source).core_id == ix)) [
      | inl here ↦
          let same : (pkt.source).core_id ≡ ix = (==_iff (pkt.source).core_id ix).0 here in
          rw (send_to_source, here, sym same, room) refl
      | inr there ↦
          rw (send_to_source, there)
            (send_to_source-found left (suc ix) pkt inputs (ground arith) (omega arith) room)
    ]

one_input_matches-lt :
    (pkt : BusPacket) (n : ℕ) → (pkt.source).core_id < n → one_input_matches pkt n ≡ true
unfolding one_input_matches
one_input_matches-lt pkt zero h = absurd (omega arith)
one_input_matches-lt pkt (suc n) h = ground (arith, one_input_matches-lt pkt n)

-- A bus whose response bears the number of its place may take it.
placed :
    (inputs : ℕ → MemoryBus) (ix : ℕ) (bus : MemoryBus)
    → (bus.response_busy ≡ true → (bus.response_data).source.core_id ≡ ix)
    → BelongTo inputs
    → BelongTo (update inputs ix bus)
placed inputs ix bus own g j = elim (Bool-cases (j == ix)) [
  | inl here ↦ simp here (λ busy. own busy ∙ sym ((==_iff j ix).0 here))
  | inr there ↦ simp there (g j)
]

-- A bus that keeps its response changes none.
same_responses :
    (inputs : ℕ → MemoryBus) (ix : ℕ) (bus : MemoryBus)
    → SameResponse (inputs ix) bus
    → (j : ℕ) → SameResponse (inputs j) (update inputs ix bus j)
same_responses inputs ix bus same j = elim (Bool-cases (j == ix)) [
  | inl here ↦
      simp here (subst (λ (k : ℕ). SameResponse (inputs k) bus) (sym ((==_iff j ix).0 here)) same)
  | inr there ↦ simp there (refl, refl)
]

module _ (cores : ℕ) where
  -- A response on the shared bus is for a core that exists.
  abbrev pub IsForCore : MemoryBus → Type 0
  IsForCore out = out.response_busy ≡ true → (out.response_data).source.core_id < cores

  abbrev pub Held : MultiplexerState → Type 0
  Held top = Unit {0}
  Held (scanning ix) = Unit {0}
  Held (accepted ix pkt) = Unit {0}
  Held (waiting ix pkt) = Unit {0}
  Held (answering pkt) = (pkt.source).core_id < cores

  pub record IsSelected (s : Stepped) : Type 0 where
    pub held : Held s.state
    pub shared : IsForCore s.out
    pub given : BelongTo s.inputs

  -- The step fails no assertion, keeps the invariant, and has done this to the buses of the cores.
  abbrev pub Yields : ((ℕ → MemoryBus) → Type 0) → Option Stepped → Type 0
  Yields done none = ⊥
  Yields done (some s') = IsSelected s' × done s'.inputs

  abbrev pub Succeeds : MultiplexerState → Stepped → Option Stepped → Type 0
  Succeeds state s = Yields (Delivers state s.inputs)

  -- The same of a step that holds no response.
  abbrev Quiet : Stepped → Option Stepped → Type 0
  Quiet s = Yields (λ inputs'. (ix : ℕ) → SameResponse (s.inputs ix) (inputs' ix))

  take_response-Quiet :
      (s : Stepped) → IsForCore s.out → BelongTo s.inputs → Quiet s (take_response s)
  unfolding take_response get_response
  take_response-Quiet s o g = elim (Bool-cases s.out.response_busy) [
    | inl busy ↦
        simp busy (record { held = o busy; shared = λ e. cc; given = g }, λ ix. (refl, refl))
    | inr free ↦ simp free (record { held = tt; shared = o; given = g }, λ ix. (refl, refl))
  ]

  scan-Quiet :
      (ix : ℕ) (s : Stepped) → IsForCore s.out → BelongTo s.inputs → Quiet s (scan cores ix s)
  unfolding scan accept_request
  scan-Quiet ix s o g = elim (Bool-cases (ltb ix cores)) [
    | inl inside ↦ elim (Bool-cases (s.inputs ix).request_busy) [
      | inl busy ↦
          let bus : MemoryBus = record (s.inputs ix) { request_busy = false } in
          simp (inside, busy)
            (
              record { held = tt; shared = o; given = placed s.inputs ix bus (g ix) g },
              same_responses s.inputs ix bus (refl, refl),
            )
      | inr free ↦
          simp (inside, free) (record { held = tt; shared = o; given = g }, λ jx. (refl, refl))
    ]
    | inr outside ↦ simp outside (take_response-Quiet s o g)
  ]

  forward-Quiet :
      (ix : ℕ) (pkt : BusPacket) (s : Stepped)
      → IsForCore s.out
      → BelongTo s.inputs
      → Quiet s (forward ix pkt s)
  unfolding forward send_request
  forward-Quiet ix pkt s o g = elim (Bool-cases s.out.request_busy) [
    | inl busy ↦ simp busy (record { held = tt; shared = o; given = g }, λ jx. (refl, refl))
    | inr free ↦ simp free (record { held = tt; shared = o; given = g }, λ jx. (refl, refl))
  ]

  answer-Succeeds :
      (pkt : BusPacket) (s : Stepped)
      → (pkt.source).core_id < cores
      → (s.inputs (pkt.source).core_id).response_busy ≡ false
      → IsForCore s.out
      → BelongTo s.inputs
      → Succeeds (answering pkt) s (answer cores pkt s)
  unfolding answer
  answer-Succeeds pkt s exists room o g =
      let ix : ℕ = (pkt.source).core_id in
      let bus : MemoryBus = with_response (s.inputs ix) pkt in
      let own : update s.inputs ix bus ix ≡ bus = update_self s.inputs ix bus in
      rw
        (
          send_to_source-found cores 0 pkt s.inputs (omega arith) (omega (arith, exists)) room,
          one_input_matches-lt pkt cores exists,
        )
        (
          record { held = tt; shared = o; given = placed s.inputs ix bus (λ _. refl) g },
          (
            ap (λ (b : MemoryBus). b.response_busy) own,
            ap (λ (b : MemoryBus). b.response_data) own,
            λ jx other. update_ne s.inputs ix jx bus other,
          ),
        )

  step_from-Succeeds :
      (state : MultiplexerState) (s : Stepped)
      → Held state
      → CanAnswer state s.inputs
      → IsForCore s.out
      → BelongTo s.inputs
      → Succeeds state s (step_from cores state s)
  unfolding step_from
  step_from-Succeeds top s h room o g = scan-Quiet 0 s o g
  step_from-Succeeds (scanning ix) s h room o g = scan-Quiet ix s o g
  step_from-Succeeds (accepted ix pkt) s h room o g = forward-Quiet ix pkt s o g
  step_from-Succeeds (waiting ix pkt) s h room o g = forward-Quiet ix pkt s o g
  step_from-Succeeds (answering pkt) s h room o g = answer-Succeeds pkt s h room o g

  -- For any number of cores: if every response on the shared bus is for a core that exists, and a core
  -- has taken its last response when the next one comes, then no step fails an assertion, each core
  -- only ever has a response that bears its number, the step that holds a response gives it to the
  -- core whose number it bears and leaves the buses of the others as they were, and no other step
  -- gives a core a response or takes one away.
  pub step-IsSelected :
      (s : Stepped) → IsSelected s → CanAnswer s.state s.inputs → Succeeds s.state s (step cores s)
  step-IsSelected s h room = step_from-Succeeds s.state s h.held room h.shared h.given

-- ===== src/Memory/CoreInternalMemoryMultiplexer/Routing.antt =====
-- Which component gets which response from CoreLib/CoreInternalMemoryMultiplexer.cpp.
use ecc_cpu.Base.{◌≡◌, Bool, true, false, Option, none, some, Bool-cases, inl, inr}
use ecc_cpu.Packets.{BusPacket}
use ecc_cpu.Bus.MemoryBus.{MemoryBus, accept_request, get_response, send_request, send_response}
use ecc_cpu.Memory.CoreInternalMemoryMultiplexer.{
  MultiplexerState, top, fetched, fetch_waiting, other, other_waiting, answering, Stepped,
  from_fetch, take_response, take_other, take_fetch, forward_fetch, forward_other, answer,
  step_from, step,
}

-- What is on an input's bus belongs to the component behind it.
abbrev pub BelongsTo : Bool → MemoryBus → Type 0
BelongsTo fetches bus =
    (bus.request_busy ≡ true → from_fetch bus.request_data ≡ fetches)
    × (bus.response_busy ≡ true → from_fetch bus.response_data ≡ fetches)

-- What the multiplexer holds is from the component it was taken from.
abbrev pub StateBelongs : MultiplexerState → Type 0
StateBelongs top = Unit {0}
StateBelongs (fetched pkt) = from_fetch pkt ≡ true
StateBelongs (fetch_waiting pkt) = from_fetch pkt ≡ true
StateBelongs (other pkt) = from_fetch pkt ≡ false
StateBelongs (other_waiting pkt) = from_fetch pkt ≡ false
StateBelongs (answering pkt) = Unit {0}

pub record IsRouted (s : Stepped) : Type 0 where
  pub holds : StateBelongs s.state
  pub fetch : BelongsTo true s.fetch_input
  pub vec_ctrlr : BelongsTo false s.vec_ctrlr_input

-- The component that a response is for has taken its last one.
abbrev pub HasRoomFor : MultiplexerState → Stepped → Type 0
HasRoomFor top s = Unit {0}
HasRoomFor (fetched pkt) s = Unit {0}
HasRoomFor (fetch_waiting pkt) s = Unit {0}
HasRoomFor (other pkt) s = Unit {0}
HasRoomFor (other_waiting pkt) s = Unit {0}
HasRoomFor (answering pkt) s =
    (from_fetch pkt ≡ true → (s.fetch_input).response_busy ≡ false)
    × (from_fetch pkt ≡ false → (s.vec_ctrlr_input).response_busy ≡ false)

-- The step fails no assertion and keeps the invariant.
abbrev pub Succeeds : Option Stepped → Type 0
Succeeds none = ⊥
Succeeds (some s) = IsRouted s

take_response-Succeeds :
    (s : Stepped)
    → BelongsTo true s.fetch_input
    → BelongsTo false s.vec_ctrlr_input
    → Succeeds (take_response s)
unfolding take_response get_response
take_response-Succeeds s f v = elim (Bool-cases s.out.response_busy) [
  | inl busy ↦ simp busy (record { holds = tt; fetch = f; vec_ctrlr = v })
  | inr free ↦ simp free (record { holds = tt; fetch = f; vec_ctrlr = v })
]

take_other-Succeeds :
    (s : Stepped)
    → BelongsTo true s.fetch_input
    → BelongsTo false s.vec_ctrlr_input
    → Succeeds (take_other s)
unfolding take_other accept_request
take_other-Succeeds s f v = elim (Bool-cases s.vec_ctrlr_input.request_busy) [
  | inl busy ↦ simp busy (record { holds = v.0 busy; fetch = f; vec_ctrlr = (λ e. cc, v.1) })
  | inr free ↦ simp free (take_response-Succeeds s f v)
]

take_fetch-Succeeds :
    (s : Stepped)
    → BelongsTo true s.fetch_input
    → BelongsTo false s.vec_ctrlr_input
    → Succeeds (take_fetch s)
unfolding take_fetch accept_request
take_fetch-Succeeds s f v = elim (Bool-cases s.fetch_input.request_busy) [
  | inl busy ↦ simp busy (record { holds = f.0 busy; fetch = (λ e. cc, f.1); vec_ctrlr = v })
  | inr free ↦ simp free (take_other-Succeeds s f v)
]

forward_fetch-Succeeds :
    (pkt : BusPacket) (s : Stepped)
    → from_fetch pkt ≡ true
    → BelongsTo true s.fetch_input
    → BelongsTo false s.vec_ctrlr_input
    → Succeeds (forward_fetch pkt s)
unfolding forward_fetch send_request
forward_fetch-Succeeds pkt s own f v = elim (Bool-cases s.out.request_busy) [
  | inl busy ↦ simp busy (record { holds = own; fetch = f; vec_ctrlr = v })
  | inr free ↦ simp free (
      take_other-Succeeds
        (record s { out = record s.out { request_busy = true; request_data = pkt } }) f v)
]

forward_other-Succeeds :
    (pkt : BusPacket) (s : Stepped)
    → from_fetch pkt ≡ false
    → BelongsTo true s.fetch_input
    → BelongsTo false s.vec_ctrlr_input
    → Succeeds (forward_other pkt s)
unfolding forward_other send_request
forward_other-Succeeds pkt s own f v = elim (Bool-cases s.out.request_busy) [
  | inl busy ↦ simp busy (record { holds = own; fetch = f; vec_ctrlr = v })
  | inr free ↦ simp free (
      take_response-Succeeds
        (record s { out = record s.out { request_busy = true; request_data = pkt } }) f v)
]

answer-Succeeds :
    (pkt : BusPacket) (s : Stepped)
    → HasRoomFor (answering pkt) s
    → BelongsTo true s.fetch_input
    → BelongsTo false s.vec_ctrlr_input
    → Succeeds (answer pkt s)
unfolding answer send_response
answer-Succeeds pkt s room f v = elim (Bool-cases (from_fetch pkt)) [
  | inl own ↦
      simp (own, room.0 own)
        (take_fetch-Succeeds
          (record s {
            fetch_input = record s.fetch_input { response_busy = true; response_data = pkt };
          })
          (f.0, λ _. own) v)
  | inr own ↦
      simp (own, room.1 own)
        (take_fetch-Succeeds
          (record s {
            vec_ctrlr_input = record s.vec_ctrlr_input {
              response_busy = true;
              response_data = pkt;
            };
          })
          f (v.0, λ _. own))
]

step_from-Succeeds :
    (state : MultiplexerState) (s : Stepped)
    → StateBelongs state
    → HasRoomFor state s
    → BelongsTo true s.fetch_input
    → BelongsTo false s.vec_ctrlr_input
    → Succeeds (step_from state s)
unfolding step_from
step_from-Succeeds top s own room f v = take_fetch-Succeeds s f v
step_from-Succeeds (fetched pkt) s own room f v = simp own (forward_fetch-Succeeds pkt s own f v)
step_from-Succeeds (fetch_waiting pkt) s own room f v = forward_fetch-Succeeds pkt s own f v
step_from-Succeeds (other pkt) s own room f v = simp own (forward_other-Succeeds pkt s own f v)
step_from-Succeeds (other_waiting pkt) s own room f v = forward_other-Succeeds pkt s own f v
step_from-Succeeds (answering pkt) s own room f v = answer-Succeeds pkt s room f v

-- If each component sends requests in its own name and has taken its last response when the next
-- one comes for it, then no step of the multiplexer fails an assertion, and each component only
-- ever gets responses that bear its name.
pub step-IsRouted : (s : Stepped) → IsRouted s → HasRoomFor s.state s → Succeeds (step s)
step-IsRouted s h room = step_from-Succeeds s.state s h.holds room h.fetch h.vec_ctrlr

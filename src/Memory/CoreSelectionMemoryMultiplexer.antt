-- ===== src/Memory/CoreSelectionMemoryMultiplexer.antt =====
-- CoreLib/CoreSelectionMemoryMultiplexer.cpp: the cores of a cluster share one bus, and each
-- response goes back to the core that asked. `none` is a failed assertion.
pub mod Routing
use ecc_cpu.Base.{
  ℕ, zero, suc, Bool, true, false, ◌||◌, ◌==◌, ltb, if◌then◌else◌, Option, some, assert, ◌>>=◌,
  ◌>>◌, update,
}
use ecc_cpu.Packets.{BusPacket}
use ecc_cpu.Bus.MemoryBus.{MemoryBus, accept_request, get_response, send_request, send_response}

-- `scanning` is at the loop's test for an input; `accepted` stands after `accept_request` and
-- `waiting` waits for the bus; `answering` stands after `get_response`.
pub data MultiplexerState : Type 0 where
  top : MultiplexerState
  scanning : ℕ → MultiplexerState
  accepted waiting : ℕ → BusPacket → MultiplexerState
  answering : BusPacket → MultiplexerState

pub record Stepped : Type 0 where
  pub state : MultiplexerState
  pub out : MemoryBus
  pub inputs : ℕ → MemoryBus

abbrev pub num_cores : ℕ
num_cores = 1

-- The loop over the cores below `n`; the order in which they are compared does not matter.
unfoldable pub one_input_matches : BusPacket → ℕ → Bool
one_input_matches pkt zero = false
one_input_matches pkt (suc n) = one_input_matches pkt n || (pkt.source.core_id == n)

-- The loop that looks for the core of a response, from `ix` on with `left` rounds to go; `break`
-- leaves it.
unfoldable pub send_to_source : ℕ → ℕ → BusPacket → (ℕ → MemoryBus) → Option (ℕ → MemoryBus)
send_to_source zero ix out_pkt inputs = some inputs
send_to_source (suc left) ix out_pkt inputs = elim (out_pkt.source.core_id == ix) [
  | true ↦ send_response (inputs ix) out_pkt >>= λ input'. some (update inputs ix input')
  | false ↦ send_to_source left (suc ix) out_pkt inputs
]

-- The part of a round after the loop over the inputs.
unfoldable pub take_response : Stepped → Option Stepped
take_response s =
    if s.out.response_busy
    then (do
      (out_pkt, out') ← get_response s.out
      some (record s { state = answering out_pkt; out = out' }))
    else some (record s { state = top })

unfoldable pub forward : ℕ → BusPacket → Stepped → Option Stepped
forward ix in_pkt s =
    if s.out.request_busy then some (record s { state = waiting ix in_pkt }) else do
      out' ← send_request s.out in_pkt
      some (record s { state = scanning (suc ix); out = out' })

-- `cores` is the length of the array `inputs`. The code is written for any, and is built for
-- `num_cores`.
module _ (cores : ℕ) where
  unfoldable pub scan : ℕ → Stepped → Option Stepped
  scan ix s =
      if ltb ix cores
      then (if (s.inputs ix).request_busy
          then (do
            (in_pkt, input') ← accept_request (s.inputs ix)
            some (record s { state = accepted ix in_pkt; inputs = update s.inputs ix input' }))
          else some (record s { state = scanning (suc ix) }))
      else take_response s

  unfoldable pub answer : BusPacket → Stepped → Option Stepped
  answer out_pkt s = do
    inputs' ← send_to_source cores 0 out_pkt s.inputs
    assert (one_input_matches out_pkt cores)
    some (record s { state = top; inputs = inputs' })

  -- The step from `state`; the record's own state is not read.
  unfoldable pub step_from : MultiplexerState → Stepped → Option Stepped
  step_from top s = scan 0 s
  step_from (scanning ix) s = scan ix s
  step_from (accepted ix in_pkt) s = forward ix in_pkt s
  step_from (waiting ix in_pkt) s = forward ix in_pkt s
  step_from (answering out_pkt) s = answer out_pkt s

  abbrev pub step : Stepped → Option Stepped
  step s = step_from s.state s

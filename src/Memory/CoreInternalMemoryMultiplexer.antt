-- ===== src/Memory/CoreInternalMemoryMultiplexer.antt =====
-- CoreLib/CoreInternalMemoryMultiplexer.cpp: the fetch stage and the vector memory controller of a
-- core share one bus, and each response goes back to the component that asked. `none` is a failed
-- assertion.
pub mod Routing
use ecc_cpu.Base.{Bool, not, ◌==◌, if◌then◌else◌, Option, some, assert, ◌>>=◌, ◌>>◌}
use ecc_cpu.Defines.{CoreComponentId, component_value}
use ecc_cpu.Packets.{BusPacket}
use ecc_cpu.Bus.MemoryBus.{MemoryBus, accept_request, get_response, send_request, send_response}

-- `fetched` and `other` stand after the two calls of `accept_request`, and `fetch_waiting` and
-- `other_waiting` wait for the bus; `answering` stands after `get_response`.
pub data MultiplexerState : Type 0 where
  top : MultiplexerState
  fetched fetch_waiting other other_waiting answering : BusPacket → MultiplexerState

pub record Stepped : Type 0 where
  pub state : MultiplexerState
  pub out : MemoryBus
  pub fetch_input : MemoryBus
  pub vec_ctrlr_input : MemoryBus

abbrev pub from_fetch : BusPacket → Bool
from_fetch pkt = component_value pkt.source.within_core_id == component_value CoreComponentId.fetch

-- The last part of a round. Without a response the round ends here.
unfoldable pub take_response : Stepped → Option Stepped
take_response s =
    if s.out.response_busy
    then (do
      (out_pkt, out') ← get_response s.out
      some (record s { state = answering out_pkt; out = out' }))
    else some (record s { state = top })

unfoldable pub take_other : Stepped → Option Stepped
take_other s =
    if s.vec_ctrlr_input.request_busy
    then (do
      (other_pkt, input') ← accept_request s.vec_ctrlr_input
      some (record s { state = other other_pkt; vec_ctrlr_input = input' }))
    else take_response s

unfoldable pub take_fetch : Stepped → Option Stepped
take_fetch s =
    if s.fetch_input.request_busy
    then (do
      (fetch_pkt, input') ← accept_request s.fetch_input
      some (record s { state = fetched fetch_pkt; fetch_input = input' }))
    else take_other s

unfoldable pub forward_fetch : BusPacket → Stepped → Option Stepped
forward_fetch fetch_pkt s =
    if s.out.request_busy
    then some (record s { state = fetch_waiting fetch_pkt })
    else do out' ← send_request s.out fetch_pkt; take_other (record s { out = out' })

unfoldable pub forward_other : BusPacket → Stepped → Option Stepped
forward_other other_pkt s =
    if s.out.request_busy
    then some (record s { state = other_waiting other_pkt })
    else do out' ← send_request s.out other_pkt; take_response (record s { out = out' })

-- After a response the next round begins at once.
unfoldable pub answer : BusPacket → Stepped → Option Stepped
answer out_pkt s =
    if from_fetch out_pkt
    then (do
      input' ← send_response s.fetch_input out_pkt
      take_fetch (record s { fetch_input = input' }))
    else do
      input' ← send_response s.vec_ctrlr_input out_pkt
      take_fetch (record s { vec_ctrlr_input = input' })

-- The step from `state`; the record's own state is not read.
unfoldable pub step_from : MultiplexerState → Stepped → Option Stepped
step_from top s = take_fetch s
step_from (fetched fetch_pkt) s = assert (from_fetch fetch_pkt) >> forward_fetch fetch_pkt s
step_from (fetch_waiting fetch_pkt) s = forward_fetch fetch_pkt s
step_from (other other_pkt) s = assert (not (from_fetch other_pkt)) >> forward_other other_pkt s
step_from (other_waiting other_pkt) s = forward_other other_pkt s
step_from (answering out_pkt) s = answer out_pkt s

abbrev pub step : Stepped → Option Stepped
step s = step_from s.state s

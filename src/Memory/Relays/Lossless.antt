-- ===== src/Memory/Relays/Lossless.antt =====
-- The packets on their way through CoreLib/L1DataCache.cpp, CoreLib/L2DataCache.cpp,
-- CoreLib/L2InsnCache.cpp and CoreLib/L3Cache.cpp.
use ecc_cpu.Base.{
  ℕ, ◌≡◌, refl, Bool, true, false, Option, none, some, List, [], ◌∷◌, ◌++◌, if◌then◌else◌, arith,
}
use ecc_cpu.Defines.{BusId}
use ecc_cpu.Packets.{BusPacket, BusPacketType, bus_read_data, bus_read_response}
use ecc_cpu.Bus.MemoryBus.{accept_request, get_response, send_request, send_response}
use ecc_cpu.Memory.Relays.{
  Relay, pass_request, pass_response, l1_data_step, l2_data_step, l3_step, pass_insn_request,
  pass_insn_response, l2_insn_step,
}

-- What a bus holds, if it is busy.
abbrev held {ℓ} : {A : Type ℓ} → Bool → A → List A
held busy pkt = if busy then pkt ∷ [] else []

-- The requests on their way to the memory, the first one first.
abbrev pub requests : Relay → List BusPacket
requests r =
    held r.to_memory.request_busy r.to_memory.request_data
    ++ held r.to_cpu.request_busy r.to_cpu.request_data

-- The responses on their way to the CPU, the first one first.
abbrev pub responses : Relay → List BusPacket
responses r =
    held r.to_cpu.response_busy r.to_cpu.response_data
    ++ held r.to_memory.response_busy r.to_memory.response_data

-- The round fails no assertion and keeps what is on its way, in its order.
abbrev pub Relays : Relay → Option Relay → Type 0
Relays r none = ⊥
Relays r (some r') = (requests r' ≡ requests r) × (responses r' ≡ responses r)

-- On the instruction path a request is one for an address by a component, whatever its kind is, that
-- the memory gets as a read.
abbrev pub insn_requests : Relay → List (BusPacketType × BusId × ℕ)
insn_requests r =
    let sent : BusPacket = r.to_memory.request_data in
    let asked : BusPacket = r.to_cpu.request_data in
    held r.to_memory.request_busy (sent.packet_type, sent.source, sent.address)
    ++ held r.to_cpu.request_busy (bus_read_data, asked.source, asked.address)

-- A response is a word for an address to a component, that the CPU gets as the answer of a read.
abbrev pub insn_responses : Relay → List (BusPacketType × BusId × ℕ × ℕ)
insn_responses r =
    let given : BusPacket = r.to_cpu.response_data in
    let arrived : BusPacket = r.to_memory.response_data in
    held r.to_cpu.response_busy (given.packet_type, given.source, given.address, given.payload)
    ++ held r.to_memory.response_busy
        (bus_read_response, arrived.source, arrived.address, arrived.payload)

abbrev pub RelaysInsn : Relay → Option Relay → Type 0
RelaysInsn r none = ⊥
RelaysInsn r (some r') =
    (insn_requests r' ≡ insn_requests r) × (insn_responses r' ≡ insn_responses r)

-- There is no response on both buses.
abbrev pub HasRoom : Relay → Type 0
HasRoom r = r.to_memory.response_busy ≡ true → r.to_cpu.response_busy ≡ false

abbrev pub HasRoomDown : Relay → Type 0
HasRoomDown r = r.to_cpu.request_busy ≡ true → r.to_memory.request_busy ≡ false

-- A relay from the eight fields of its two buses.
abbrev relay : Bool → Bool → Bool → Bool → BusPacket → BusPacket → BusPacket → BusPacket → Relay
relay down up down' up' a b c d = record {
  to_cpu = record { request_busy = down; response_busy = up; request_data = a; response_data = b };
  to_memory = record {
    request_busy = down';
    response_busy = up';
    request_data = c;
    response_data = d;
  };
}

module _ (a b c d : BusPacket) where
  l1_data_step-relay :
      (down up down' up' : Bool)
      → Relays (relay down up down' up' a b c d) (l1_data_step (relay down up down' up' a b c d))
  unfolding l1_data_step pass_request pass_response accept_request get_response send_request
      send_response
  l1_data_step-relay down true true up' = (refl, refl)
  l1_data_step-relay down false true true = (refl, refl)
  l1_data_step-relay down false true false = (refl, refl)
  l1_data_step-relay true true false up' = (refl, refl)
  l1_data_step-relay true false false true = (refl, refl)
  l1_data_step-relay true false false false = (refl, refl)
  l1_data_step-relay false true false up' = (refl, refl)
  l1_data_step-relay false false false true = (refl, refl)
  l1_data_step-relay false false false false = (refl, refl)

  l2_data_step-relay :
      (down up down' up' : Bool)
      → HasRoom (relay down up down' up' a b c d)
      → Relays (relay down up down' up' a b c d) (l2_data_step (relay down up down' up' a b c d))
  unfolding l2_data_step pass_request pass_response accept_request get_response send_request
      send_response
  l2_data_step-relay down up true false h = (refl, refl)
  l2_data_step-relay down false true true h = (refl, refl)
  l2_data_step-relay down true true true h = ground (arith, h refl)
  l2_data_step-relay true up false false h = (refl, refl)
  l2_data_step-relay true false false true h = (refl, refl)
  l2_data_step-relay true true false true h = ground (arith, h refl)
  l2_data_step-relay false up false false h = (refl, refl)
  l2_data_step-relay false false false true h = (refl, refl)
  l2_data_step-relay false true false true h = ground (arith, h refl)

  l2_insn_step-relay :
      (down up down' up' : Bool)
      → HasRoomDown (relay down up down' up' a b c d)
      → HasRoom (relay down up down' up' a b c d)
      → RelaysInsn
          (relay down up down' up' a b c d)
          (l2_insn_step (relay down up down' up' a b c d))
  unfolding l2_insn_step pass_insn_request pass_insn_response accept_request get_response
      send_request send_response
  l2_insn_step-relay false up down' false g h = (refl, refl)
  l2_insn_step-relay false false down' true g h = (refl, refl)
  l2_insn_step-relay false true down' true g h = ground (arith, h refl)
  l2_insn_step-relay true up false false g h = (refl, refl)
  l2_insn_step-relay true false false true g h = (refl, refl)
  l2_insn_step-relay true true false true g h = ground (arith, h refl)
  l2_insn_step-relay true up true up' g h = ground (arith, g refl)

-- The first level of the data path never fails an assertion, and it loses, doubles and reorders no
-- request and no response.
pub l1_data_step-Relays : (r : Relay) → Relays r (l1_data_step r)
l1_data_step-Relays r = l1_data_step-relay _ _ _ _ _ _ _ _

-- Unless a response waits on both buses, the second level of the data path fails no assertion, and
-- it loses, doubles and reorders no request and no response.
pub l2_data_step-Relays : (r : Relay) → HasRoom r → Relays r (l2_data_step r)
l2_data_step-Relays r h = l2_data_step-relay _ _ _ _ _ _ _ _ h

-- Unless a response waits on both buses, the third level fails no assertion, and it loses, doubles
-- and reorders no request and no response.
l3_step-Relays : (r : Relay) → HasRoom r → Relays r (l3_step r)
unfolding l3_step l2_data_step
l3_step-Relays r h = l2_data_step-Relays r h

pub l2_insn_step-Relays : (r : Relay) → HasRoomDown r → HasRoom r → RelaysInsn r (l2_insn_step r)
l2_insn_step-Relays r g h = l2_insn_step-relay _ _ _ _ _ _ _ _ g h

-- ===== src/Bus/MemoryBus.antt =====
-- CoreLib/include/MemoryBus.h
use ecc_cpu.Base.{ℕ, Bool, true, false, not, Option, some, assert, ◌>>◌}
use ecc_cpu.Defines.{BusId}
use ecc_cpu.Packets.{BusPacket, create_bus_packet, bus_read_data, bus_write_data, bus_read_response}

pub record MemoryBus : Type 0 where
  pub request_busy : Bool
  pub response_busy : Bool
  pub request_data : BusPacket
  pub response_data : BusPacket

unfoldable pub init : MemoryBus → MemoryBus
init b = record b { request_busy = false; response_busy = false }

-- The three calls below assert nothing: a request or response that was waiting is overwritten.
unfoldable pub send_read_request_data : MemoryBus → ℕ → BusId → MemoryBus
send_read_request_data b address source = record b {
  request_busy = true;
  request_data = create_bus_packet bus_read_data source address 0;
}

unfoldable pub send_write_request_data : MemoryBus → ℕ → BusId → ℕ → MemoryBus
send_write_request_data b address source payload = record b {
  request_busy = true;
  request_data = create_bus_packet bus_write_data source address payload;
}

unfoldable pub send_read_response : MemoryBus → ℕ → BusId → ℕ → MemoryBus
send_read_response b value source address = record b {
  response_busy = true;
  response_data = create_bus_packet bus_read_response source address value;
}

unfoldable pub accept_request : MemoryBus → Option (BusPacket × MemoryBus)
accept_request b = assert b.request_busy >> some (b.request_data, record b { request_busy = false })

unfoldable pub get_response : MemoryBus → Option (BusPacket × MemoryBus)
get_response b =
    assert b.response_busy >> some (b.response_data, record b { response_busy = false })

unfoldable pub send_request : MemoryBus → BusPacket → Option MemoryBus
send_request b pkt =
    assert (not b.request_busy) >> some (record b { request_busy = true; request_data = pkt })

unfoldable pub send_response : MemoryBus → BusPacket → Option MemoryBus
send_response b pkt =
    assert (not b.response_busy) >> some (record b { response_busy = true; response_data = pkt })

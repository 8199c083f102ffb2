-- ===== src/Bus/VecMemoryBus.antt =====
-- CoreLib/include/VecMemoryBus.h
use ecc_cpu.Base.{Bool, true, false, not, Option, some, assert, ◌>>◌}
use ecc_cpu.Defines.{BusId}
use ecc_cpu.VectorValue.{VectorValue}
use ecc_cpu.Packets.{VecBusPacket, read_vec64, write_vec64}

pub record VecMemoryBus : Type 0 where
  pub request_busy : Bool
  pub request_queue : VecBusPacket
  pub response_busy : Bool
  pub response_queue : VecBusPacket

unfoldable pub init : VecMemoryBus → VecMemoryBus
init b = record b { request_busy = false; response_busy = false }

-- A read request leaves the payload as it was.
unfoldable pub send_read_request_vec : VecMemoryBus → VectorValue → BusId → Option VecMemoryBus
send_read_request_vec b addr source =
    assert (not b.request_busy)
    >> some (record b {
      request_busy = true;
      request_queue = record b.request_queue {
        source = source;
        address = addr;
        packet_type = read_vec64;
      };
    })

unfoldable pub send_write_request_vec :
    VecMemoryBus → VectorValue → BusId → VectorValue → VecMemoryBus
send_write_request_vec b addr source v = record b {
  request_busy = true;
  request_queue = record {
    source = source;
    address = addr;
    payload = v;
    packet_type = write_vec64;
  };
}

unfoldable pub accept_request : VecMemoryBus → Option (VecBusPacket × VecMemoryBus)
accept_request b =
    assert b.request_busy >> some (b.request_queue, record b { request_busy = false })

unfoldable pub accept_response : VecMemoryBus → Option (VecBusPacket × VecMemoryBus)
accept_response b =
    assert b.response_busy >> some (b.response_queue, record b { response_busy = false })

unfoldable pub send_response : VecMemoryBus → VecBusPacket → Option VecMemoryBus
send_response b pkt =
    assert (not b.response_busy) >> some (record b { response_busy = true; response_queue = pkt })

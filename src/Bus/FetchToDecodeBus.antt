-- ===== src/Bus/FetchToDecodeBus.antt =====
-- CoreLib/include/FetchToDecodeBus.h
use ecc_cpu.Base.{Bool, true, false, not, Option, some, assert, ◌>>◌}
use ecc_cpu.Packets.{FetchToDecodeBusPacket}

pub record FetchToDecodeBus : Type 0 where
  pub is_busy : Bool
  pub packet : FetchToDecodeBusPacket

unfoldable pub init : FetchToDecodeBus → FetchToDecodeBus
init b = record b { is_busy = false }

unfoldable pub send : FetchToDecodeBus → FetchToDecodeBusPacket → Option FetchToDecodeBus
send b pkt = assert (not b.is_busy) >> some (record { is_busy = true; packet = pkt })

unfoldable pub recv : FetchToDecodeBus → Option (FetchToDecodeBusPacket × FetchToDecodeBus)
recv b = assert b.is_busy >> some (b.packet, record b { is_busy = false })

-- ===== src/Bus/StoreToFetchBus.antt =====
-- CoreLib/include/StoreToFetchBus.h
use ecc_cpu.Base.{ℕ, Bool, true, false, not, Option, some, assert, ◌>>◌}
use ecc_cpu.Packets.{StoreToFetchPacket}

pub record StoreToFetchBus : Type 0 where
  pub can_receive : Bool
  pub packet : StoreToFetchPacket

unfoldable pub init : StoreToFetchBus → StoreToFetchBus
init b = record b { can_receive = false }

unfoldable pub send : StoreToFetchBus → ℕ → ℕ → Option StoreToFetchBus
send b mask new_pc =
    assert (not b.can_receive)
    >> some (record { can_receive = true; packet = record { exec_mask = mask; newpc = new_pc } })

unfoldable pub recv : StoreToFetchBus → Option (StoreToFetchPacket × StoreToFetchBus)
recv b = assert b.can_receive >> some (b.packet, record b { can_receive = false })

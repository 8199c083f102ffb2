-- ===== src/Bus/DecodeToExecuteBus.antt =====
-- CoreLib/include/DecodeToExecuteBus.h. A request that names fewer values leaves the others of the
-- packet as they were.
use ecc_cpu.Base.{ℕ, Bool, true, false, not, Option, some, assert, ◌>>◌}
use ecc_cpu.Defines.{RegisterId, ExecuteStageOpcode}
use ecc_cpu.VectorValue.{VectorValue}
use ecc_cpu.Packets.{DecodeExecPacket, reg_id, vec}

pub record DecodeToExecuteBus : Type 0 where
  pub is_busy : Bool
  pub packet : DecodeExecPacket

unfoldable pub init : DecodeToExecuteBus → DecodeToExecuteBus
init b = record b { is_busy = false }

module _ (b : DecodeToExecuteBus) (exec_mask pc : ℕ) (opcode : ExecuteStageOpcode) where
  unfoldable pub send_req0 : Option DecodeToExecuteBus
  send_req0 =
      assert (not b.is_busy)
      >> some (record {
        is_busy = true;
        packet = record b.packet { exec_mask = exec_mask; pc = pc; opcode = opcode };
      })

  unfoldable pub send_req1 : VectorValue → Option DecodeToExecuteBus
  send_req1 value0 =
      assert (not b.is_busy)
      >> some (record {
        is_busy = true;
        packet = record b.packet {
          exec_mask = exec_mask;
          pc = pc;
          opcode = opcode;
          value0 = vec value0;
        };
      })

  unfoldable pub send_req2_reg : RegisterId → VectorValue → Option DecodeToExecuteBus
  send_req2_reg value0 value1 =
      assert (not b.is_busy)
      >> some (record {
        is_busy = true;
        packet = record b.packet {
          exec_mask = exec_mask;
          pc = pc;
          opcode = opcode;
          value0 = reg_id value0;
          value1 = value1;
        };
      })

  unfoldable pub send_req2_vec : VectorValue → VectorValue → Option DecodeToExecuteBus
  send_req2_vec value0 value1 =
      assert (not b.is_busy)
      >> some (record {
        is_busy = true;
        packet = record b.packet {
          exec_mask = exec_mask;
          pc = pc;
          opcode = opcode;
          value0 = vec value0;
          value1 = value1;
        };
      })

  unfoldable pub send_req3_reg : RegisterId → VectorValue → VectorValue → Option DecodeToExecuteBus
  send_req3_reg value0 value1 value2 =
      assert (not b.is_busy)
      >> some (record {
        is_busy = true;
        packet = record {
          exec_mask = exec_mask;
          pc = pc;
          opcode = opcode;
          value0 = reg_id value0;
          value1 = value1;
          value2 = value2;
        };
      })

  unfoldable pub send_req3_vec : VectorValue → VectorValue → VectorValue → Option DecodeToExecuteBus
  send_req3_vec value0 value1 value2 =
      assert (not b.is_busy)
      >> some (record {
        is_busy = true;
        packet = record {
          exec_mask = exec_mask;
          pc = pc;
          opcode = opcode;
          value0 = vec value0;
          value1 = value1;
          value2 = value2;
        };
      })

-- `recv` does not assert that there is a packet.
unfoldable pub recv : DecodeToExecuteBus → DecodeExecPacket × DecodeToExecuteBus
recv b = (b.packet, record b { is_busy = false })

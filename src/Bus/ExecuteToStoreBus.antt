-- ===== src/Bus/ExecuteToStoreBus.antt =====
-- CoreLib/include/ExecuteToStoreBus.h
use ecc_cpu.Base.{ℕ, Bool, true, false, not, Option, some, assert, ◌>>◌}
use ecc_cpu.Defines.{RegisterId, StorageStageOpcode}
use ecc_cpu.VectorValue.{VectorValue}
use ecc_cpu.Packets.{ExecStagePacket, of_address, of_value, of_reg}

pub record ExecuteToStoreBus : Type 0 where
  pub is_busy : Bool
  pub packet : ExecStagePacket

unfoldable pub init : ExecuteToStoreBus → ExecuteToStoreBus
init b = record b { is_busy = false }

module _ (b : ExecuteToStoreBus) (exec_mask pc : ℕ) (opcode : StorageStageOpcode) where
  unfoldable pub send_none : Option ExecuteToStoreBus
  send_none =
      assert (not b.is_busy)
      >> some (record {
        is_busy = true;
        packet = record b.packet {
          exec_mask = exec_mask;
          pc = pc;
          opcode = opcode;
          is_store_to_pc = false;
        };
      })

  unfoldable pub send_reg_vec : RegisterId → VectorValue → Bool → Option ExecuteToStoreBus
  send_reg_vec reg v store_to_pc =
      assert (not b.is_busy)
      >> some (record {
        is_busy = true;
        packet = record b.packet {
          exec_mask = exec_mask;
          pc = pc;
          opcode = opcode;
          dest = of_reg reg;
          src = of_value v;
          is_store_to_pc = store_to_pc;
        };
      })

  unfoldable pub send_vec_vec : VectorValue → VectorValue → Option ExecuteToStoreBus
  send_vec_vec vec1 vec2 =
      assert (not b.is_busy)
      >> some (record {
        is_busy = true;
        packet = record b.packet {
          exec_mask = exec_mask;
          pc = pc;
          opcode = opcode;
          dest = of_value vec1;
          src = of_value vec2;
          is_store_to_pc = false;
        };
      })

  unfoldable pub send_address : ℕ → Option ExecuteToStoreBus
  send_address addr =
      assert (not b.is_busy)
      >> some (record {
        is_busy = true;
        packet = record b.packet {
          exec_mask = exec_mask;
          pc = pc;
          opcode = opcode;
          dest = of_address addr;
          is_store_to_pc = false;
        };
      })

  unfoldable pub send_2_address : ℕ → ℕ → ℕ → ℕ → Option ExecuteToStoreBus
  send_2_address addr1 addr2 true_mask1 false_mask2 =
      assert (not b.is_busy)
      >> some (record {
        is_busy = true;
        packet = record {
          exec_mask = exec_mask;
          pc = pc;
          opcode = opcode;
          dest = of_address addr1;
          src = of_address addr2;
          is_store_to_pc = false;
          execution_flags_true = true_mask1;
          execution_flags_false = false_mask2;
        };
      })

unfoldable pub recv : ExecuteToStoreBus → Option (ExecStagePacket × ExecuteToStoreBus)
recv b = assert b.is_busy >> some (b.packet, record b { is_busy = false })

-- ===== src/App/Packet.antt =====
-- LlmControlPacket of src/app.hpp, as it lies in memory on the wire.
use distributed_llama.Base.{ℕ, ◌^◌, ◌<◌, List, ◌++◌}
use distributed_llama.Network.Stream.{
  Reader, ◌>>=◌, pure, Reads, Reads-then, Reads-last, read_number-Reads,
}
use distributed_llama.Network.Wire.{u32, u64, read_u32, read_u64}

pub record LlmControlPacket : Type 0 where
  pub position : ℕ
  pub batch_size : ℕ
  pub slot : ℕ
  pub cache_save_id : ℕ
  pub cache_load_id : ℕ

-- Four bytes in front of the ids are not set.
unfoldable pub write_packet : ℕ → LlmControlPacket → List ℕ
write_packet padding p =
    u32 p.position
    ++ (u32 p.batch_size
        ++ (u32 p.slot ++ (u32 padding ++ (u64 p.cache_save_id ++ u64 p.cache_load_id))))

unfoldable pub read_packet : Reader LlmControlPacket
read_packet = do
  position ← read_u32
  batch_size ← read_u32
  slot ← read_u32
  padding ← read_u32
  cache_save_id ← read_u64
  cache_load_id ← read_u64
  pure (record {
    position = position;
    batch_size = batch_size;
    slot = slot;
    cache_save_id = cache_save_id;
    cache_load_id = cache_load_id;
  })

abbrev pub FitsPacket : LlmControlPacket → Type 0
FitsPacket p =
    (p.position < 256 ^ 4)
    × (p.batch_size < 256 ^ 4)
    × (p.slot < 256 ^ 4)
    × (p.cache_save_id < 256 ^ 8)
    × (p.cache_load_id < 256 ^ 8)

pub read_packet-Reads :
    (padding : ℕ) (p : LlmControlPacket)
    → padding < 256 ^ 4
    → FitsPacket p
    → Reads read_packet (write_packet padding p) p
unfolding read_packet write_packet
read_packet-Reads padding p pad (h1, h2, h3, h4, h5) =
    Reads-then _ (read_number-Reads 4 p.position h1) (
      Reads-then _ (read_number-Reads 4 p.batch_size h2) (
        Reads-then _ (read_number-Reads 4 p.slot h3) (
          Reads-then _ (read_number-Reads 4 padding pad) (
            Reads-then _ (read_number-Reads 8 p.cache_save_id h4)
              (Reads-last _ (read_number-Reads 8 p.cache_load_id h5))))))

-- ===== src/Graph/Visited.antt =====
-- `VisitedBitmap` of src/core/visited_bitmap.h. A byte of the map is its eight bits, the lowest
-- first, as in Lsm/Bloom.antt.
pub mod Marks
use agent_mem_io.Prelude.{
  ℕ, ◌+◌, ◌/◌, ◌%◌, ◌^◌, Bool, true, false, List, map, length, replicate, leb, if◌then◌else◌,
}
use agent_mem_io.Lsm.Bloom.{Filter, set_bit, test_bit}

pub record Bitmap : Type 0 where
  pub size : ℕ
  pub bitmap : Filter

-- `(max_num_nodes + 7) / 8` bytes of zeros
abbrev pub zeros : ℕ → Filter
zeros max_num_nodes = replicate ((max_num_nodes + 7) % 2 ^ 64 / 8) (replicate 8 false)

unfoldable pub new : ℕ → Bitmap
new max_num_nodes = record { size = max_num_nodes; bitmap = zeros max_num_nodes }

-- A node out of range counts as visited.
unfoldable pub test : ℕ → Bitmap → Bool
test id b = if leb b.size id then true else test_bit id b.bitmap

unfoldable pub mark : ℕ → Bitmap → Bitmap
mark id b = if leb b.size id then b else record b { bitmap = set_bit id b.bitmap }

unfoldable pub clear : Bitmap → Bitmap
clear b = record b { bitmap = replicate (length b.bitmap) (replicate 8 false) }

unfoldable pub resize : ℕ → Bitmap → Bitmap
resize max_num_nodes b = record { size = max_num_nodes; bitmap = zeros max_num_nodes }

unfoldable pub memory_usage : Bitmap → ℕ
memory_usage b = length b.bitmap

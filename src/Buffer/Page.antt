-- ===== src/Buffer/Page.antt =====
-- The page helpers of src/buffer/page.cpp. A byte of a page is a `char`, which is signed on the
-- machines that the program is built for: its cast to 16 bits extends the sign.
pub mod Checksum
use agent_mem_io.Prelude.{
  ℕ, zero, suc, ◌+◌, ◌-◌, ◌*◌, ◌/◌, ◌%◌, ◌^◌, Bool, true, false, Option, none, some, List, [], ◌∷◌,
  ◌++◌, take, drop, replicate, length, ltb, ◌==◌, if◌then◌else◌,
}
use agent_mem_io.Prelude.Bytes.{Bytes, to_le, read_le}

abbrev pub page_size : ℕ
page_size = 4096

-- `Size` is a 64-bit word.
unfoldable pub align_to_page_size : ℕ → ℕ
align_to_page_size size = ((size + page_size - 1) % 2 ^ 64) / page_size * page_size

unfoldable pub is_page_aligned_offset : ℕ → Bool
is_page_aligned_offset offset = offset % page_size == 0

-- `memset(page, 0, PAGE_SIZE)` on a buffer of at least a page.
unfoldable pub zero_page : Bytes → Bytes
zero_page page = replicate page_size 0 ++ drop page_size page

-- `static_cast<uint16_t>(page[i])`
unfoldable pub signed_word : ℕ → ℕ
signed_word b = if ltb b 128 then b else 65280 + b

-- The loop over the first 4092 bytes. The sums are of `int`s, which are wide enough.
unfoldable pub fletcher : Bytes → ℕ → ℕ → ℕ × ℕ
fletcher [] sum1 sum2 = (sum1, sum2)
fletcher (b ∷ bs) sum1 sum2 =
    let s = (sum1 + signed_word b) % 255 in fletcher bs s ((sum2 + s) % 255)

unfoldable pub compute_page_checksum : Bytes → ℕ
compute_page_checksum page = let t = fletcher (take (page_size - 4) page) 0 0 in t.1 * 256 + t.0

unfoldable pub write_page_checksum : Bytes → Bytes
write_page_checksum page =
    take (page_size - 4) page ++ (to_le 4 (compute_page_checksum page) ++ drop page_size page)

-- A page shorter than 4096 bytes is read past its end.
unfoldable pub verify_page_checksum : Bytes → Option Bool
verify_page_checksum page = elim (read_le 4 (drop (page_size - 4) page)) [
  | none ↦ none
  | some (stored, rest) ↦ some (stored == compute_page_checksum page)
]

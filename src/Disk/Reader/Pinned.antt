-- ===== src/Disk/Reader/Pinned.antt =====
-- The pins of src/io/disk_layout.cpp, and the distances that are computed in a pinned page.
--
-- Distances are a parameter, with the function that the code calls on the query and the words of a
-- vector; `none` stands for words read past the end of a page, or for fields that are unset.
pub mod Distance
use agent_mem_io.Prelude.{
  ℕ, ◌%◌, ◌^◌, Bool, true, false, Option, none, some, List, [], ◌∷◌, ◌++◌, length, take, drop, leb,
  if◌then◌else◌, is_some,
}
use agent_mem_io.Prelude.Bytes.{Bytes}
use agent_mem_io.Lsm.Entry.{Vector}
use agent_mem_io.Lsm.SsTable.{read_vector_words}
use agent_mem_io.Buffer.Pool.{Pool}
use agent_mem_io.Buffer.Pool.Methods
use agent_mem_io.Buffer.Pool.Methods.{get_and_pin_page, get_or_load_and_pin_page}
use agent_mem_io.Disk.Record.{disk_record_header_size, disk_record_size}
use agent_mem_io.Disk.Reader.{Reader, calculate_offset, put_pool, read_vector}

unfoldable pub pin_page : ℕ → Reader → Bool × Reader
pin_page id r = elim r.buffer_pool_mgr [
  | none ↦ (false, r)
  | some s ↦ let t = Methods.pin_page id s in (t.0, put_pool t.1 r)
]

unfoldable pub unpin_page : ℕ → Reader → Bool × Reader
unpin_page id r = elim r.buffer_pool_mgr [
  | none ↦ (false, r)
  | some s ↦ let t = Methods.unpin_page id s in (t.0, put_pool t.1 r)
]

unfoldable pub unpin_all_pages : List ℕ → Reader → Reader
unpin_all_pages ids r = elim r.buffer_pool_mgr [
  | none ↦ r
  | some s ↦ put_pool (Methods.unpin_all_pages ids s) r
]

module _ {D : Type 0} (l2_distance_sq : Vector → Vector → D) where
  -- The distance to the words of a page at the offset of the vector.
  unfoldable pub distance_in_page : Vector → Bytes → Option D
  distance_in_page query b =
      elim (read_vector_words (length query) (drop disk_record_header_size b)) [
        | none ↦ none
        | some (v, rest) ↦ some (l2_distance_sq query v)
      ]

  -- The distance to a vector that was read; an empty one stands for a failure.
  unfoldable pub distance_of_vector : D → Vector → Option Vector → Option D
  distance_of_vector failed query none = none
  distance_of_vector failed query (some []) = some failed
  distance_of_vector failed query (some (w ∷ ws)) =
      if leb (length query) (length (w ∷ ws))
      then some (l2_distance_sq query (take (length query) (w ∷ ws)))
      else none

  -- After a call that pins: the distance in the page, which is unpinned, or what comes next.
  unfoldable pub distance_pinned :
      ℕ → Vector → Option Bytes → Pool → Reader → Option D × Reader → Option D × Reader
  distance_pinned id query none s r next = next
  distance_pinned id query (some b) s r next =
      (distance_in_page query b, put_pool (Methods.unpin_page id s).1 r)

module _ (pread : ℕ → ℕ → Bytes) where
  -- The `load_func` of the pinned reads: it calls `pread` without the checks of `read_node`.
  unfoldable pub page_func : Reader → Bytes → ℕ → Bytes
  page_func r buffer page =
      let got : Bytes =
        if r.is_open then pread (calculate_offset (page % 2 ^ 32)) disk_record_size else [] in
      got ++ drop (length got) buffer

  module _ (now : ℕ) (fresh : Bytes) where
    unfoldable pub ensure_page_pinned : ℕ → Reader → Bool × Reader
    ensure_page_pinned id r = elim r.buffer_pool_mgr [
      | none ↦ (false, r)
      | some s ↦
          let t = Methods.pin_page id s in
          let u = get_or_load_and_pin_page now id id fresh (page_func r) t.1 in
          if t.0 then (true, put_pool t.1 r) else (is_some u.0, put_pool u.1 r)
    ]

  module _ {D : Type 0} (l2_distance_sq : Vector → Vector → D) (failed : D) where
    module _ (spare : Option Bytes) (now : ℕ) (fresh : Bytes) where
      unfoldable pub distance_by_vector : ℕ → Vector → Reader → Option D × Reader
      distance_by_vector id query r =
          let t = read_vector pread spare now fresh id r in
          (distance_of_vector l2_distance_sq failed query t.0, t.1)

      unfoldable pub distance_loaded : ℕ → Vector → Pool → Reader → Option D × Reader
      distance_loaded id query s r =
          let u = get_or_load_and_pin_page now id id fresh (page_func r) s in
          distance_pinned l2_distance_sq id query u.0 u.1 r
            (distance_by_vector id query (put_pool u.1 r))

      unfoldable pub compute_distance_direct : ℕ → Vector → Reader → Option D × Reader
      compute_distance_direct id query r = elim r.buffer_pool_mgr [
        | none ↦ distance_by_vector id query r
        | some s ↦
            let t = get_and_pin_page now id s in
            distance_pinned l2_distance_sq id query t.0 t.1 r (distance_loaded id query t.1 r)
      ]

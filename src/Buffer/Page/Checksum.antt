-- ===== src/Buffer/Page/Checksum.antt =====
-- A page whose checksum was written is verified, and alignment.
use agent_mem_io.Prelude.{
  ℕ, ◌+◌, ◌-◌, ◌*◌, ◌/◌, ◌%◌, ◌^◌, ◌<◌, ◌≤◌, ◌≡◌, refl, subst, true, some, [], ◌∷◌, ◌++◌, length,
  take, drop, length-take, take-append, drop-append, ◌==◌, arith,
}
use agent_mem_io.Prelude.Bytes.{Bytes, to_le, read_le-to_le}
use agent_mem_io.Buffer.Page.{
  page_size, align_to_page_size, is_page_aligned_offset, signed_word, fletcher,
  compute_page_checksum, write_page_checksum, verify_page_checksum,
}

-- Both sums stay below 255.
fletcher-lt :
    (bs : Bytes) (s1 s2 : ℕ)
    → s1 < 255
    → s2 < 255
    → ((fletcher bs s1 s2).0 < 255) × ((fletcher bs s1 s2).1 < 255)
unfolding fletcher
fletcher-lt [] s1 s2 h k = (h, k)
fletcher-lt (b ∷ bs) s1 s2 h k =
    let s = (s1 + signed_word b) % 255 in
    fletcher-lt bs s ((s2 + s) % 255) (omega arith) (omega arith)

compute_page_checksum-lt : (page : Bytes) → compute_page_checksum page < 2 ^ 16
unfolding compute_page_checksum
compute_page_checksum-lt page =
    let (a, b) = fletcher-lt (take (page_size - 4) page) 0 0 (omega arith) (omega arith) in
    omega (arith, a, b)

same_number : (n : ℕ) → (n == n) ≡ true
same_number n = ground arith

module _ (page : Bytes) (long : page_size ≤ length page) where
  body_length : length (take (page_size - 4) page) ≡ page_size - 4
  body_length = omega (arith, length-take (page_size - 4) page, long)

  -- The bytes under the checksum are those of the page before.
  same_body : take (page_size - 4) (write_page_checksum page) ≡ take (page_size - 4) page
  unfolding write_page_checksum
  same_body =
      subst (λ n. take n (write_page_checksum page) ≡ take (page_size - 4) page) body_length
        (take-append (take (page_size - 4) page) _)

  same_checksum : compute_page_checksum (write_page_checksum page) ≡ compute_page_checksum page
  unfolding compute_page_checksum
  same_checksum = rw same_body refl

  tail_of :
      drop (page_size - 4) (write_page_checksum page)
      ≡ to_le 4 (compute_page_checksum page) ++ drop page_size page
  unfolding write_page_checksum
  tail_of =
      subst
        (λ n.
          drop n (write_page_checksum page)
          ≡ to_le 4 (compute_page_checksum page) ++ drop page_size page)
        body_length (drop-append (take (page_size - 4) page) _)

  -- A page of at least 4096 bytes whose checksum was written is verified, and the checksum changes
  -- none of the first 4092 bytes.
  pub verify_page_checksum-write_page_checksum :
      (verify_page_checksum (write_page_checksum page) ≡ some true)
      × (take (page_size - 4) (write_page_checksum page) ≡ take (page_size - 4) page)
  unfolding verify_page_checksum
  verify_page_checksum-write_page_checksum =
      let read =
        read_le-to_le 4 (compute_page_checksum page) (drop page_size page)
          (omega (arith, compute_page_checksum-lt page)) in
      let same : (compute_page_checksum page == compute_page_checksum page) ≡ true =
        same_number (compute_page_checksum page) in
      (rw (tail_of, read, verify_page_checksum, same_checksum, same) refl, same_body)

-- A size that does not overflow is rounded up to the next multiple of the page size.
pub align_to_page_size-least :
    (size : ℕ)
    → size + page_size ≤ 2 ^ 64
    → (is_page_aligned_offset (align_to_page_size size) ≡ true)
      × (size ≤ align_to_page_size size)
      × (align_to_page_size size < size + page_size)
unfolding align_to_page_size is_page_aligned_offset
align_to_page_size-least size h =
    let small : (size + page_size - 1) % 2 ^ 64 ≡ size + page_size - 1 = omega (arith, h) in
    let multiple : (size + page_size - 1) / page_size * page_size % page_size ≡ 0 = omega arith in
    let zero_test : (0 == 0) ≡ true = same_number 0 in
    rw (small, multiple) (refl, omega arith, omega arith)

-- ===== src/Examples/Pages.antt =====
-- In-degrees of five nodes, a small pool, and a page of ones.
use agent_mem_io.Prelude.{
  ℕ, ◌/◌, ◌≡◌, ◌≤◌, refl, List, [], ◌∷◌, replicate, length, length-replicate, arith,
}
use agent_mem_io.Prelude.Bytes.{Bytes}
use agent_mem_io.Buffer.Pool.{Pool, init}
use agent_mem_io.Buffer.Hubs.{compute_hub_threshold, classify_hub_nodes, update_hub_threshold}
use agent_mem_io.Buffer.Page.{page_size}

abbrev in_degrees : List ℕ
in_degrees = 0 ∷ 4 ∷ 1 ∷ 0 ∷ 9 ∷ []

-- The median, as a stand-in for a percentile.
abbrev half : ℕ → ℕ
half n = n / 2

abbrev pool : Pool
pool = init 4 4096 1

abbrev AnyBytes : ℕ → Bytes → Type 0
AnyBytes p b = Unit

abbrev page : Bytes
page = replicate 4096 1

page_long : page_size ≤ length page
page_long = omega (arith, length-replicate {A = ℕ} 4096 1)

hubs_test : classify_hub_nodes in_degrees (compute_hub_threshold half in_degrees) ≡ 1 ∷ 4 ∷ []
unfolding classify_hub_nodes compute_hub_threshold agent_mem_io.Buffer.Hubs.classify_from
    agent_mem_io.Buffer.Hubs.sort agent_mem_io.Buffer.Hubs.insert_sorted
    agent_mem_io.Buffer.Hubs.after_zeros agent_mem_io.Buffer.Hubs.place
hubs_test = refl

-- ===== src/Examples/Buffer.antt =====
-- The buffer pool on a pool of two frames.
use agent_mem_io.Prelude.{inr, ℕ, ◌≡◌, ◌⊎◌, refl, false, none, some, [], ◌∷◌, arith, lookup}
use agent_mem_io.Buffer.Policy.{
  Policy, invalid_page_id, on_access, on_add, on_remove, get_eviction_candidate,
  evict_from_hot_queue,
}
use agent_mem_io.Buffer.Policy
use agent_mem_io.Buffer.Queue.{push_back, push_front, has, delete}
use agent_mem_io.Buffer.Policy.Tracking.{
  IsConsistent, tracks, init-IsConsistent, on_add-IsConsistent, on_access-IsConsistent,
}
use agent_mem_io.Buffer.Policy.Candidate.{
  IsVictim, GivesUp, evict_from_hot_queue-IsVictim, get_eviction_candidate-GivesUp,
}
use agent_mem_io.Buffer.Pool.{
  Bytes, Pool, init, get_or_load_page, load_locked, load_into_frame, install, claim_frame,
  find_free_frame, get_page, touch, count_miss, evict_page,
}
use agent_mem_io.Buffer.Pool.Valid.{IsValid}
use agent_mem_io.Buffer.Pool.Methods.{get_or_load_and_pin_page, pin_page}
use agent_mem_io.Buffer.Pool.Progress.{get_or_load_page-some}
use agent_mem_io.Buffer.Pool.Evict.{Evicts, evict_page-Evicts}
use agent_mem_io.Buffer.Pool.Cache.{
  Serves, get_or_load_page-Serves, get_or_load_and_pin_page-Serves,
}
use agent_mem_io.Buffer.Pool.Pins.{init-IsValid, get_or_load_page_blocked, evict_page_pinned}

-- A page's bytes are acceptable when they are the page's number.
abbrev Ok : ℕ → Bytes → Type 0
Ok p b = b ≡ p ∷ []

abbrev load_number : Bytes → ℕ → Bytes
load_number b p = p ∷ []

load_number-Ok : (p : ℕ) (b : Bytes) → Ok p (load_number b p)
load_number-Ok p b = refl

abbrev empty_pool : Pool
empty_pool = init 2 8 1

empty_pool-IsValid : IsValid Ok empty_pool
empty_pool-IsValid = init-IsValid Ok 2 8 1

get_or_load_page-some_example :
    (b : Bytes) × ((get_or_load_page 1 0 7 [] load_number empty_pool).0 ≡ some b) × Ok 7 b
unfolding init
get_or_load_page-some_example =
    get_or_load_page-some Ok 1 0 7 [] load_number empty_pool empty_pool-IsValid (load_number-Ok 7)
      (inr (0, 1 ∷ [], refl))

get_or_load_page-Serves_example :
    Serves Ok 7 empty_pool
      (get_or_load_page 1 0 7 [] load_number empty_pool).0
      (get_or_load_page 1 0 7 [] load_number empty_pool).1
get_or_load_page-Serves_example =
    get_or_load_page-Serves Ok 1 0 7 [] load_number empty_pool empty_pool-IsValid (λ e. cc)
      (load_number-Ok 7)

program : Unit {0}
unfolding push_back push_front has delete Policy.demote Policy.promote_to_hot_queue on_access on_add
    on_remove get_or_load_page get_or_load_and_pin_page init pin_page get_eviction_candidate
    evict_from_hot_queue load_locked load_into_frame install claim_frame find_free_frame get_page
    touch
program = tt

abbrev loaded : Pool
loaded = (get_or_load_page 1 0 7 [] load_number empty_pool).1

loaded-IsValid : IsValid Ok loaded
loaded-IsValid =
    (get_or_load_page-Serves Ok 1 0 7 [] load_number empty_pool empty_pool-IsValid (λ e. cc)
      (load_number-Ok 7)).valid

abbrev full : Pool
full = (get_or_load_page 2 0 8 [] load_number loaded).1

full-IsValid : IsValid Ok full
full-IsValid =
    (get_or_load_page-Serves Ok 2 0 8 [] load_number loaded loaded-IsValid (λ e. cc)
      (load_number-Ok 8)).valid

abbrev held : Pool
held = (get_or_load_and_pin_page 1 0 7 [] load_number empty_pool).1

held-IsValid : IsValid Ok held
held-IsValid =
    (get_or_load_and_pin_page-Serves Ok 1 0 7 [] load_number empty_pool empty_pool-IsValid (λ e. cc)
      (load_number-Ok 7)).valid

-- Of a page that is put, only the length is asked here.
abbrev Anything : ℕ → Bytes → Type 0
Anything p b = Unit

evict_page-Evicts_example : Evicts Ok full (evict_page full).0 (evict_page full).1
evict_page-Evicts_example = evict_page-Evicts Ok full full-IsValid

-- Without a hot queue, one frame serves one page for ever.
abbrev stuck : Pool
stuck = (get_or_load_page 1 0 7 [] load_number (init 1 8 0)).1

stuck-IsValid : IsValid Ok stuck
stuck-IsValid =
    (get_or_load_page-Serves Ok 1 0 7 [] load_number (init 1 8 0) (init-IsValid Ok 1 8 0) (λ e. cc)
      (load_number-Ok 7)).valid

get_or_load_page_blocked_example :
    get_or_load_page 2 0 8 [] load_number stuck ≡ (none, count_miss stuck)
unfolding program
get_or_load_page_blocked_example =
    get_or_load_page_blocked Ok stuck stuck-IsValid 2 0 8 [] load_number refl refl refl

candidate_held : (get_eviction_candidate held.policy).0 ≡ 7
unfolding program
candidate_held = refl

evict_page_pinned_example :
    ((evict_page held).0 ≡ false)
    × (lookup (get_eviction_candidate held.policy).0 (evict_page held).1.page_table ≡ some 0)
    × (tracks (get_eviction_candidate held.policy).0 (evict_page held).1.policy ≡ false)
unfolding program
evict_page_pinned_example = evict_page_pinned Ok held held-IsValid 0 refl refl

-- A policy with the page 7 in its hot queue and 8 in its warm one.
abbrev warm : Policy
warm = on_add 8 3 (on_add 7 1 (Policy.init 1))

abbrev mixed : Policy
mixed = on_access 7 1 warm

one-IsConsistent : IsConsistent (on_add 7 1 (Policy.init 1))
one-IsConsistent = on_add-IsConsistent 7 1 (Policy.init 1) (init-IsConsistent 1) refl

warm-IsConsistent : IsConsistent warm
unfolding program
warm-IsConsistent = on_add-IsConsistent 8 3 (on_add 7 1 (Policy.init 1)) one-IsConsistent refl

mixed-IsConsistent : IsConsistent mixed
mixed-IsConsistent = on_access-IsConsistent 7 1 warm warm-IsConsistent

evict_from_hot_queue-IsVictim_example : IsVictim mixed (evict_from_hot_queue mixed).0
unfolding program
evict_from_hot_queue-IsVictim_example =
    evict_from_hot_queue-IsVictim mixed mixed-IsConsistent refl (omega arith) (λ e. cc)

get_eviction_candidate-GivesUp_example :
    GivesUp mixed (get_eviction_candidate mixed).0 (get_eviction_candidate mixed).1
    ⊎ (get_eviction_candidate mixed ≡ (invalid_page_id, mixed))
unfolding program
get_eviction_candidate-GivesUp_example =
    get_eviction_candidate-GivesUp mixed mixed-IsConsistent refl (omega arith)

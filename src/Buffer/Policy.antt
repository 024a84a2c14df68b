-- ===== src/Buffer/Policy.antt =====
-- `TwoQueueEvictionPolicy` of src/buffer/buffer_pool.cpp: a hot queue in order of use, a warm queue
-- in order of arrival, and hub pages that are kept while another page can go.
pub mod Tracking
pub mod Candidate
use agent_mem_io.Prelude.{
  ℕ, suc, ◌-◌, ◌^◌, Bool, true, false, Option, none, some, List, [], ◌∷◌, ◌++◌, ◌||◌, take, ltb,
  leb, ◌==◌, if◌then◌else◌, Map, lookup, insert, erase,
}
use agent_mem_io.Buffer.Queue
use agent_mem_io.Buffer.Queue.{
  Queue, has, push_front, push_back, delete, move_front, pop_front, pop_back, front, back, pages,
  size,
}

-- `static_cast<PageId>(-1)` and `UINT32_MAX`
abbrev pub invalid_page_id : ℕ
invalid_page_id = 2 ^ 64 - 1

abbrev pub uint32_max : ℕ
uint32_max = 2 ^ 32 - 1

pub record Policy : Type 0 where
  pub hot_max : ℕ
  pub hot : Queue
  pub warm : Queue
  pub in_degree : Map ℕ
  pub hub_threshold : ℕ

-- The constructor; `hot_max` is `max_pages * hot_queue_ratio`, rounded down.
abbrev pub init : ℕ → Policy
init hot_max = record {
  hot_max = hot_max;
  hot = Queue.empty;
  warm = Queue.empty;
  in_degree = [];
  hub_threshold = 2;
}

-- A page leaves the warm queue for the front of the hot one, and what that pushes over the
-- capacity goes to the back of the warm one.
unfoldable pub demote : Policy → Policy
demote s =
    if ltb s.hot_max (size s.hot)
    then elim (back s.hot) [
      | none ↦ s
      | some d ↦ record s { hot = pop_back d s.hot; warm = push_back d s.warm }
    ]
    else s

unfoldable pub promote_to_hot_queue : ℕ → Policy → Policy
promote_to_hot_queue p s = demote (record s { warm = delete p s.warm; hot = push_front p s.hot })

unfoldable pub on_access : ℕ → ℕ → Policy → Policy
on_access p d s =
    let s' : Policy = record s { in_degree = insert p d s.in_degree } in
    if has p s'.warm
    then promote_to_hot_queue p s'
    else if has p s'.hot
    then record s' { hot = move_front p s'.hot }
    else s'

unfoldable pub on_add : ℕ → ℕ → Policy → Policy
on_add p d s = record s { warm = push_back p s.warm; in_degree = insert p d s.in_degree }

unfoldable pub on_remove : ℕ → Policy → Policy
on_remove p s =
    let s' : Policy =
      if has p s.hot
      then record s { hot = delete p s.hot }
      else if has p s.warm
      then record s { warm = delete p s.warm }
      else s in
    record s' { in_degree = erase p s'.in_degree }

unfoldable pub update_in_degree : ℕ → ℕ → Policy → Policy
update_in_degree p d s = record s { in_degree = insert p d s.in_degree }

unfoldable pub clear : Policy → Policy
clear s = record s { hot = Queue.empty; warm = Queue.empty; in_degree = [] }

-- `in_degree_map_[page]`: a missing page reads as 0, and is entered with it.
abbrev pub degree_or : Option ℕ → ℕ
degree_or none = 0
degree_or (some d) = d

abbrev pub degree_of : ℕ → Map ℕ → ℕ
degree_of p m = degree_or (lookup p m)

-- The variables of the loop of `evict_from_hot_queue`.
pub record Scan : Type 0 where
  pub degrees : Map ℕ
  pub best : ℕ
  pub least : ℕ

unfoldable pub scan_step : ℕ → ℕ → Scan → Scan
scan_step hub c st =
    let d = degree_of c st.degrees in
    let st' : Scan = record st { degrees = insert c d st.degrees } in
    if leb hub d then st' else if ltb d st.least then record st' { best = c; least = d } else st'

unfoldable pub scan : ℕ → List ℕ → Scan → Scan
scan hub [] st = st
scan hub (c ∷ cs) st = scan hub cs (scan_step hub c st)

abbrev pub reverse : List ℕ → List ℕ
reverse [] = []
reverse (p ∷ ps) = reverse ps ++ p ∷ []

-- The ten pages at the back of the hot queue, the oldest first.
abbrev pub oldest : Queue → List ℕ
oldest q = take 10 (reverse (pages q))

unfoldable pub best_candidate : Policy → Scan
unfolding scan scan_step
best_candidate s =
    scan s.hub_threshold (oldest s.hot)
      (record { degrees = s.in_degree; best = invalid_page_id; least = uint32_max })

abbrev pub page_or_invalid : Option ℕ → ℕ
page_or_invalid none = invalid_page_id
page_or_invalid (some p) = p

abbrev pub choose : Policy → ℕ → ℕ
choose s best = if best == invalid_page_id then page_or_invalid (back s.hot) else best

abbrev pub drop_hot : ℕ → Map ℕ → Policy → Policy
drop_hot v degrees s =
    if v == invalid_page_id
    then record s { in_degree = degrees }
    else record s { hot = delete v s.hot; in_degree = erase v degrees }

unfoldable pub evict_from_hot_queue : Policy → ℕ × Policy
evict_from_hot_queue s =
    if size s.hot == 0
    then (invalid_page_id, s)
    else let st = best_candidate s in let v = choose s st.best in (v, drop_hot v st.degrees s)

unfoldable pub get_eviction_candidate : Policy → ℕ × Policy
get_eviction_candidate s = elim (front s.warm) [
  | some c ↦
      if leb s.hot_max (size s.hot)
      then evict_from_hot_queue s
      else (c, record s { warm = pop_front c s.warm; in_degree = erase c s.in_degree })
  | none ↦ if size s.hot == 0 then (invalid_page_id, s) else evict_from_hot_queue s
]

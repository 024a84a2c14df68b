-- ===== src/Buffer/Queue.antt =====
-- A `std::list<PageId>` with the `std::unordered_map` of its iterators, as the two queues of
-- `TwoQueueEvictionPolicy` use them (src/buffer/buffer_pool.h, src/buffer/buffer_pool.cpp).
-- A cell is an iterator with the page that it points at; iterators are numbers that are not
-- used again.
pub mod Linked
pub mod Ends
use agent_mem_io.Prelude.{
  ℕ, ◌+◌, Bool, true, false, Option, none, some, List, [], ◌∷◌, ◌++◌, map, Map, lookup, insert,
  erase, length, drop, is_some,
}

pub record Queue : Type 0 where
  pub cells : Map ℕ
  pub index : Map ℕ
  pub fresh : ℕ

abbrev pub empty : Queue
empty = record { cells = []; index = []; fresh = 0 }

-- The pages from front to back.
abbrev pub pages : Queue → List ℕ
pages q = map (λ c. c.1) q.cells

-- `list.size()`
abbrev pub size : Queue → ℕ
size q = length (pages q)

-- `map.find(page) != map.end()`
unfoldable pub has : ℕ → Queue → Bool
has p q = is_some (lookup p q.index)

-- `list.push_front(page); map[page] = list.begin()`
unfoldable pub push_front : ℕ → Queue → Queue
push_front p q = record {
  cells = (q.fresh, p) ∷ q.cells;
  index = insert p q.fresh q.index;
  fresh = q.fresh + 1;
}

-- `list.push_back(page); map[page] = std::prev(list.end())`
unfoldable pub push_back : ℕ → Queue → Queue
push_back p q = record {
  cells = q.cells ++ (q.fresh, p) ∷ [];
  index = insert p q.fresh q.index;
  fresh = q.fresh + 1;
}

-- `list.erase(map[page]); map.erase(page)`. The callers have found the page in the map; on a page
-- that is not there the code would erase an invalid iterator.
unfoldable pub delete : ℕ → Queue → Queue
delete p q = elim (lookup p q.index) [
  | none ↦ q
  | some h ↦ record q { cells = erase h q.cells; index = erase p q.index }
]

-- `list.erase(map[page]); list.push_front(page); map[page] = list.begin()`
unfoldable pub move_front : ℕ → Queue → Queue
unfolding push_front
move_front p q = elim (lookup p q.index) [
  | none ↦ q
  | some h ↦ push_front p (record q { cells = erase h q.cells })
]

abbrev pub first : List ℕ → Option ℕ
first [] = none
first (p ∷ ps) = some p

abbrev pub last : List ℕ → Option ℕ
last [] = none
last (p ∷ []) = some p
last (p ∷ r ∷ ps) = last (r ∷ ps)

-- `list.front()` and `list.back()`
abbrev pub front : Queue → Option ℕ
front q = first (pages q)

abbrev pub back : Queue → Option ℕ
back q = last (pages q)

-- `list.pop_front(); map.erase(page)`, with `page` read at the front before
unfoldable pub pop_front : ℕ → Queue → Queue
pop_front p q = record q { cells = drop 1 q.cells; index = erase p q.index }

abbrev pub drop_last : Map ℕ → Map ℕ
drop_last [] = []
drop_last (c ∷ []) = []
drop_last (c ∷ d ∷ cs) = c ∷ drop_last (d ∷ cs)

-- `list.pop_back(); map.erase(page)`, with `page` read at the back before
unfoldable pub pop_back : ℕ → Queue → Queue
pop_back p q = record q { cells = drop_last q.cells; index = erase p q.index }

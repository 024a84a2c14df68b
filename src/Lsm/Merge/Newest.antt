-- ===== src/Lsm/Merge/Newest.antt =====
-- A merge keeps the newest entry of every node, in the order of the nodes.
use agent_mem_io.Prelude.{
  ℕ, ◌<◌, ◌≡◌, refl, ◌∙◌, ap, subst, false, Option, none, some, List, [], ◌∷◌, All, ltb, leb, ◌==◌,
  if◌then◌else◌, arith, inl, inr, Bool-cases,
}
use agent_mem_io.Lsm.Entry.{Entry}
use agent_mem_io.Lsm.Merge.{
  merge_entry, merge_entries, insert_sorted, sort, drop_tombstones, merged,
}

-- The entry of a node in a list, the first if there are several.
unfoldable pub entry_of : ℕ → List Entry → Option Entry
entry_of id [] = none
entry_of id (e ∷ es) = let later = entry_of id es in if e.node_id == id then some e else later

-- Of two entries the newer one, the first if they have the same time.
abbrev pub newer : Option Entry → Entry → Entry
newer none e = e
newer (some x) e = if ltb x.timestamp e.timestamp then e else x

-- The newest entry of a node, of a first candidate and a list.
unfoldable pub newest : ℕ → Option Entry → List Entry → Option Entry
newest id best [] = best
newest id best (e ∷ es) =
    let skip = newest id best es in
    let taken = newest id (some (newer best e)) es in if e.node_id == id then taken else skip

entry_of-merge_entry :
    (id : ℕ) (e : Entry) (acc : List Entry)
    → entry_of id (merge_entry e acc)
      ≡ (if e.node_id == id then some (newer (entry_of id acc) e) else entry_of id acc)
unfolding entry_of merge_entry
entry_of-merge_entry id e [] = refl
entry_of-merge_entry id e (x ∷ xs) = ground (arith, entry_of-merge_entry id e xs)

entry_of-merge_entries :
    (id : ℕ) (es acc : List Entry)
    → entry_of id (merge_entries es acc) ≡ newest id (entry_of id acc) es
unfolding merge_entries newest
entry_of-merge_entries id [] acc = refl
entry_of-merge_entries id (e ∷ es) acc =
    ground (arith, entry_of-merge_entries id es (merge_entry e acc), entry_of-merge_entry id e acc)

entry_of-insert_sorted :
    (id : ℕ) (e : Entry) (xs : List Entry)
    → entry_of id (insert_sorted e xs) ≡ (if e.node_id == id then some e else entry_of id xs)
unfolding entry_of insert_sorted
entry_of-insert_sorted id e [] = refl
entry_of-insert_sorted id e (x ∷ xs) = ground (arith, entry_of-insert_sorted id e xs)

entry_of-sort : (id : ℕ) (xs : List Entry) → entry_of id (sort xs) ≡ entry_of id xs
unfolding sort entry_of
entry_of-sort id [] = refl
entry_of-sort id (x ∷ xs) =
    ground (arith, entry_of-insert_sorted id x (sort xs), entry_of-sort id xs)

-- Every entry has a node of its own, and the nodes stand in order.
abbrev pub IsSorted : List Entry → Type 0
IsSorted [] = Unit
IsSorted (e ∷ es) = All (λ x. e.node_id < x.node_id) es × IsSorted es

abbrev AllNew : ℕ → List Entry → Type 0
AllNew id es = All (λ (x : Entry). (x.node_id == id) ≡ false) es

abbrev OneEach : List Entry → Type 0
OneEach [] = Unit
OneEach (e ∷ es) = AllNew e.node_id es × OneEach es

merge_entry-AllNew :
    (id : ℕ) (e : Entry) (acc : List Entry)
    → (e.node_id == id) ≡ false
    → AllNew id acc
    → AllNew id (merge_entry e acc)
unfolding merge_entry
merge_entry-AllNew id e [] h a = (h, tt)
merge_entry-AllNew id e (x ∷ xs) h a = ground (arith, merge_entry-AllNew id e xs)

merge_entry-OneEach : (e : Entry) (acc : List Entry) → OneEach acc → OneEach (merge_entry e acc)
unfolding merge_entry
merge_entry-OneEach e [] o = (tt, tt)
merge_entry-OneEach e (x ∷ xs) (a, o) = elim (Bool-cases (x.node_id == e.node_id)) [
  | inl same ↦
      let k : x.node_id ≡ e.node_id = ground arith in
      elim (Bool-cases (ltb x.timestamp e.timestamp)) [
        | inl later ↦ rw (same, merge_entry, later) (subst (λ (n : ℕ). AllNew n xs) k a, o)
        | inr kept ↦ rw (same, merge_entry, kept) (a, o)
      ]
  | inr other ↦
      rw (other, merge_entry)
        (merge_entry-AllNew x.node_id e xs (ground arith) a, merge_entry-OneEach e xs o)
]

merge_entries-OneEach : (es acc : List Entry) → OneEach acc → OneEach (merge_entries es acc)
unfolding merge_entries
merge_entries-OneEach [] acc o = o
merge_entries-OneEach (e ∷ es) acc o =
    merge_entries-OneEach es (merge_entry e acc) (merge_entry-OneEach e acc o)

Above : ℕ → List Entry → Type 0
Above n es = All (λ (x : Entry). n < x.node_id) es

Above-insert_sorted :
    (n : ℕ) (e : Entry) (xs : List Entry)
    → n < e.node_id
    → Above n xs
    → Above n (insert_sorted e xs)
unfolding insert_sorted Above
Above-insert_sorted n e [] h a = (h, tt)
Above-insert_sorted n e (x ∷ xs) h a = ground (arith, Above-insert_sorted n e xs h)

Above-weaken : (n k : ℕ) (xs : List Entry) → n < k → Above k xs → Above n xs
unfolding Above
Above-weaken n k [] h a = tt
Above-weaken n k (x ∷ xs) h (b, c) = (omega arith, Above-weaken n k xs h c)

insert_sorted-IsSorted :
    (e : Entry) (xs : List Entry)
    → AllNew e.node_id xs
    → IsSorted xs
    → IsSorted (insert_sorted e xs)
unfolding insert_sorted Above
insert_sorted-IsSorted e [] a s = (tt, tt)
insert_sorted-IsSorted e (x ∷ xs) (n, a) (b, s) = elim (Bool-cases (leb e.node_id x.node_id)) [
  | inl before ↦
      let l : e.node_id < x.node_id = ground arith in
      rw (before, insert_sorted) ((l, Above-weaken e.node_id x.node_id xs l b), (b, s))
  | inr after ↦
      rw (after, insert_sorted)
        (Above-insert_sorted x.node_id e xs (ground arith) b, insert_sorted-IsSorted e xs a s)
]

AllNew-insert_sorted :
    (id : ℕ) (e : Entry) (xs : List Entry)
    → (e.node_id == id) ≡ false
    → AllNew id xs
    → AllNew id (insert_sorted e xs)
unfolding insert_sorted
AllNew-insert_sorted id e [] h a = (h, tt)
AllNew-insert_sorted id e (x ∷ xs) h a = ground (arith, AllNew-insert_sorted id e xs h)

AllNew-sort : (id : ℕ) (xs : List Entry) → AllNew id xs → AllNew id (sort xs)
unfolding sort
AllNew-sort id [] a = tt
AllNew-sort id (x ∷ xs) (h, a) = AllNew-insert_sorted id x (sort xs) h (AllNew-sort id xs a)

sort-IsSorted : (xs : List Entry) → OneEach xs → IsSorted (sort xs)
unfolding sort
sort-IsSorted [] o = tt
sort-IsSorted (x ∷ xs) (a, o) =
    insert_sorted-IsSorted x (sort xs) (AllNew-sort x.node_id xs a) (sort-IsSorted xs o)

Above-drop_tombstones : (n : ℕ) (xs : List Entry) → Above n xs → Above n (drop_tombstones xs)
unfolding drop_tombstones Above
Above-drop_tombstones n [] a = tt
Above-drop_tombstones n (x ∷ xs) a = ground (arith, Above-drop_tombstones n xs a.1)

drop_tombstones-IsSorted : (xs : List Entry) → IsSorted xs → IsSorted (drop_tombstones xs)
unfolding drop_tombstones Above
drop_tombstones-IsSorted [] s = tt
drop_tombstones-IsSorted (x ∷ xs) (a, s) = elim (Bool-cases x.is_deleted) [
  | inl gone ↦ rw (gone, drop_tombstones) (drop_tombstones-IsSorted xs s)
  | inr there ↦
      rw (there, drop_tombstones)
        (Above-drop_tombstones x.node_id xs a, drop_tombstones-IsSorted xs s)
]

-- An entry that is no tombstone.
abbrev pub alive : Option Entry → Option Entry
alive none = none
alive (some e) = if e.is_deleted then none else some e

entry_of-Above : (id : ℕ) (xs : List Entry) → Above id xs → entry_of id xs ≡ none
unfolding entry_of Above
entry_of-Above id [] a = refl
entry_of-Above id (x ∷ xs) (h, a) = ground (arith, entry_of-Above id xs a)

entry_of-drop_tombstones :
    (id : ℕ) (xs : List Entry)
    → IsSorted xs
    → entry_of id (drop_tombstones xs) ≡ alive (entry_of id xs)
unfolding entry_of drop_tombstones Above
entry_of-drop_tombstones id [] s = refl
entry_of-drop_tombstones id (x ∷ xs) (a, s) =
    let ih = entry_of-drop_tombstones id xs s in
    elim (Bool-cases (x.node_id == id)) [
      | inl same ↦
          let k : x.node_id ≡ id = ground arith in
          let out : entry_of id xs ≡ none =
            entry_of-Above id xs (subst (λ (n : ℕ). Above n xs) k a) in
          ground (arith, ih, out)
      | inr other ↦ ground (arith, ih)
    ]

-- The merge of any entries is strictly ordered by node, and the entry of a node in it is the
-- newest of the given ones, and none where that is a tombstone or there is none.
pub merged-newest :
    (es : List Entry)
    → IsSorted (merged es) × ((id : ℕ) → entry_of id (merged es) ≡ alive (newest id none es))
unfolding merged
merged-newest es =
    let sorted = sort-IsSorted (merge_entries es []) (merge_entries-OneEach es [] tt) in
    (
      drop_tombstones-IsSorted (sort (merge_entries es [])) sorted,
      λ id.
          entry_of-drop_tombstones id (sort (merge_entries es [])) sorted
          ∙ ap alive (entry_of-sort id (merge_entries es []))
          ∙ ap alive (unfold entry_of in entry_of-merge_entries id es []),
    )

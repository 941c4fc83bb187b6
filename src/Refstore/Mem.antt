-- ===== src/Refstore/Mem.antt =====
-- internal/refstore/mem.go: the store in memory. Times are numbers; a time to live and a cap of 0
-- stand for those that are disabled. `visit` is the order in which Go walks a map, which sort.Slice
-- may keep among entries of one time; `draws` is what the source of handles gives.
pub mod Sweep
pub mod Size
pub mod Keeps
use microagency.Base.{
  ℕ, Bool, not, Option, none, some, List, [], ltb, leb, is_some, length, take, Text, ◌-◌, ◌&&◌, ◌∷◌,
  ◌==◌, if◌then◌else◌,
}
use microagency.Base.Map
use microagency.Base.Map.{Map}

pub record Item : Type 0 where
  pub payload : Text
  pub owner : Text
  pub created : ℕ

pub record MemStore : Type 0 where
  pub items : Map Item
  pub ttl : ℕ
  pub max_entries : ℕ

unfoldable pub new_mem_store : MemStore
new_mem_store = record { items = []; ttl = 0; max_entries = 0 }

unfoldable pub new_bounded_mem_store : ℕ → ℕ → MemStore
unfolding new_mem_store
new_bounded_mem_store ttl max_entries = record new_mem_store {
  ttl = ttl;
  max_entries = max_entries;
}

unfoldable pub mint_locked : List Text → Map Item → Option Text
mint_locked [] items = none
mint_locked (ref ∷ draws) items =
    let again = mint_locked draws items in if is_some (Map.get ref items) then again else some ref

unfoldable pub is_live : ℕ → ℕ → Item → Bool
is_live ttl now it = not (ltb ttl (now - it.created))

-- `sort.Slice` by the time of creation, over the handles.
unfoldable pub insert_created : Text → ℕ → List (Text × ℕ) → List (Text × ℕ)
insert_created ref at [] = (ref, at) ∷ []
insert_created ref at ((r, c) ∷ rest) =
    let later = insert_created ref at rest in
    if leb at c then (ref, at) ∷ (r, c) ∷ rest else (r, c) ∷ later

unfoldable pub sort_created : Map Item → List (Text × ℕ)
unfolding insert_created
sort_created [] = []
sort_created ((ref, it) ∷ rest) = insert_created ref it.created (sort_created rest)

unfoldable pub delete_all : List (Text × ℕ) → Map Item → Map Item
delete_all [] items = items
delete_all ((ref, at) ∷ rest) items = delete_all rest (Map.remove ref items)

-- The oldest go when there are more than the cap.
unfoldable pub evict : (Map Item → Map Item) → ℕ → Map Item → Map Item
unfolding sort_created delete_all
evict visit max_entries items =
    let live = sort_created (visit items) in
    delete_all (take (length live - max_entries) live) items

unfoldable pub sweep_locked : (Map Item → Map Item) → ℕ → MemStore → MemStore
unfolding is_live evict
sweep_locked visit now s =
    if (s.ttl == 0) && (s.max_entries == 0)
    then s
    else let fresh = if ltb 0 s.ttl then Map.retain (is_live s.ttl now) s.items else s.items in
      record s {
        items =
            if ltb 0 s.max_entries && ltb s.max_entries (length fresh)
            then evict visit s.max_entries fresh
            else fresh;
      }

-- The store and the handle, unless the draws ran out. The clock is read twice.
unfoldable pub put :
    (Map Item → Map Item) → List Text → ℕ → ℕ → Text → Text → MemStore → Option (MemStore × Text)
unfolding mint_locked sweep_locked
put visit draws now later payload owner s = elim (mint_locked draws s.items) [
  | none ↦ none
  | some ref ↦
      let it : Item = record { payload = payload; owner = owner; created = now } in
      some (sweep_locked visit later (record s { items = Map.put ref it s.items }), ref)
]

-- The payload and its owner.
unfoldable pub get : ℕ → Text → MemStore → MemStore × Option (Text × Text)
unfolding is_live
get now ref s = elim (Map.get ref s.items) [
  | none ↦ (s, none)
  | some it ↦
      if ltb 0 s.ttl && not (is_live s.ttl now it)
      then (record s { items = Map.remove ref s.items }, none)
      else (s, some (it.payload, it.owner))
]

-- ===== src/Refstore/Mem/Size.antt =====
-- internal/refstore/mem.go: how many entries eviction leaves.
use microagency.Base.{
  ℕ, zero, suc, refl, ap, Bool, true, none, List, [], arith, is_some, length, take, any, Text,
  text_eq, text_eq_refl, text_eq_iff, ◌+◌, ◌-◌, ◌≤◌, ◌≡◌, ◌∷◌, if◌then◌else◌,
}
use microagency.Base.Map
use microagency.Base.Map.{Map, get-remove, IsMap, remove-IsMap}
use microagency.Refstore.Mem.{Item, insert_created, sort_created, delete_all, evict}
use microagency.Refstore.Mem.Sweep.{Visits, length-sort_created}

-- The handle is among the entries.
abbrev lists : Text → List (Text × ℕ) → Bool
lists ref = any (λ e. text_eq e.0 ref)

lists-insert_created :
    (ref r : Text) (at : ℕ) (es : List (Text × ℕ))
    → lists ref (insert_created r at es) ≡ (if text_eq r ref then true else lists ref es)
unfolding insert_created any
lists-insert_created ref r at [] = refl
lists-insert_created ref r at ((q, d) ∷ es) = ground (arith, lists-insert_created ref r at es)

lists-sort_created :
    (ref : Text) (m : Map Item) → lists ref (sort_created m) ≡ is_some (Map.get ref m)
unfolding sort_created Map.get any
lists-sort_created ref [] = refl
lists-sort_created ref ((r, it) ∷ m) =
    ground (arith, lists-insert_created ref r it.created (sort_created m), lists-sort_created ref m)

get-delete_listed :
    (ref : Text) (es : List (Text × ℕ)) (m : Map Item)
    → Map.get ref (delete_all es m) ≡ (if lists ref es then none else Map.get ref m)
unfolding delete_all any
get-delete_listed ref [] m = refl
get-delete_listed ref ((r, c) ∷ es) m =
    ground (arith, get-delete_listed ref es (Map.remove r m), get-remove r ref m)

-- A map without an entry is empty.
empty-map : (m : Map Item) → ((ref : Text) → Map.get ref m ≡ none) → m ≡ []
unfolding Map.get
empty-map [] h = refl
empty-map ((r, it) ∷ m) h = absurd (ground (arith, h r, text_eq_refl r))

remove-absent : (ref : Text) (m : Map Item) → Map.get ref m ≡ none → Map.remove ref m ≡ m
unfolding Map.get Map.remove
remove-absent ref [] h = refl
remove-absent ref ((r, it) ∷ m) h = ground (arith, remove-absent ref m)

length-remove_ge : (ref : Text) (m : Map Item) → IsMap m → length m ≤ length (Map.remove ref m) + 1
unfolding Map.remove
length-remove_ge ref [] v = omega arith
length-remove_ge ref ((r, it) ∷ m) v =
    ground (arith, text_eq_iff r ref, remove-absent ref m, length-remove_ge ref m v.1)

pub delete_all-IsMap : (es : List (Text × ℕ)) (m : Map Item) → IsMap m → IsMap (delete_all es m)
unfolding delete_all
delete_all-IsMap [] m v = v
delete_all-IsMap ((r, c) ∷ es) m v = delete_all-IsMap es (Map.remove r m) (remove-IsMap r m v)

-- Deleting some first leaves no more than what the rest would delete.
length-delete_all :
    (n : ℕ) (es : List (Text × ℕ)) (m : Map Item)
    → IsMap m
    → length (delete_all (take n es) m) ≤ length (delete_all es m) + (length es - n)
unfolding delete_all
length-delete_all zero [] m v = omega arith
length-delete_all zero ((r, c) ∷ es) m v =
    omega (
      arith,
      length-delete_all zero es (Map.remove r m) (remove-IsMap r m v),
      length-remove_ge r m v,
    )
length-delete_all (suc n) [] m v = omega arith
length-delete_all (suc n) ((r, c) ∷ es) m v =
    omega (arith, length-delete_all n es (Map.remove r m) (remove-IsMap r m v))

-- Eviction leaves no more entries than the cap.
pub length-evict :
    (visit : Map Item → Map Item) (max_entries : ℕ) (m : Map Item)
    → Visits visit
    → IsMap m
    → max_entries ≤ length m
    → length (evict visit max_entries m) ≤ max_entries
unfolding evict
length-evict visit max_entries m vis v le =
    let live = sort_created (visit m) in
    let gone : delete_all live m ≡ [] = empty-map (delete_all live m) λ ref. ground (
      arith,
      get-delete_listed ref live m,
      lists-sort_created ref (visit m),
      vis.get-visit ref m,
    ) in
    omega (
      arith,
      length-delete_all (length live - max_entries) live m v,
      ap (λ (q : Map Item). length q) gone,
      length-sort_created (visit m),
      vis.length-visit m,
    )

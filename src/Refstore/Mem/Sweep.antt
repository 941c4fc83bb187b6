-- ===== src/Refstore/Mem/Sweep.antt =====
-- internal/refstore/mem.go: the order of eviction.
use microagency.Base.{
  ℕ, zero, suc, refl, sym, ap, inl, inr, false, none, some, List, [], arith, Bool-cases, length,
  take, length-append, All, Text, text_eq, text_eq_refl, text_eq_iff, ◌+◌, ◌-◌, ◌≤◌, ◌<◌, ◌≡◌, ◌∙◌,
  ◌∷◌, ◌++◌,
}
use microagency.Base.Map
use microagency.Base.Map.{Map, get-remove, IsMap, remove-IsMap}
use microagency.Refstore.Mem.{Item, insert_created, sort_created, delete_all, evict}

-- A walk over a map meets each entry once, in some order.
pub record Visits (visit : Map Item → Map Item) : Type 0 where
  pub length-visit : (m : Map Item) → length (visit m) ≡ length m
  pub get-visit : (ref : Text) (m : Map Item) → Map.get ref (visit m) ≡ Map.get ref m
  pub visit-IsMap : (m : Map Item) → IsMap m → IsMap (visit m)

-- No entry of the list is for the handle.
abbrev pub Avoids : Text → List (Text × ℕ) → Type 0
Avoids ref = All (λ e. text_eq e.0 ref ≡ false)

-- Every other entry is older.
abbrev pub Newest : Text → ℕ → Map Item → Type 0
Newest ref now m =
    (r : Text) (it : Item) → Map.get r m ≡ some it → text_eq r ref ≡ false → it.created < now

length-insert_created :
    (ref : Text) (at : ℕ) (es : List (Text × ℕ)) → length (insert_created ref at es) ≡ length es + 1
unfolding insert_created
length-insert_created ref at [] = refl
length-insert_created ref at ((r, c) ∷ es) = ground (arith, length-insert_created ref at es)

pub length-sort_created : (m : Map Item) → length (sort_created m) ≡ length m
unfolding sort_created
length-sort_created [] = refl
length-sort_created ((ref, it) ∷ m) =
    omega (arith, length-insert_created ref it.created (sort_created m), length-sort_created m)

-- Entries that are older go before the newest one.
insert-before :
    (r ref : Text) (c now : ℕ) (es : List (Text × ℕ))
    → c < now
    → insert_created r c (es ++ (ref, now) ∷ []) ≡ insert_created r c es ++ (ref, now) ∷ []
unfolding insert_created
insert-before r ref c now [] lt = ground arith
insert-before r ref c now ((q, d) ∷ es) lt = ground (arith, insert-before r ref c now es lt)

Older : ℕ → List (Text × ℕ) → Type 0
Older now = All (λ e. e.1 < now)

insert-Older :
    (r : Text) (c now : ℕ) (es : List (Text × ℕ))
    → c < now
    → Older now es
    → Older now (insert_created r c es)
unfolding insert_created Older
insert-Older r c now [] lt h = (lt, tt)
insert-Older r c now ((q, d) ∷ es) lt h = ground (arith, insert-Older r c now es lt h.1)

insert-Avoids :
    (r ref : Text) (c : ℕ) (es : List (Text × ℕ))
    → text_eq r ref ≡ false
    → Avoids ref es
    → Avoids ref (insert_created r c es)
unfolding insert_created
insert-Avoids r ref c [] ne h = (ne, tt)
insert-Avoids r ref c ((q, d) ∷ es) ne h = ground (arith, insert-Avoids r ref c es ne h.1)

insert-last :
    (ref : Text) (now : ℕ) (es : List (Text × ℕ))
    → Older now es
    → insert_created ref now es ≡ es ++ (ref, now) ∷ []
unfolding insert_created Older
insert-last ref now [] h = refl
insert-last ref now ((q, d) ∷ es) h = ground (arith, insert-last ref now es h.1)

Newest-tail :
    (ref r : Text) (now : ℕ) (it : Item) (m : Map Item)
    → IsMap ((r, it) ∷ m)
    → Newest ref now ((r, it) ∷ m)
    → Newest ref now m
unfolding Map.get
Newest-tail ref r now it m v h q jt g ne = h q jt (ground (arith, text_eq_iff r q)) ne

sort-without :
    (ref : Text) (now : ℕ) (m : Map Item)
    → IsMap m
    → Map.get ref m ≡ none
    → Newest ref now m
    → Older now (sort_created m) × Avoids ref (sort_created m)
unfolding sort_created Map.get Older
sort-without ref now [] v g h = (tt, tt)
sort-without ref now ((r, it) ∷ m) v g h =
    let other : text_eq r ref ≡ false = ground arith in
    let below : it.created < now = h r it (ground (arith, text_eq_refl r)) other in
    let (older, avoids) =
      sort-without ref now m v.1 (ground arith) (Newest-tail ref r now it m v h) in
    (
      insert-Older r it.created now (sort_created m) below older,
      insert-Avoids r ref it.created (sort_created m) other avoids,
    )

-- The newest entry comes last.
pub sort-Newest :
    (ref : Text) (new : Item) (m : Map Item)
    → IsMap m
    → Map.get ref m ≡ some new
    → Newest ref new.created m
    → (es : List (Text × ℕ)) × (sort_created m ≡ es ++ (ref, new.created) ∷ []) × Avoids ref es
unfolding sort_created Map.get
sort-Newest ref new [] v g h = absurd (cc)
sort-Newest ref new ((r, it) ∷ m) v g h = elim (Bool-cases (text_eq r ref)) [
  | inl e ↦
      let same : r ≡ ref = (text_eq_iff r ref).0 e in
      let own : it ≡ new = ground arith in
      let (older, avoids) =
        sort-without ref new.created m v.1 (rw (sym same) v.0)
          (Newest-tail ref r new.created it m v h) in
      (sort_created m, rw (same, own) (insert-last ref new.created (sort_created m) older), avoids)
  | inr e ↦
      let below : it.created < new.created = h r it (ground (arith, text_eq_refl r)) e in
      let (es, same, avoids) =
        sort-Newest ref new m v.1 (ground arith) (Newest-tail ref r new.created it m v h) in
      (
        insert_created r it.created es,
        ap (insert_created r it.created) same ∙ insert-before r ref it.created new.created es below,
        insert-Avoids r ref it.created es e avoids,
      )
]

take-Avoids :
    (ref : Text) (n : ℕ) (es : List (Text × ℕ)) (last : Text × ℕ)
    → n ≤ length es
    → Avoids ref es
    → Avoids ref (take n (es ++ last ∷ []))
take-Avoids ref zero es last le h = tt
take-Avoids ref (suc n) [] last le h = absurd (omega arith)
take-Avoids ref (suc n) (e ∷ es) last le h = (h.0, take-Avoids ref n es last (omega arith) h.1)

get-delete_all :
    (ref : Text) (es : List (Text × ℕ)) (m : Map Item)
    → Avoids ref es
    → Map.get ref (delete_all es m) ≡ Map.get ref m
unfolding delete_all
get-delete_all ref [] m h = refl
get-delete_all ref ((r, c) ∷ es) m h =
    get-delete_all ref es (Map.remove r m) h.1 ∙ ground (arith, get-remove r ref m)

-- Eviction under a cap of one or more keeps the newest entry.
pub get-evict :
    (visit : Map Item → Map Item) (ref : Text) (new : Item) (max_entries : ℕ) (m : Map Item)
    → Visits visit
    → IsMap m
    → Map.get ref m ≡ some new
    → Newest ref new.created m
    → 0 < max_entries
    → Map.get ref (evict visit max_entries m) ≡ some new
unfolding evict
get-evict visit ref new max_entries m vis v g h pos =
    let (es, e, avoids) =
      sort-Newest ref new (visit m) (vis.visit-IsMap m v) (vis.get-visit ref m ∙ g)
        (λ r it k. h r it (sym (vis.get-visit r m) ∙ k)) in
    let n = length (es ++ (ref, new.created) ∷ []) - max_entries in
    rw e (
      get-delete_all ref (take n (es ++ (ref, new.created) ∷ [])) m (
        take-Avoids ref n es (ref, new.created)
          (omega (arith, length-append es ((ref, new.created) ∷ []))) avoids)
      ∙ g)

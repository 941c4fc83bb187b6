-- ===== src/Refstore/File/Eviction.antt =====
-- internal/refstore/filestore.go against internal/refstore/mem.go: the sweep of a directory and the
-- sweep of the entries it holds remove the same.
use microagency.Base.{
  ℕ, zero, suc, refl, ap, Bool, true, false, not, some, List, [], arith, ltb, leb, length, take,
  Text, ◌-◌, ◌^◌, ◌<◌, ◌≡◌, ◌∙◌, ◌∷◌, if◌then◌else◌,
}
use microagency.Base.Map
use microagency.Base.Map.{Map}
use microagency.Refstore.Handle.{ref_token}
use microagency.Refstore.Mem.Sweep.{length-sort_created}
use microagency.Refstore.Mem.{Item, is_live, insert_created, sort_created, delete_all}
use microagency.Refstore.File.{
  Aead, file_of, read_created, is_fresh, drop_expired, insert_file, sort_files, remove_files,
}
use microagency.Refstore.File.Bytes.{created-file_bytes}
use microagency.Refstore.File.Mirror.{IsFile, Mirrors, empty, entry, if-Mirrors, remove-Mirrors}

-- The same entries by name and by handle, in one order.
pub data Twins : List (Text × ℕ) → List (Text × ℕ) → Type 0 where
  nothing : Twins [] []
  also :
      {tok ref : Text} {at : ℕ} {xs ys : List (Text × ℕ)}
      → ref_token ref ≡ some tok
      → Twins xs ys
      → Twins ((file_of tok, at) ∷ xs) ((ref, at) ∷ ys)

if-Twins :
    (b : Bool) (x y u v : List (Text × ℕ))
    → Twins x u
    → Twins y v
    → Twins (if b then x else y) (if b then u else v)
if-Twins true x y u v h k = h
if-Twins false x y u v h k = k

insert-Twins :
    (tok ref : Text) (at : ℕ)
    → ref_token ref ≡ some tok
    → {xs ys : List (Text × ℕ)} → Twins xs ys
    → Twins (insert_file (file_of tok) at xs) (insert_created ref at ys)
unfolding insert_file insert_created
insert-Twins tok ref at e nothing = also e nothing
insert-Twins tok ref at e (also {tok = t} {ref = r} {at = c} {xs} {ys} f h) =
    if-Twins (leb at c) ((file_of tok, at) ∷ (file_of t, c) ∷ xs)
      ((file_of t, c) ∷ insert_file (file_of tok) at xs) ((ref, at) ∷ (r, c) ∷ ys)
      ((r, c) ∷ insert_created ref at ys) (also e (also f h)) (also f (insert-Twins tok ref at e h))

take-Twins : (n : ℕ) {xs ys : List (Text × ℕ)} → Twins xs ys → Twins (take n xs) (take n ys)
take-Twins zero h = nothing
take-Twins (suc n) nothing = nothing
take-Twins (suc n) (also e h) = also e (take-Twins n h)

length-Twins : {xs ys : List (Text × ℕ)} → Twins xs ys → length xs ≡ length ys
length-Twins nothing = refl
length-Twins (also e h) = ap suc (length-Twins h)

-- A time of 63 bits has eight bytes.
pub below : (n : ℕ) → n < 2 ^ 63 → n < 256 ^ 8
below n h = omega arith

drop_timed :
    (ttl now c : ℕ) (name bytes : Text) (dir : Map Text)
    → read_created bytes ≡ some c
    → drop_expired ttl now ((name, bytes) ∷ dir) ≡ (
        if not (ltb ttl (now - c))
        then (name, bytes) ∷ drop_expired ttl now dir
        else drop_expired ttl now dir)
unfolding drop_expired is_fresh
drop_timed ttl now c name bytes dir e = ground (arith, e)

sort_timed :
    (c : ℕ) (name bytes : Text) (dir : Map Text)
    → read_created bytes ≡ some c
    → sort_files ((name, bytes) ∷ dir) ≡ insert_file name c (sort_files dir)
unfolding sort_files
sort_timed c name bytes dir e = ground (arith, e)

module _ (a : Aead) where
  -- The time that is read is that of the entry.
  pub created-IsFile :
      (bytes : Text) (it : Item) → IsFile a bytes it → read_created bytes ≡ some it.created
  created-IsFile bytes it (nonce, h, t, o, e) =
      ap read_created e
      ∙ created-file_bytes a it.created nonce it.owner it.payload (below it.created t)

  pub drop-Mirrors :
      (ttl now : ℕ) {dir : Map Text} {items : Map Item}
      → Mirrors a dir items
      → Mirrors a (drop_expired ttl now dir) (Map.retain (is_live ttl now) items)
  unfolding is_live Map.retain drop_expired
  drop-Mirrors ttl now empty = empty
  drop-Mirrors ttl now (entry {tok} {ref} {bytes} {it} {dir} {items} f h m) =
      rw (drop_timed ttl now it.created (file_of tok) bytes dir (created-IsFile bytes it h)) (
        if-Mirrors a (not (ltb ttl (now - it.created)))
          ((file_of tok, bytes) ∷ drop_expired ttl now dir) (drop_expired ttl now dir)
          ((ref, it) ∷ Map.retain (is_live ttl now) items) (Map.retain (is_live ttl now) items)
          (entry f h (drop-Mirrors ttl now m)) (drop-Mirrors ttl now m))

  pub sort-Twins :
      {dir : Map Text} {items : Map Item}
      → Mirrors a dir items
      → Twins (sort_files dir) (sort_created items)
  unfolding sort_created sort_files
  sort-Twins empty = nothing
  sort-Twins (entry {tok} {ref} {bytes} {it} {dir} f h m) =
      rw (sort_timed it.created (file_of tok) bytes dir (created-IsFile bytes it h))
        (insert-Twins tok ref it.created f (sort-Twins m))

  pub remove_files-Mirrors :
      {xs ys : List (Text × ℕ)} {dir : Map Text} {items : Map Item}
      → Twins xs ys
      → Mirrors a dir items
      → Mirrors a (remove_files xs dir) (delete_all ys items)
  unfolding remove_files delete_all
  remove_files-Mirrors nothing m = m
  remove_files-Mirrors (also {tok} {ref} e h) m =
      remove_files-Mirrors h (remove-Mirrors a ref tok e m)

  -- The number of files that are sorted is that of the entries.
  pub length-sort_files :
      {dir : Map Text} {items : Map Item}
      → Mirrors a dir items
      → length (sort_files dir) ≡ length items
  length-sort_files {items} m = length-Twins (sort-Twins m) ∙ length-sort_created items

  -- The oldest go on both sides.
  pub evict-Mirrors :
      (n : ℕ) {seen dir : Map Text} {walked items : Map Item}
      → Mirrors a seen walked
      → Mirrors a dir items
      → Mirrors a
          (remove_files (take (length (sort_files seen) - n) (sort_files seen)) dir)
          (delete_all (take (length (sort_created walked) - n) (sort_created walked)) items)
  evict-Mirrors n {seen} {walked} v m =
      rw (length-Twins (sort-Twins v))
        (remove_files-Mirrors (take-Twins (length (sort_created walked) - n) (sort-Twins v)) m)

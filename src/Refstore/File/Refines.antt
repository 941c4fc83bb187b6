-- ===== src/Refstore/File/Refines.antt =====
-- internal/refstore/filestore.go against internal/refstore/mem.go: the operations of the two stores,
-- side by side.
use microagency.Base.{
  ℕ, refl, sym, Bool, true, false, Option, none, some, List, [], arith, ltb, is_some, length, take,
  Text, ◌-◌, ◌≡◌, ◌&&◌, ◌∷◌, ◌==◌, if◌then◌else◌,
}
use microagency.Base.Map
use microagency.Base.Map.{Map}
use microagency.Refstore.Handle.{ref_token}
use microagency.Refstore.Mem.{Item, MemStore, is_live, evict, mint_locked, sweep_locked}
use microagency.Refstore.Mem.Sweep.{Visits}
use microagency.Refstore.File.{
  Aead, FileStore, file_of, drop_expired, sort_files, remove_files, mint_file, sweep_files,
  safe_ref_file,
}
use microagency.Refstore.File.Mirror.{Mirrors, Found, get-Mirrors, if-Mirrors}
use microagency.Refstore.File.Eviction.{drop-Mirrors, length-sort_files, evict-Mirrors}

-- The directory holds the entries, and the bounds are the same.
pub data Implements (a : Aead) : FileStore → MemStore → Type 0 where
  both :
      (ttl max_entries : ℕ) {dir : Map Text} {items : Map Item}
      → Mirrors a dir items
      → Implements a
          (record { dir = dir; ttl = ttl; max_entries = max_entries })
          (record { items = items; ttl = ttl; max_entries = max_entries })

-- os.ReadDir and the range over the map meet the same entries in the same order.
pub record Walks (a : Aead) (list : Map Text → Map Text) (visit : Map Item → Map Item)
    : Type 0 where
  pub visits : Visits visit
  pub walks :
      {dir : Map Text} {items : Map Item} → Mirrors a dir items → Mirrors a (list dir) (visit items)

-- What a source of handles gives has the shape of a handle.
abbrev pub AllHandles : List Text → Type 0
AllHandles [] = Unit
AllHandles (ref ∷ draws) = ((tok : Text) × (ref_token ref ≡ some tok)) × AllHandles draws

pub data Minted : Option (Text × Text) → Option Text → Type 0 where
  exhausted : Minted none none
  minted : {tok ref : Text} → ref_token ref ≡ some tok → Minted (some (ref, file_of tok)) (some ref)

if-Minted :
    (b : Bool) (x y : Option (Text × Text)) (u v : Option Text)
    → Minted x u
    → Minted y v
    → Minted (if b then x else y) (if b then u else v)
if-Minted true x y u v h k = h
if-Minted false x y u v h k = k

module _ (a : Aead) where
  if-Implements :
      (b : Bool) (x y : FileStore) (u v : MemStore)
      → Implements a x u
      → Implements a y v
      → Implements a (if b then x else y) (if b then u else v)
  if-Implements true x y u v h k = h
  if-Implements false x y u v h k = k

  swept :
      (list : Map Text → Map Text) (visit : Map Item → Map Item) (n : ℕ)
      → Walks a list visit
      → (dir : Map Text) (items : Map Item) → Mirrors a dir items
      → Mirrors a
          (if ltb 0 n && ltb n (length (sort_files (list dir)))
            then remove_files
                (take (length (sort_files (list dir)) - n) (sort_files (list dir)))
                dir
            else dir)
          (if ltb 0 n && ltb n (length items) then evict visit n items else items)
  unfolding evict
  swept list visit n w dir items m =
      let live = sort_files (list dir) in
      rw (sym (w.visits.length-visit items)) (
        rw (sym (length-sort_files a (w.walks m))) (
          if-Mirrors a (ltb 0 n && ltb n (length live))
            (remove_files (take (length live - n) live) dir) dir (evict visit n items) items
            (evict-Mirrors a n (w.walks m) m) m))

  pub sweep-Implements :
      (list : Map Text → Map Text) (visit : Map Item → Map Item) (now : ℕ)
      → Walks a list visit
      → {s : FileStore} {m : MemStore} → Implements a s m
      → Implements a (sweep_files list now s) (sweep_locked visit now m)
  unfolding sweep_files sweep_locked
  sweep-Implements list visit now w (both ttl n {dir} {items} h) =
      let files = if ltb 0 ttl then drop_expired ttl now dir else dir in
      let fresh = if ltb 0 ttl then Map.retain (is_live ttl now) items else items in
      let s : FileStore = record { dir = dir; ttl = ttl; max_entries = n } in
      let m : MemStore = record { items = items; ttl = ttl; max_entries = n } in
      let live = sort_files (list files) in
      let t : FileStore = record s {
        dir =
            if ltb 0 n && ltb n (length live)
            then remove_files (take (length live - n) live) files
            else files;
      } in
      let o : MemStore = record m {
        items = if ltb 0 n && ltb n (length fresh) then evict visit n fresh else fresh;
      } in
      if-Implements ((ttl == 0) && (n == 0)) s t m o (both ttl n h) (
        both ttl n (
          swept list visit n w files fresh (
            if-Mirrors a (ltb 0 ttl) (drop_expired ttl now dir) dir
              (Map.retain (is_live ttl now) items) items (drop-Mirrors a ttl now h) h)))

  found_is_some : (x : Option Text) (y : Option Item) → Found a x y → is_some x ≡ is_some y
  found_is_some none none h = refl
  found_is_some (some x) (some y) h = refl
  found_is_some none (some y) h = absurd h
  found_is_some (some x) none h = absurd h

  mint_named :
      (ref tok : Text) (draws : List Text) (dir : Map Text)
      → ref_token ref ≡ some tok
      → mint_file (ref ∷ draws) dir ≡ (
          if is_some (Map.get (file_of tok) dir)
          then mint_file draws dir
          else some (ref, file_of tok))
  unfolding mint_file safe_ref_file
  mint_named ref tok draws dir e = ground (arith, e)

  -- Both draw the same handle.
  pub mint-Minted :
      (draws : List Text)
      → AllHandles draws
      → {dir : Map Text} {items : Map Item} → Mirrors a dir items
      → Minted (mint_file draws dir) (mint_locked draws items)
  unfolding mint_file mint_locked
  mint-Minted [] h m = exhausted
  mint-Minted (ref ∷ draws) h {dir} {items} m =
      let tok = h.0.0 in
      let kept = Map.get ref items in
      rw (mint_named ref tok draws dir h.0.1) (
        rw (found_is_some (Map.get (file_of tok) dir) kept (get-Mirrors a ref tok h.0.1 m)) (
          if-Minted (is_some kept) (mint_file draws dir) (some (ref, file_of tok))
            (mint_locked draws items) (some ref) (mint-Minted draws h.1 m) (minted h.0.1)))

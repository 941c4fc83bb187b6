-- ===== src/Refstore/File/Reads.antt =====
-- internal/refstore/filestore.go against internal/refstore/mem.go: a read of both stores.
use microagency.Base.{
  ℕ, refl, ap, inl, inr, Bool, true, false, not, Option, none, some, arith, ltb, Option-cases,
  length, take, Text, text_eq_iff, ◌+◌, ◌≡◌, ◌⊎◌, ◌∙◌, ◌&&◌, if◌then◌else◌,
}
use microagency.Base.Map
use microagency.Base.Map.{Map}
use microagency.Refstore.Handle.{ref_token}
use microagency.Refstore.Mem.{Item, MemStore, is_live, get}
use microagency.Refstore.File.{
  Aead, FileStore, file_of, safe_ref_file, get_named, get_file, is_fresh, open_file,
  from_big_endian,
}
use microagency.Refstore.File.Bytes.{time-file_bytes, length-file_bytes, open-file_bytes}
use microagency.Refstore.File.Mirror.{
  IsFile, Mirrors, empty, entry, Found, get-Mirrors, remove-Mirrors,
}
use microagency.Refstore.File.Eviction.{below}
use microagency.Refstore.File.Refines.{Implements, both}
use microagency.Refstore.File.Bytes.{time-file_bytes, length-file_bytes, open-file_bytes}

-- The outcomes of `Get`: the stores and the same answer.
pub data Answered (a : Aead)
    : FileStore × Option (Text × Text) → MemStore × Option (Text × Text) → Type 0 where
  answered :
      {s : FileStore} {m : MemStore} {answer : Option (Text × Text)}
      → Implements a s m
      → Answered a (s, answer) (m, answer)

if-Answered :
    (a : Aead) (b : Bool) (x y : FileStore × Option (Text × Text))
    (u v : MemStore × Option (Text × Text))
    → Answered a x u
    → Answered a y v
    → Answered a (if b then x else y) (if b then u else v)
if-Answered a true x y u v h k = h
if-Answered a false x y u v h k = k

Found-cases :
    (a : Aead) (x : Option Text) (y : Option Item)
    → Found a x y
    → ((x ≡ none) × (y ≡ none))
      ⊎ ((bytes : Text) × (it : Item) × IsFile a bytes it × (x ≡ some bytes) × (y ≡ some it))
Found-cases a none none h = inl (refl, refl)
Found-cases a (some bytes) (some it) h = inr (bytes, it, h, refl, refl)
Found-cases a none (some it) h = absurd h
Found-cases a (some bytes) none h = absurd h

-- A handle of another shape is no key.
absent :
    (a : Aead) (ref : Text)
    → ref_token ref ≡ none
    → {dir : Map Text} {items : Map Item} → Mirrors a dir items
    → Map.get ref items ≡ none
unfolding Map.get
absent a ref e empty = refl
absent a ref e (entry {tok} {ref = r} {items} f h m) =
    ground (arith, text_eq_iff r ref, absent a ref e m, f, e)

get_absent :
    (now : ℕ) (ref : Text) (m : MemStore) → Map.get ref m.items ≡ none → get now ref m ≡ (m, none)
unfolding get
get_absent now ref m e = ground (arith, e)

get_present :
    (now : ℕ) (ref : Text) (it : Item) (m : MemStore)
    → Map.get ref m.items ≡ some it
    → get now ref m ≡ (
        if ltb 0 m.ttl && not (is_live m.ttl now it)
        then (record m { items = Map.remove ref m.items }, none)
        else (m, some (it.payload, it.owner)))
unfolding get
get_present now ref it m e = ground (arith, e)

module _ (a : Aead)
    (open-seal : (n t : Text)
      → length n ≡ a.nonce_size
      → a.open_sealed n (a.seal n t) ≡ some t) where
  -- What a file of the entry gives.
  read-IsFile :
      (bytes : Text) (it : Item)
      → IsFile a bytes it
      → (ltb (length bytes) (8 + a.nonce_size) ≡ false)
        × (from_big_endian (take 8 bytes) ≡ it.created)
        × (open_file a bytes ≡ some (it.payload, it.owner))
  read-IsFile bytes it (nonce, n, t, o, e) = rw e (
    ground (arith, length-file_bytes a it.created nonce it.owner it.payload n),
    time-file_bytes a it.created nonce it.owner it.payload (below it.created t),
    open-file_bytes a open-seal it.created nonce it.owner it.payload n
        ∙ ap (λ (x : Text). some (it.payload, x)) o,
  )

  get_file_named :
      (now : ℕ) (ref tok : Text) (s : FileStore)
      → ref_token ref ≡ some tok
      → get_file a now ref s ≡ get_named a now (file_of tok) s
  unfolding get_file safe_ref_file
  get_file_named now ref tok s e = ground (arith, e)

  get_file_unnamed :
      (now : ℕ) (ref : Text) (s : FileStore)
      → ref_token ref ≡ none
      → get_file a now ref s ≡ (s, none)
  unfolding get_file safe_ref_file
  get_file_unnamed now ref s e = ground (arith, e)

  get_named_absent :
      (now : ℕ) (name : Text) (s : FileStore)
      → Map.get name s.dir ≡ none
      → get_named a now name s ≡ (s, none)
  unfolding get_named
  get_named_absent now name s e = ground (arith, e)

  get_named_present :
      (now : ℕ) (name bytes : Text) (created : ℕ) (answer : Option (Text × Text)) (s : FileStore)
      → Map.get name s.dir ≡ some bytes
      → ltb (length bytes) (8 + a.nonce_size) ≡ false
      → from_big_endian (take 8 bytes) ≡ created
      → open_file a bytes ≡ answer
      → get_named a now name s ≡ (
          if ltb 0 s.ttl && not (is_fresh s.ttl now created)
          then (record s { dir = Map.remove name s.dir }, none)
          else (s, answer))
  unfolding get_named
  get_named_present now name bytes created answer s e l c o = ground (arith, e, l, c, o)

  get_named-Answered :
      (now : ℕ) (ref tok : Text)
      → ref_token ref ≡ some tok
      → {s : FileStore} {m : MemStore} → Implements a s m
      → Answered a (get_named a now (file_of tok) s) (get now ref m)
  unfolding is_live is_fresh
  get_named-Answered now ref tok p (both ttl k {dir} {items} h) =
      let s : FileStore = record { dir = dir; ttl = ttl; max_entries = k } in
      let m : MemStore = record { items = items; ttl = ttl; max_entries = k } in
      let name = file_of tok in
      elim (Found-cases a (Map.get name dir) (Map.get ref items) (get-Mirrors a ref tok p h)) [
        | inl (e, f) ↦
            rw (get_named_absent now name s e)
              (rw (get_absent now ref m f) (answered (both ttl k h)))
        | inr (bytes, it, i, e, f) ↦
            let r = read-IsFile bytes it i in
            let answer : Option (Text × Text) = some (it.payload, it.owner) in
            let s' : FileStore = record s { dir = Map.remove name dir } in
            let m' : MemStore = record m { items = Map.remove ref items } in
            rw (get_named_present now name bytes it.created answer s e r.0 r.1 r.2) (
              rw (get_present now ref it m f) (
                if-Answered a (ltb 0 ttl && not (is_live ttl now it)) (s', none) (s, answer)
                  (m', none) (m, answer) (answered (both ttl k (remove-Mirrors a ref tok p h)))
                  (answered (both ttl k h))))
      ]

  get-unnamed :
      (now : ℕ) (ref : Text)
      → ref_token ref ≡ none
      → {s : FileStore} {m : MemStore} → Implements a s m
      → Answered a (get_file a now ref s) (get now ref m)
  get-unnamed now ref e (both ttl k {dir} {items} h) =
      let s : FileStore = record { dir = dir; ttl = ttl; max_entries = k } in
      let m : MemStore = record { items = items; ttl = ttl; max_entries = k } in
      rw (get_file_unnamed now ref s e)
        (rw (get_absent now ref m (absent a ref e h)) (answered (both ttl k h)))

  -- A read gives the same answer, and the stores still correspond.
  pub get-Answered :
      (now : ℕ) (ref : Text) {s : FileStore} {m : MemStore}
      → Implements a s m
      → Answered a (get_file a now ref s) (get now ref m)
  get-Answered now ref {s} {m} i = elim (Option-cases (ref_token ref)) [
    | inl e ↦ get-unnamed now ref e i
    | inr (tok, e) ↦ rw (get_file_named now ref tok s e) (get_named-Answered now ref tok e i)
  ]

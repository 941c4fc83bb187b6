-- ===== src/Refstore/File/Mirror.antt =====
-- internal/refstore/filestore.go against internal/refstore/mem.go: a directory that holds the entries of
-- a store in memory, in the same order.
use microagency.Base.{
  Bool, true, false, Option, none, some, [], length, Text, text_eq, ◌^◌, ◌<◌, ◌≡◌, ◌∷◌,
  if◌then◌else◌,
}
use microagency.Base.Map
use microagency.Base.Map.{Map}
use microagency.Refstore.Handle.{ref_token}
use microagency.Refstore.Mem.{Item}
use microagency.Refstore.File.{Aead, cut_owner, file_of, file_bytes}
use microagency.Refstore.File.Names.{text_eq-file_of}

-- The bytes are those of the entry, for some nonce.
abbrev pub IsFile : Aead → Text → Item → Type 0
IsFile a bytes it =
    ((nonce : Text) × (length nonce ≡ a.nonce_size)
      × (it.created < 2 ^ 63)
      × (cut_owner it.owner ≡ it.owner)
      × (bytes ≡ file_bytes a it.created nonce it.owner it.payload))

pub data Mirrors (a : Aead) : Map Text → Map Item → Type 0 where
  empty : Mirrors a [] []
  entry :
      {tok ref bytes : Text} {it : Item} {dir : Map Text} {items : Map Item}
      → ref_token ref ≡ some tok
      → IsFile a bytes it
      → Mirrors a dir items
      → Mirrors a ((file_of tok, bytes) ∷ dir) ((ref, it) ∷ items)

-- The result of a lookup on both sides.
abbrev pub Found : Aead → Option Text → Option Item → Type 0
Found a none none = Unit
Found a (some bytes) (some it) = IsFile a bytes it
Found a _ _ = ⊥

module _ (a : Aead) where
  if-Found :
      (b : Bool) (x y : Option Text) (u v : Option Item)
      → Found a x u
      → Found a y v
      → Found a (if b then x else y) (if b then u else v)
  if-Found true x y u v h k = h
  if-Found false x y u v h k = k

  pub if-Mirrors :
      (b : Bool) (x y : Map Text) (u v : Map Item)
      → Mirrors a x u
      → Mirrors a y v
      → Mirrors a (if b then x else y) (if b then u else v)
  if-Mirrors true x y u v h k = h
  if-Mirrors false x y u v h k = k

module _ (a : Aead) (ref tok : Text) (e : ref_token ref ≡ some tok) where
  pub get-Mirrors :
      {dir : Map Text} {items : Map Item}
      → Mirrors a dir items
      → Found a (Map.get (file_of tok) dir) (Map.get ref items)
  unfolding Map.get
  get-Mirrors empty = tt
  get-Mirrors (entry {tok = t} {ref = r} {bytes} {it} {dir} {items} f h m) =
      rw (text_eq-file_of r ref t tok f e) (
        if-Found a (text_eq r ref) (some bytes) (Map.get (file_of tok) dir) (some it)
          (Map.get ref items) h (get-Mirrors m))

  pub put-Mirrors :
      (bytes : Text) (it : Item) {dir : Map Text} {items : Map Item}
      → IsFile a bytes it
      → Mirrors a dir items
      → Mirrors a (Map.put (file_of tok) bytes dir) (Map.put ref it items)
  unfolding Map.put
  put-Mirrors b i g empty = entry e g empty
  put-Mirrors b i g (entry {tok = t} {ref = r} {bytes} {it} {dir} {items} f h m) =
      rw (text_eq-file_of r ref t tok f e) (
        if-Mirrors a (text_eq r ref) ((file_of tok, b) ∷ dir)
          ((file_of t, bytes) ∷ Map.put (file_of tok) b dir) ((ref, i) ∷ items)
          ((r, it) ∷ Map.put ref i items) (entry e g m) (entry f h (put-Mirrors b i g m)))

  pub remove-Mirrors :
      {dir : Map Text} {items : Map Item}
      → Mirrors a dir items
      → Mirrors a (Map.remove (file_of tok) dir) (Map.remove ref items)
  unfolding Map.remove
  remove-Mirrors empty = empty
  remove-Mirrors (entry {tok = t} {ref = r} {bytes} {it} {dir} {items} f h m) =
      rw (text_eq-file_of r ref t tok f e) (
        if-Mirrors a (text_eq r ref) (Map.remove (file_of tok) dir)
          ((file_of t, bytes) ∷ Map.remove (file_of tok) dir) (Map.remove ref items)
          ((r, it) ∷ Map.remove ref items) (remove-Mirrors m) (entry f h (remove-Mirrors m)))

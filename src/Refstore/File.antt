-- ===== src/Refstore/File.antt =====
-- internal/refstore/filestore.go: the encrypted store on disk. A directory is a map from the names of
-- its ".enc" files to their bytes; `visit` is the order of os.ReadDir; what the directory does otherwise is not
-- modelled, and a removal succeeds. `Aead` is AES-GCM under the key of the store.
pub mod Bytes
pub mod Names
pub mod Mirror
pub mod Eviction
pub mod Refines
pub mod Writes
pub mod Reads
pub mod Runs
use microagency.Base.{
  ℕ, zero, suc, Bool, not, Option, none, some, List, [], ltb, leb, is_some, length, take, drop,
  Text, codes, is_empty, ◌+◌, ◌-◌, ◌*◌, ◌/◌, ◌%◌, ◌&&◌, ◌∷◌, ◌++◌, ◌==◌, if◌then◌else◌,
}
use microagency.Base.Map
use microagency.Base.Map.{Map}
use microagency.Refstore.Handle.{ref_token}

pub record Aead : Type 0 where
  pub nonce_size : ℕ
  pub seal : Text → Text → Text
  pub open_sealed : Text → Text → Option Text

pub record FileStore : Type 0 where
  pub dir : Map Text
  pub ttl : ℕ
  pub max_entries : ℕ

-- `binary.BigEndian` in so many bytes.
unfoldable pub big_endian : ℕ → ℕ → Text
big_endian zero n = []
big_endian (suc k) n = big_endian k (n / 256) ++ n % 256 ∷ []

unfoldable pub from_big_endian_after : ℕ → Text → ℕ
from_big_endian_after high [] = high
from_big_endian_after high (b ∷ bytes) = from_big_endian_after (high * 256 + b) bytes

abbrev pub from_big_endian : Text → ℕ
from_big_endian = from_big_endian_after 0

-- The owner is cut to what two bytes can count.
unfoldable pub cut_owner : Text → Text
cut_owner owner = take 65535 owner

unfoldable pub frame_owner : Text → Text → Text
unfolding big_endian cut_owner
frame_owner owner payload =
    let kept = cut_owner owner in big_endian 2 (length kept) ++ (kept ++ payload)

unfoldable pub unframe_owner : Text → Option (Text × Text)
unfolding from_big_endian_after
unframe_owner pt =
    let n = from_big_endian (take 2 pt) in
    if ltb (length pt) 2
    then none
    else if ltb (length pt) (2 + n)
    then none
    else some (take n (drop 2 pt), drop n (drop 2 pt))

abbrev pub file_of : Text → Text
file_of tok = codes "ref_" ++ (tok ++ codes ".enc")

unfoldable pub safe_ref_file : Text → Option Text
unfolding ref_token
safe_ref_file ref = elim (ref_token ref) [ none ↦ none | some tok ↦ some (file_of tok) ]

-- A file of fewer than eight bytes is read with zeros after them.
unfoldable pub pad : ℕ → Text → Text
pad zero bytes = []
pad (suc k) [] = 0 ∷ pad k []
pad (suc k) (b ∷ bytes) = b ∷ pad k bytes

-- `readCreated`, with none for a file that has no byte.
unfoldable pub read_created : Text → Option ℕ
unfolding pad from_big_endian_after
read_created bytes = if is_empty bytes then none else some (from_big_endian (pad 8 bytes))

unfoldable pub is_fresh : ℕ → ℕ → ℕ → Bool
is_fresh ttl now created = not (ltb ttl (now - created))

-- The first loop of `sweepLocked`: expired files go, files without a time stay and are not counted.
unfoldable pub drop_expired : ℕ → ℕ → Map Text → Map Text
unfolding read_created is_fresh
drop_expired ttl now [] = []
drop_expired ttl now ((name, bytes) ∷ dir) =
    let rest = drop_expired ttl now dir in
    elim (read_created bytes) [
      | none ↦ (name, bytes) ∷ rest
      | some created ↦ if is_fresh ttl now created then (name, bytes) ∷ rest else rest
    ]

-- `sort.Slice` by the time of creation, over the names.
unfoldable pub insert_file : Text → ℕ → List (Text × ℕ) → List (Text × ℕ)
insert_file name at [] = (name, at) ∷ []
insert_file name at ((n, c) ∷ rest) =
    let later = insert_file name at rest in
    if leb at c then (name, at) ∷ (n, c) ∷ rest else (n, c) ∷ later

unfoldable pub sort_files : Map Text → List (Text × ℕ)
unfolding insert_file read_created
sort_files [] = []
sort_files ((name, bytes) ∷ dir) =
    let rest = sort_files dir in
    elim (read_created bytes) [ none ↦ rest | some at ↦ insert_file name at rest ]

unfoldable pub remove_files : List (Text × ℕ) → Map Text → Map Text
remove_files [] dir = dir
remove_files ((name, at) ∷ rest) dir = remove_files rest (Map.remove name dir)

unfoldable pub sweep_files : (Map Text → Map Text) → ℕ → FileStore → FileStore
unfolding drop_expired sort_files remove_files
sweep_files visit now s =
    if (s.ttl == 0) && (s.max_entries == 0)
    then s
    else let fresh = if ltb 0 s.ttl then drop_expired s.ttl now s.dir else s.dir in
      let live = sort_files (visit fresh) in
      record s {
        dir =
            if ltb 0 s.max_entries && ltb s.max_entries (length live)
            then remove_files (take (length live - s.max_entries) live) fresh
            else fresh;
      }

-- The loop that draws handles until one names no file.
unfoldable pub mint_file : List Text → Map Text → Option (Text × Text)
unfolding safe_ref_file
mint_file [] dir = none
mint_file (ref ∷ draws) dir =
    let again = mint_file draws dir in
    elim (safe_ref_file ref) [
      | none ↦ again
      | some name ↦ if is_some (Map.get name dir) then again else some (ref, name)
    ]

module _ (a : Aead) where
  -- The bytes of a file: the time, the nonce, and the sealed frame.
  unfoldable pub file_bytes : ℕ → Text → Text → Text → Text
  unfolding big_endian frame_owner
  file_bytes created nonce owner payload =
      big_endian 8 created ++ (nonce ++ a.seal nonce (frame_owner owner payload))

  -- `Put`: `nonce` is none if the random source or the write fails, which leaves no file.
  unfoldable pub put_file :
      (Map Text → Map Text)
      → List Text
      → Option Text
      → ℕ
      → ℕ
      → Text
      → Text
      → FileStore
      → Option (FileStore × Text)
  unfolding mint_file file_bytes sweep_files
  put_file visit draws nonce now later payload owner s = elim (mint_file draws s.dir) [
    | none ↦ none
    | some (ref, name) ↦
        let dir : Map Text = elim nonce [
          | none ↦ s.dir
          | some n ↦ Map.put name (file_bytes now n owner payload) s.dir
        ] in
        some (sweep_files visit later (record s { dir = dir }), ref)
  ]

  -- The payload and its owner in the bytes of a file, after the time was tested.
  unfoldable pub open_file : Text → Option (Text × Text)
  unfolding unframe_owner
  open_file bytes =
      let nonce = take a.nonce_size (drop 8 bytes) in
      elim (a.open_sealed nonce (drop a.nonce_size (drop 8 bytes))) [
        | none ↦ none
        | some pt ↦ elim (unframe_owner pt) [
          | none ↦ none
          | some (owner, payload) ↦ some (payload, owner)
        ]
      ]

  unfoldable pub get_named : ℕ → Text → FileStore → FileStore × Option (Text × Text)
  unfolding is_fresh from_big_endian_after open_file
  get_named now name s = elim (Map.get name s.dir) [
    | none ↦ (s, none)
    | some bytes ↦
        if ltb (length bytes) (8 + a.nonce_size)
        then (s, none)
        else if ltb 0 s.ttl && not (is_fresh s.ttl now (from_big_endian (take 8 bytes)))
        then (record s { dir = Map.remove name s.dir }, none)
        else (s, open_file bytes)
  ]

  unfoldable pub get_file : ℕ → Text → FileStore → FileStore × Option (Text × Text)
  unfolding safe_ref_file get_named
  get_file now ref s = elim (safe_ref_file ref) [
    | none ↦ (s, none)
    | some name ↦ get_named now name s
  ]

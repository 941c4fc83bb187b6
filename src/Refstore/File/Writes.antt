-- ===== src/Refstore/File/Writes.antt =====
-- internal/refstore/filestore.go against internal/refstore/mem.go: a write to both stores.
use microagency.Base.{
  ℕ, refl, inl, inr, Option, none, some, List, arith, length, Text, ◌^◌, ◌<◌, ◌≡◌, ◌⊎◌,
}
use microagency.Base.Map
use microagency.Base.Map.{Map}
use microagency.Refstore.Handle.{ref_token}
use microagency.Refstore.Mem.{Item, MemStore, mint_locked, put, sweep_locked}
use microagency.Refstore.File.{
  Aead, FileStore, cut_owner, file_of, file_bytes, mint_file, put_file, sweep_files,
}
use microagency.Refstore.File.Mirror.{put-Mirrors}
use microagency.Refstore.File.Refines.{
  Implements, both, Walks, AllHandles, Minted, exhausted, minted, mint-Minted, sweep-Implements,
}

-- The outcomes of `Put`: the stores and the same handle, or none.
pub data Stored (a : Aead) : Option (FileStore × Text) → Option (MemStore × Text) → Type 0 where
  unstored : Stored a none none
  stored :
      {s : FileStore} {m : MemStore} {ref : Text}
      → Implements a s m
      → Stored a (some (s, ref)) (some (m, ref))

Minted-cases :
    (x : Option (Text × Text)) (y : Option Text)
    → Minted x y
    → ((x ≡ none) × (y ≡ none))
      ⊎ ((ref : Text) × (tok : Text) × (ref_token ref ≡ some tok)
          × (x ≡ some (ref, file_of tok))
          × (y ≡ some ref))
Minted-cases x y exhausted = inl (refl, refl)
Minted-cases x y (minted {tok} {ref} e) = inr (ref, tok, e, refl, refl)

put-none :
    (visit : Map Item → Map Item) (draws : List Text) (now later : ℕ) (payload owner : Text)
    (m : MemStore)
    → mint_locked draws m.items ≡ none
    → put visit draws now later payload owner m ≡ none
unfolding put
put-none visit draws now later payload owner m e = ground (arith, e)

put-some :
    (visit : Map Item → Map Item) (draws : List Text) (now later : ℕ) (payload owner ref : Text)
    (m : MemStore)
    → mint_locked draws m.items ≡ some ref
    → put visit draws now later payload owner m
      ≡ some (
        sweep_locked visit later (record m {
          items = Map.put ref (record { payload = payload; owner = owner; created = now }) m.items;
        }),
        ref,
      )
unfolding put
put-some visit draws now later payload owner ref m e = ground (arith, e)

module _ (a : Aead) where
  put_file-none :
      (list : Map Text → Map Text) (draws : List Text) (nonce : Text) (now later : ℕ)
      (payload owner : Text) (s : FileStore)
      → mint_file draws s.dir ≡ none
      → put_file a list draws (some nonce) now later payload owner s ≡ none
  unfolding put_file
  put_file-none list draws nonce now later payload owner s e = ground (arith, e)

  put_file-some :
      (list : Map Text → Map Text) (draws : List Text) (nonce : Text) (now later : ℕ)
      (payload owner ref name : Text) (s : FileStore)
      → mint_file draws s.dir ≡ some (ref, name)
      → put_file a list draws (some nonce) now later payload owner s
        ≡ some (
          sweep_files list later
              (record s { dir = Map.put name (file_bytes a now nonce owner payload) s.dir }),
          ref,
        )
  unfolding put_file
  put_file-some list draws nonce now later payload owner ref name s e = ground (arith, e)

  -- A write gives the same handle, and the stores still correspond.
  pub put-Stored :
      (list : Map Text → Map Text) (visit : Map Item → Map Item) (draws : List Text) (nonce : Text)
      (now later : ℕ) (payload owner : Text)
      → Walks a list visit
      → AllHandles draws
      → length nonce ≡ a.nonce_size
      → now < 2 ^ 63
      → cut_owner owner ≡ owner
      → {s : FileStore} {m : MemStore} → Implements a s m
      → Stored a
          (put_file a list draws (some nonce) now later payload owner s)
          (put visit draws now later payload owner m)
  put-Stored list visit draws nonce now later payload owner w d n t o (both ttl k {dir} {items} h) =
      let s : FileStore = record { dir = dir; ttl = ttl; max_entries = k } in
      let m : MemStore = record { items = items; ttl = ttl; max_entries = k } in
      elim (Minted-cases (mint_file draws dir) (mint_locked draws items)
        (mint-Minted a draws d h)) [
          | inl (e, f) ↦
              rw (put_file-none list draws nonce now later payload owner s e)
                (rw (put-none visit draws now later payload owner m f) unstored)
          | inr (ref, tok, p, e, f) ↦
              let it : Item = record { payload = payload; owner = owner; created = now } in
              let bytes = file_bytes a now nonce owner payload in
              rw (put_file-some list draws nonce now later payload owner ref (file_of tok) s e) (
                rw (put-some visit draws now later payload owner ref m f) (
                  stored (
                    sweep-Implements a list visit later w
                      (both ttl k (put-Mirrors a ref tok p bytes it (nonce, n, t, o, refl) h)))))
        ]

-- ===== src/Refstore/File/Runs.antt =====
-- internal/refstore/refstore.go, `Store`: calls on the store in files and on the store in memory. A
-- call of `Put` that has no handle, since its draws ran out, changes nothing.
use microagency.Base.{ℕ, refl, Option, none, some, List, [], length, All, Text, ◌^◌, ◌<◌, ◌≡◌, ◌∷◌}
use microagency.Base.Map.{Map}
use microagency.Refstore.Mem.{Item, MemStore, put, get}
use microagency.Refstore.File.{Aead, FileStore, cut_owner, put_file, get_file}
use microagency.Refstore.File.Refines.{Implements, Walks, AllHandles}
use microagency.Refstore.File.Writes.{Stored, unstored, stored, put-Stored}
use microagency.Refstore.File.Reads.{Answered, answered, get-Answered}

-- The calls of the interface, with what the clock and the random source give.
pub data Call : Type 0 where
  put_call : List Text → Text → ℕ → ℕ → Text → Text → Call
  get_call : ℕ → Text → Call

pub data Answer : Type 0 where
  handle : Option Text → Answer
  content : Option (Text × Text) → Answer

module _ {ℓ} {S : Type ℓ} where
  unfoldable after_put : S → Option (S × Text) → S × Answer
  after_put s none = (s, handle none)
  after_put s (some (t, ref)) = (t, handle (some ref))

  unfoldable after_get : S × Option (Text × Text) → S × Answer
  after_get (s, answer) = (s, content answer)

  -- The calls one after the other, and their answers.
  unfoldable pub run : (Call → S → S × Answer) → List Call → S → S × List Answer
  run step [] s = (s, [])
  run step (c ∷ calls) s =
      let now = step c s in let later = run step calls now.0 in (later.0, now.1 ∷ later.1)

unfoldable pub call_mem : (Map Item → Map Item) → Call → MemStore → MemStore × Answer
unfolding after_put after_get
call_mem visit (put_call draws nonce now later payload owner) m =
    after_put m (put visit draws now later payload owner m)
call_mem visit (get_call now ref) m = after_get (get now ref m)

module _ (a : Aead) where
  unfoldable pub call_file : (Map Text → Map Text) → Call → FileStore → FileStore × Answer
  unfolding after_put after_get
  call_file list (put_call draws nonce now later payload owner) s =
      after_put s (put_file a list draws (some nonce) now later payload owner s)
  call_file list (get_call now ref) s = after_get (get_file a now ref s)

  -- The time has 63 bits, the owner at most 65,535 bytes, and the nonce its size.
  abbrev pub IsSound : Call → Type 0
  IsSound (put_call draws nonce now later payload owner) =
      AllHandles draws × (length nonce ≡ a.nonce_size) × (now < 2 ^ 63) × (cut_owner owner ≡ owner)
  IsSound (get_call now ref) = Unit

  -- The stores correspond, and the answers are the same.
  abbrev pub Agrees {ℓ} : {A : Type ℓ} → FileStore × A → MemStore × A → Type ℓ
  Agrees (s, x) (m, y) = Implements a s m × (x ≡ y)

  after_put-Agrees :
      (x : Option (FileStore × Text)) (y : Option (MemStore × Text))
      → Stored a x y
      → (s : FileStore) (m : MemStore) → Implements a s m
      → Agrees (after_put s x) (after_put m y)
  unfolding after_put
  after_put-Agrees x y unstored s m i = (i, refl)
  after_put-Agrees x y (stored {ref} j) s m i = (j, refl)

  after_get-Agrees :
      (x : FileStore × Option (Text × Text)) (y : MemStore × Option (Text × Text))
      → Answered a x y
      → Agrees (after_get x) (after_get y)
  unfolding after_get
  after_get-Agrees x y (answered i) = (i, refl)

  module _
      (open-seal : (n t : Text)
        → length n ≡ a.nonce_size
        → a.open_sealed n (a.seal n t) ≡ some t) where
    call-Agrees :
        (list : Map Text → Map Text) (visit : Map Item → Map Item)
        → Walks a list visit
        → (c : Call) → IsSound c
        → (s : FileStore) (m : MemStore) → Implements a s m
        → Agrees (call_file list c s) (call_mem visit c m)
    unfolding call_file call_mem
    call-Agrees list visit w (put_call draws nonce now later payload owner) (d, n, t, o) s m i =
        after_put-Agrees (put_file a list draws (some nonce) now later payload owner s)
          (put visit draws now later payload owner m)
          (put-Stored a list visit draws nonce now later payload owner w d n t o i) s m i
    call-Agrees list visit w (get_call now ref) c s m i =
        after_get-Agrees (get_file a now ref s) (get now ref m) (get-Answered a open-seal now ref i)

    -- The store in files implements the store in memory. Let sealed bytes open to what was sealed, let
    -- the random source give handles and nonces of their size, let the files be written, times have 63
    -- bits and owners at most 65,535 bytes, and let the directory be listed in the order in which the
    -- map is walked, whatever it is. Then two stores that correspond give the same answers to any
    -- sequence of calls, and correspond after it.
    pub run-Agrees :
        (list : Map Text → Map Text) (visit : Map Item → Map Item)
        → Walks a list visit
        → (calls : List Call) → All IsSound calls
        → (s : FileStore) (m : MemStore) → Implements a s m
        → Agrees (run (call_file list) calls s) (run (call_mem visit) calls m)
    unfolding run
    run-Agrees list visit w [] h s m i = (i, refl)
    run-Agrees list visit w (c ∷ calls) h s m i =
        let now = call-Agrees list visit w c h.0 s m i in
        let later =
          run-Agrees list visit w calls h.1 (call_file list c s).0 (call_mem visit c m).0 now.0 in
        (later.0, rw now.1 (rw later.1 refl))

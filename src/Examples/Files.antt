-- ===== src/Examples/Files.antt =====
-- A store in files beside a store in memory, with a toy cipher that writes the nonce in front.
use microagency.Base.{
  ℕ, refl, ap, none, some, List, [], arith, length, drop, all, All, Text, codes, text_eq, ◌^◌, ◌<◌,
  ◌≡◌, ◌∷◌, ◌++◌,
}
use microagency.Base.Map
use microagency.Base.Map.{Map}
use microagency.Refstore.Handle.{ref_token}
use microagency.Refstore.Mem.{MemStore, put, get}
use microagency.Refstore.File.{Aead, FileStore}
use microagency.Refstore.File.Bytes.{cut_short, drop-append}
use microagency.Refstore.File.Mirror.{empty}
use microagency.Refstore.File.Refines.{both, Walks, AllHandles}
use microagency.Refstore.File.Runs.{
  Call, handle, content, put_call, get_call, run, call_file, call_mem, IsSound, Agrees, run-Agrees,
}

abbrev cipher : Aead
cipher = record {
  nonce_size = 2;
  seal = λ n t. n ++ t;
  open_sealed = λ n c. some (drop (length n) c);
}

open-cipher :
    (n t : Text) → length n ≡ cipher.nonce_size → cipher.open_sealed n (cipher.seal n t) ≡ some t
open-cipher n t h = ap (λ (x : Text). some x) (drop-append n t)

abbrev files : FileStore
files = record { dir = []; ttl = 10; max_entries = 2 }

abbrev entries : MemStore
entries = record { items = []; ttl = 10; max_entries = 2 }

in_one_order : Walks cipher (λ d. d) (λ m. m)
in_one_order = record {
  visits = record { length-visit = λ m. refl; get-visit = λ ref m. refl; visit-IsMap = λ m v. v };
  walks = λ m. m;
}

abbrev drawn : List Text
drawn = codes "<ref_a1>" ∷ codes "<ref_b2>" ∷ codes "<ref_c3>" ∷ []

drawn-AllHandles : AllHandles drawn
unfolding ref_token text_eq all
drawn-AllHandles = ((codes "a1", refl), ((codes "b2", refl), ((codes "c3", refl), tt)))

abbrev wrote : ℕ → Text → Call
wrote now payload = put_call drawn (7 ∷ 8 ∷ []) now now payload (codes "ann")

wrote-IsSound : (now : ℕ) (payload : Text) → now < 2 ^ 63 → IsSound cipher (wrote now payload)
wrote-IsSound now payload h = (drawn-AllHandles, refl, h, cut_short (codes "ann") (omega arith))

abbrev calls : List Call
calls =
    wrote 5 (codes "x")
    ∷ wrote 6 (codes "yy")
    ∷ get_call 7 (codes "<ref_b2>")
    ∷ wrote 8 (codes "z")
    ∷ get_call 9 (codes "<ref_a1>")
    ∷ get_call 17 (codes "<ref_b2>")
    ∷ get_call 18 (codes "../b2")
    ∷ []

calls-AllSound : All (IsSound cipher) calls
calls-AllSound = (
  wrote-IsSound 5 (codes "x") (omega arith),
  (wrote-IsSound 6 (codes "yy") (omega arith), (tt, later)),
)
  where
    later : All (IsSound cipher) (drop 3 calls)
    later = (wrote-IsSound 8 (codes "z") (omega arith), (tt, (tt, (tt, tt))))

run-Agrees_example :
    Agrees cipher
      (run (call_file cipher (λ d. d)) calls files)
      (run (call_mem (λ m. m)) calls entries)
run-Agrees_example =
    run-Agrees cipher open-cipher (λ d. d) (λ m. m) in_one_order calls calls-AllSound files entries
      (both 10 2 empty)

-- The third file evicts the first, and the second expires.
answers_of_run :
    (run (call_mem (λ m. m)) calls entries).1
    ≡ handle (some (codes "<ref_a1>"))
      ∷ handle (some (codes "<ref_b2>"))
      ∷ content (some (codes "yy", codes "ann"))
      ∷ handle (some (codes "<ref_c3>"))
      ∷ content none
      ∷ content none
      ∷ content none
      ∷ []
unfolding run call_mem put get text_eq Map.get Map.retain Map.put Map.remove
answers_of_run = refl

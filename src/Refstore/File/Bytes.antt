-- ===== src/Refstore/File/Bytes.antt =====
-- internal/refstore/filestore.go: what is written in the bytes of a file is read from them.
use microagency.Base.{
  ℕ, zero, suc, refl, sym, ap, some, [], arith, length, take, drop, length-append, Text, ◌+◌, ◌*◌,
  ◌/◌, ◌%◌, ◌^◌, ◌≤◌, ◌<◌, ◌≡◌, ◌∷◌, ◌++◌,
}
use microagency.Refstore.File.{
  Aead, big_endian, from_big_endian_after, from_big_endian, cut_owner, frame_owner, unframe_owner,
  read_created, file_bytes, open_file,
}

from-append :
    (h : ℕ) (xs : Text) (b : ℕ)
    → from_big_endian_after h (xs ++ b ∷ []) ≡ from_big_endian_after h xs * 256 + b
unfolding from_big_endian_after
from-append h [] b = refl
from-append h (x ∷ xs) b = from-append (h * 256 + x) xs b

length-big_endian : (k n : ℕ) → length (big_endian k n) ≡ k
unfolding big_endian
length-big_endian zero n = refl
length-big_endian (suc k) n =
    omega
      (arith, length-append (big_endian k (n / 256)) (n % 256 ∷ []), length-big_endian k (n / 256))

smaller : (k n : ℕ) → n < 256 ^ suc k → n / 256 < 256 ^ k
smaller k n h = omega arith

-- A number of so many bytes is read back.
pub from-big_endian : (k n : ℕ) → n < 256 ^ k → from_big_endian (big_endian k n) ≡ n
unfolding big_endian from_big_endian_after
from-big_endian zero n h = omega arith
from-big_endian (suc k) n h = omega (
  arith,
  from-append 0 (big_endian k (n / 256)) (n % 256),
  from-big_endian k (n / 256) (smaller k n h),
)

pub take-append : (xs ys : Text) → take (length xs) (xs ++ ys) ≡ xs
take-append [] ys = refl
take-append (x ∷ xs) ys = ap (λ (t : Text). x ∷ t) (take-append xs ys)

pub drop-append : (xs ys : Text) → drop (length xs) (xs ++ ys) ≡ ys
drop-append [] ys = refl
drop-append (x ∷ xs) ys = drop-append xs ys

take_of : (n : ℕ) (xs ys : Text) → length xs ≡ n → take n (xs ++ ys) ≡ xs
take_of n xs ys h = rw (sym h) (take-append xs ys)

drop_of : (n : ℕ) (xs ys : Text) → length xs ≡ n → drop n (xs ++ ys) ≡ ys
drop_of n xs ys h = rw (sym h) (drop-append xs ys)

take_all : (n : ℕ) (xs : Text) → length xs ≤ n → take n xs ≡ xs
take_all zero [] h = refl
take_all zero (x ∷ xs) h = absurd (omega arith)
take_all (suc n) [] h = refl
take_all (suc n) (x ∷ xs) h = ap (λ (t : Text). x ∷ t) (take_all n xs (omega arith))

unframe_parts :
    (h kept payload : Text)
    → length h ≡ 2
    → from_big_endian h ≡ length kept
    → unframe_owner (h ++ (kept ++ payload)) ≡ some (kept, payload)
unfolding unframe_owner
unframe_parts h kept payload e f = ground (
  arith,
  take_of 2 h (kept ++ payload) e,
  drop_of 2 h (kept ++ payload) e,
  length-append h (kept ++ payload),
  length-append kept payload,
  take-append kept payload,
  drop-append kept payload,
)

take_le : (n : ℕ) (xs : Text) → length (take n xs) ≤ n
take_le zero xs = omega arith
take_le (suc n) [] = omega arith
take_le (suc n) (x ∷ xs) = omega (arith, take_le n xs)

length-cut_owner : (owner : Text) → length (cut_owner owner) ≤ 65535
unfolding cut_owner
length-cut_owner owner = take_le 65535 owner

short : (n : ℕ) → n ≤ 65535 → n < 256 ^ 2
short n h = omega arith

-- An owner that two bytes can count is kept.
pub cut_short : (owner : Text) → length owner ≤ 65535 → cut_owner owner ≡ owner
unfolding cut_owner
cut_short owner h = take_all 65535 owner h

-- What is framed is read back, with the owner cut to 65,535 bytes.
pub unframe-frame :
    (owner payload : Text)
    → unframe_owner (frame_owner owner payload) ≡ some (cut_owner owner, payload)
unfolding frame_owner
unframe-frame owner payload =
    let kept = cut_owner owner in
    let n = length kept in
    unframe_parts (big_endian 2 n) kept payload (length-big_endian 2 n)
      (from-big_endian 2 n (short n (length-cut_owner owner)))

module _ (a : Aead) where
  -- The time in the bytes of a file.
  pub time-file_bytes :
      (created : ℕ) (nonce owner payload : Text)
      → created < 256 ^ 8
      → from_big_endian (take 8 (file_bytes a created nonce owner payload)) ≡ created
  unfolding file_bytes
  time-file_bytes created nonce owner payload h = from-big_endian 8 created h

  pub created-file_bytes :
      (created : ℕ) (nonce owner payload : Text)
      → created < 256 ^ 8
      → read_created (file_bytes a created nonce owner payload) ≡ some created
  unfolding file_bytes read_created
  created-file_bytes created nonce owner payload h =
      ap (λ (n : ℕ). some n) (from-big_endian 8 created h)

  pub length-file_bytes :
      (created : ℕ) (nonce owner payload : Text)
      → length nonce ≡ a.nonce_size
      → 8 + a.nonce_size ≤ length (file_bytes a created nonce owner payload)
  unfolding file_bytes
  length-file_bytes created nonce owner payload h =
      let ct = a.seal nonce (frame_owner owner payload) in omega (arith, length-append nonce ct, h)

module _ (a : Aead)
    (open-seal : (n t : Text)
      → length n ≡ a.nonce_size
      → a.open_sealed n (a.seal n t) ≡ some t) where
  open_parts :
      (bytes nonce ct pt owner payload : Text)
      → drop 8 bytes ≡ nonce ++ ct
      → length nonce ≡ a.nonce_size
      → a.open_sealed nonce ct ≡ some pt
      → unframe_owner pt ≡ some (owner, payload)
      → open_file a bytes ≡ some (payload, owner)
  unfolding open_file
  open_parts bytes nonce ct pt owner payload e h o u =
      ground (arith, take_of a.nonce_size nonce ct h, drop_of a.nonce_size nonce ct h)

  pub open-file_bytes :
      (created : ℕ) (nonce owner payload : Text)
      → length nonce ≡ a.nonce_size
      → open_file a (file_bytes a created nonce owner payload) ≡ some (payload, cut_owner owner)
  unfolding file_bytes
  open-file_bytes created nonce owner payload h =
      let pt = frame_owner owner payload in
      open_parts (file_bytes a created nonce owner payload) nonce (a.seal nonce pt) pt
        (cut_owner owner) payload refl h (open-seal nonce pt h) (unframe-frame owner payload)

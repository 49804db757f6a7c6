-- ===== src/Dds/Sertype/Serdata/Parts.antt =====
-- The copy loop of `sd_from_ser_iov` of src/dds/sertype.rs.
use Prim.Native.Nat.{min}
use cyclone_dds_ws_bridge.Base.{
  Bytes, List, [], ap, append-nil, append_assoc, arith, length, length-append, length-take, none,
  refl, suc, sym, take, zero, ℕ, ◌++◌, ◌+◌, ◌-◌, ◌∙◌, ◌∷◌, ◌≡◌, ◌≤◌,
}
use cyclone_dds_ws_bridge.Dds.Sertype.{OpaqueSertype}
use cyclone_dds_ws_bridge.Dds.Sertype.Murmur.{st_hash}
use cyclone_dds_ws_bridge.Dds.Sertype.Serdata.{copy_parts, sd_from_ser_iov, zeros}
use cyclone_dds_ws_bridge.Dds.Sertype.Serdata.Laws.{length-zeros}
use native.Mathlib.Nat.{min-zero, suc-min-suc}

-- All parts, one after the other.
abbrev pub concat : List Bytes → Bytes
concat [] = []
concat (part ∷ parts) = part ++ concat parts

take-min : (k : ℕ) (xs : Bytes) → take (min (length xs) k) xs ≡ take k xs
take-min zero xs = rw (min-zero (length xs)) refl
take-min (suc k) [] = let none_there : min 0 (suc k) ≡ 0 = omega arith in rw none_there refl
take-min (suc k) (x ∷ xs) = rw (suc-min-suc (length xs) k) (ap (◌∷◌ x) (take-min k xs))

take-past : (n k : ℕ) (xs ys : Bytes) → length xs + k ≡ n → xs ++ take k ys ≡ take n (xs ++ ys)
take-past n k [] ys e = ap (λ (j : ℕ). take j ys) (omega (arith, e))
take-past zero k (x ∷ xs) ys e = absurd (omega arith)
take-past (suc n) k (x ∷ xs) ys e = ap (◌∷◌ x) (take-past n k xs ys (omega arith))

take-take-append : (n : ℕ) (xs ys : Bytes) → take n (take n xs ++ ys) ≡ take n (xs ++ ys)
take-take-append zero xs ys = refl
take-take-append (suc n) [] ys = refl
take-take-append (suc n) (x ∷ xs) ys = ap (◌∷◌ x) (take-take-append n xs ys)

take-enough : (n : ℕ) (xs : Bytes) → length xs ≤ n → take n xs ≡ xs
take-enough zero [] h = refl
take-enough zero (x ∷ xs) h = absurd (omega arith)
take-enough (suc n) [] h = refl
take-enough (suc n) (x ∷ xs) h = ap (◌∷◌ x) (take-enough n xs (omega arith))

length-take-le : (n : ℕ) (xs : Bytes) → length (take n xs) ≤ n
length-take-le zero xs = omega arith
length-take-le (suc n) [] = omega arith
length-take-le (suc n) (x ∷ xs) = omega (arith, length-take-le n xs)

copy_parts_lem :
    (size : ℕ) (parts : List Bytes) (copied : Bytes)
    → length copied ≤ size
    → copy_parts size parts copied ≡ take size (copied ++ concat parts)
unfolding copy_parts
copy_parts_lem size [] copied h = rw (append-nil copied) (sym (take-enough size copied h))
copy_parts_lem size (part ∷ parts) copied h =
    let next : copied ++ take (min (length part) (size - length copied)) part
        ≡ take size (copied ++ part) =
      rw (take-min (size - length copied) part)
        (take-past size (size - length copied) copied part (omega arith)) in
    rw next (copy_parts_lem size parts (take size (copied ++ part)) (length-take-le size _))
    ∙ (take-take-append size (copied ++ part) (concat parts)
        ∙ ap (take size) (append_assoc copied part (concat parts)))

zeros-take : (n m : ℕ) → n ≤ m → zeros n ≡ take n (zeros m)
zeros-take zero m h = refl
zeros-take (suc n) zero h = absurd (omega arith)
zeros-take (suc n) (suc m) h = ap (◌∷◌ 0) (zeros-take n m (omega arith))

-- What is missing is filled with zeros.
padded_lem :
    (n m : ℕ) (xs : Bytes)
    → n ≤ m
    → take n xs ++ zeros (n - length (take n xs)) ≡ take n (xs ++ zeros m)
padded_lem zero m xs h = refl
padded_lem (suc n) m [] h =
    let whole : suc n - 0 ≡ suc n = omega arith in
    ap (λ (j : ℕ). zeros j) whole ∙ zeros-take (suc n) m h
padded_lem (suc n) m (x ∷ xs) h =
    let left : suc n - suc (length (take n xs)) ≡ n - length (take n xs) = omega arith in
    ap (◌∷◌ x) (ap (λ (j : ℕ). take n xs ++ zeros j) left ∙ padded_lem n m xs (omega arith))

-- `sd_from_ser_iov` makes a serdata of exactly the size asked for, with the bytes of the parts one
-- after the other, cut off at that size or filled up with zeros, with no key and with the hash of
-- its type.
pub sd_from_ser_iov_lem :
    (st : OpaqueSertype) (parts : List Bytes) (size : ℕ)
    → (let sd = sd_from_ser_iov st parts size in
        (sd.bytes ≡ take size (concat parts ++ zeros size))
        × (length sd.bytes ≡ size)
        × (sd.key_data ≡ none)
        × (sd.hash ≡ st_hash st))
unfolding sd_from_ser_iov
sd_from_ser_iov_lem st parts size =
    let copied = copy_parts_lem size parts [] (omega arith) in
    let bytes_are : (sd_from_ser_iov st parts size).bytes ≡ take size (concat parts ++ zeros size) =
      rw copied (padded_lem size size (concat parts) (omega arith)) in
    (
      bytes_are,
      ap length bytes_are
          ∙ length-take size (concat parts ++ zeros size)
              (omega (arith, length-append (concat parts) (zeros size), length-zeros size)),
      refl,
      refl,
    )

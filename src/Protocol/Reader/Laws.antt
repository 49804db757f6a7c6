-- ===== src/Protocol/Reader/Laws.antt =====
-- What the readers return at the bytes that the writers append.
use cyclone_dds_ws_bridge.Base.{
  Bytes, [], ap, append_assoc, arith, drop, drop-append, false, length, length-append, ltb, ok,
  refl, take, take-append, ℕ, ◌%◌, ◌++◌, ◌+◌, ◌<◌, ◌^◌, ◌∙◌, ◌≡◌, ◌≤◌,
}
use cyclone_dds_ws_bridge.Base.Buf.{Buf}
use cyclone_dds_ws_bridge.Base.Utf8.{IsUtf8}
use cyclone_dds_ws_bridge.Base.Words.{
  from_le_bytes, from_le_bytes-to_le_bytes, length-to_le_bytes, to_le_bytes,
}
use cyclone_dds_ws_bridge.Protocol.Reader.{
  Reader, ensure, ensure_byte, from_utf8, lift, max_string_length, pure, read_string, read_text,
  slice, u16_le, u32_le, u64_le, u8, write_string, ◌>>=◌, ◌>>◌,
}

-- A string that the protocol can carry.
pub record IsText (s : Bytes) : Type 0 where
  pub utf8 : IsUtf8 s
  pub short : length s ≤ max_string_length

pub length-bytes : (xs ys : Bytes) → length (xs ++ ys) ≡ length xs + length ys
length-bytes = length-append

-- The lengths of the bytes that a writer appends.
pub ruleset lengths = (arith, length-bytes, length-to_le_bytes)

module _ {ℓ} {A : Type ℓ} where
  -- The reader takes exactly these bytes, whatever follows them, and returns this value.
  pub record Reads (m : Reader A) (xs : Bytes) (a : A) : Type ℓ where
    pub at : (rest : Bytes) → m (xs ++ rest) ≡ ok (a, rest)

  pub pure-Reads : (a : A) → Reads (pure a) [] a
  unfolding pure
  pure-Reads a = record { at = λ rest. refl }

module _ {ℓ κ} {A : Type ℓ} {B : Type κ} where
  pub bind_ok :
      (m : Reader A) (f : A → Reader B) (s : Bytes) {a : A} {rest : Bytes}
      → m s ≡ ok (a, rest)
      → (m >>= f) s ≡ f a rest
  unfolding ◌>>=◌
  bind_ok m f s e = rw (e, ◌>>=◌)

  pub Reads-bind :
      {m : Reader A} (f : A → Reader B) {xs ys : Bytes} {a : A} {c : B}
      → Reads m xs a
      → Reads (f a) ys c
      → Reads (m >>= f) (xs ++ ys) c
  Reads-bind {m} f {xs} {ys} r q = record {
    at = λ rest. rw (append_assoc xs ys rest) (bind_ok m f _ (r.at (ys ++ rest)) ∙ q.at rest);
  }

  pub Reads-last :
      {m : Reader A} (f : A → Reader B) {xs : Bytes} {a : A} {c : B}
      → Reads m xs a
      → Reads (f a) [] c
      → Reads (m >>= f) xs c
  Reads-last {m} f {xs} r q = record { at = λ rest. bind_ok m f _ (r.at rest) ∙ q.at rest }

  -- A reader that takes no bytes and returns a value.
  pub Reads-bind_nil :
      {m : Reader A} (f : A → Reader B) {xs : Bytes} {a : A} {c : B}
      → Reads m [] a
      → Reads (f a) xs c
      → Reads (m >>= f) xs c
  Reads-bind_nil f r q = Reads-bind f r q

  pub Reads-map :
      {m : Reader A} (f : A → B) {xs : Bytes} {a : A}
      → Reads m xs a
      → Reads (m >>= λ x. pure (f x)) xs (f a)
  unfolding pure
  Reads-map {m} f {xs} r = record {
    at = λ rest. bind_ok m (λ x. pure (f x)) (xs ++ rest) (r.at rest);
  }

take-prefix : (n : ℕ) (xs ys : Bytes) → length xs ≡ n → take n (xs ++ ys) ≡ xs
take-prefix n xs ys e = rw (← e) (take-append xs ys)

drop-prefix : (n : ℕ) (xs ys : Bytes) → length xs ≡ n → drop n (xs ++ ys) ≡ ys
drop-prefix n xs ys e = rw (← e) (drop-append xs ys)

-- The bytes of a string.
abbrev pub string_bytes : Bytes → Bytes
string_bytes s = to_le_bytes 4 (length s % 2 ^ 32) ++ s

-- A test that takes no bytes and passes.
pub Reads-skip {ℓ} :
    {B : Type ℓ} {m : Reader (Unit {0})} {k : Reader B} {xs : Bytes} {c : B}
    → Reads m [] tt
    → Reads k xs c
    → Reads (m >> k) xs c
unfolding ◌>>◌
Reads-skip {m} {k} {xs} r q = record {
  at = λ rest. bind_ok m (λ _. k) _ (r.at (xs ++ rest)) ∙ q.at rest;
}

module _ ⦃b : Buf⦄ where
  pub ensure_lem : (n : ℕ) (s : Bytes) → n ≤ length s → ensure n s ≡ ok (tt, s)
  unfolding ensure
  ensure_lem n s h = ground (arith, b.remaining_lem s)

  pub ensure-append :
      (n : ℕ) (xs rest : Bytes) → n ≤ length xs → ensure n (xs ++ rest) ≡ ok (tt, xs ++ rest)
  ensure-append n xs rest h = ensure_lem n (xs ++ rest) (omega (arith, length-append xs rest))

  pub ensure_byte-append :
      (xs rest : Bytes) → 1 ≤ length xs → ensure_byte (xs ++ rest) ≡ ok (tt, xs ++ rest)
  unfolding ensure_byte
  ensure_byte-append xs rest h = ground (arith, b.remaining_lem (xs ++ rest), length-append xs rest)

  word_split :
      (k n : ℕ) (rest : Bytes) (e : n < 256 ^ k)
      → (k ≤ length (to_le_bytes k n ++ rest))
        × (from_le_bytes (take k (to_le_bytes k n ++ rest)) ≡ n)
        × (drop k (to_le_bytes k n ++ rest) ≡ rest)
  word_split k n rest e = (
    omega (arith, length-append (to_le_bytes k n) rest, length-to_le_bytes k n),
    ap from_le_bytes (take-prefix k _ rest (length-to_le_bytes k n))
        ∙ from_le_bytes-to_le_bytes k n e,
    drop-prefix k _ rest (length-to_le_bytes k n),
  )

  pub get_u8-put : (n : ℕ) (rest : Bytes) → n < 256 → b.get_u8 (to_le_bytes 1 n ++ rest) ≡ (n, rest)
  get_u8-put n rest h = let w = word_split 1 n rest h in rw (b.get_u8_lem _ w.0, w.1, w.2)

  pub get_u16_le-put :
      (n : ℕ) (rest : Bytes) → n < 2 ^ 16 → b.get_u16_le (to_le_bytes 2 n ++ rest) ≡ (n, rest)
  get_u16_le-put n rest h = let w = word_split 2 n rest h in rw (b.get_u16_le_lem _ w.0, w.1, w.2)

  pub get_u32_le-put :
      (n : ℕ) (rest : Bytes) → n < 2 ^ 32 → b.get_u32_le (to_le_bytes 4 n ++ rest) ≡ (n, rest)
  get_u32_le-put n rest h = let w = word_split 4 n rest h in rw (b.get_u32_le_lem _ w.0, w.1, w.2)

  pub get_u64_le-put :
      (n : ℕ) (rest : Bytes) → n < 2 ^ 64 → b.get_u64_le (to_le_bytes 8 n ++ rest) ≡ (n, rest)
  get_u64_le-put n rest h = let w = word_split 8 n rest h in rw (b.get_u64_le_lem _ w.0, w.1, w.2)

  pub u8-Reads : (n : ℕ) → n < 256 → Reads u8 (to_le_bytes 1 n) n
  unfolding u8
  u8-Reads n h = record { at = λ rest. ap ok (get_u8-put n rest h) }

  pub u16_le-Reads : (n : ℕ) → n < 2 ^ 16 → Reads u16_le (to_le_bytes 2 n) n
  unfolding u16_le
  u16_le-Reads n h = record { at = λ rest. ap ok (get_u16_le-put n rest h) }

  pub u32_le-Reads : (n : ℕ) → n < 2 ^ 32 → Reads u32_le (to_le_bytes 4 n) n
  unfolding u32_le
  u32_le-Reads n h = record { at = λ rest. ap ok (get_u32_le-put n rest h) }

  pub u64_le-Reads : (n : ℕ) → n < 2 ^ 64 → Reads u64_le (to_le_bytes 8 n) n
  unfolding u64_le
  u64_le-Reads n h = record { at = λ rest. ap ok (get_u64_le-put n rest h) }

  pub slice-Reads : (xs : Bytes) → Reads (slice (length xs)) xs xs
  unfolding slice
  slice-Reads xs = record {
    at = λ rest. rw (
      take-append xs rest,
      b.advance_lem (xs ++ rest) (length xs) (omega (arith, length-append xs rest)),
      drop-append xs rest,
    );
  }

  pub ensure-Reads :
      {A : Type 0} {m : Reader A} {xs : Bytes} {a : A} (n : ℕ)
      → n ≤ length xs
      → Reads m xs a
      → Reads (ensure n >> m) xs a
  unfolding ◌>>◌
  ensure-Reads {m} {xs} n h r = record {
    at = λ rest. bind_ok (ensure n) (λ _. m) (xs ++ rest) (ensure-append n xs rest h) ∙ r.at rest;
  }

  pub ensure_byte-Reads :
      {A : Type 0} {m : Reader A} {xs : Bytes} {a : A}
      → 1 ≤ length xs
      → Reads m xs a
      → Reads (ensure_byte >> m) xs a
  unfolding ◌>>◌
  ensure_byte-Reads {m} {xs} h r = record {
    at = λ rest.
        bind_ok ensure_byte (λ _. m) (xs ++ rest) (ensure_byte-append xs rest h) ∙ r.at rest;
  }

  pub write_string-append : (buf s : Bytes) → write_string buf s ≡ buf ++ string_bytes s
  unfolding write_string
  write_string-append buf s = simp (b.put_slice_lem, b.put_u32_le_lem, append_assoc)

  from_utf8-Reads : (s : Bytes) → IsText s → Reads (lift (from_utf8 s)) [] s
  unfolding from_utf8 lift
  from_utf8-Reads s h = record { at = λ rest. rw (h.utf8, from_utf8) }

  read_text-Reads : (s : Bytes) → IsText s → Reads (read_text (length s)) s s
  unfolding read_text
  read_text-Reads s h =
      let fits : ltb max_string_length (length s) ≡ false = ground (arith, h.short) in
      rw fits (
        ensure-Reads (length s) (omega arith)
          (Reads-last (λ t. lift (from_utf8 t)) (slice-Reads s) (from_utf8-Reads s h)))

  pub read_string-Reads : (s : Bytes) → IsText s → Reads read_string (string_bytes s) s
  unfolding read_string
  read_string-Reads s h =
      let n : ℕ = length s in
      let head : length (to_le_bytes 4 n) ≡ 4 = length-to_le_bytes 4 n in
      let small : n % 2 ^ 32 ≡ n = omega (arith, h.short) in
      rw small (
        ensure-Reads 4 (omega (arith, length-append (to_le_bytes 4 n) s, head))
          (Reads-bind read_text (u32_le-Reads n (omega (arith, h.short))) (read_text-Reads s h)))

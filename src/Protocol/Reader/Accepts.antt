-- ===== src/Protocol/Reader/Accepts.antt =====
-- What a reader of src/protocol.rs has taken from its input when it returns a value: the converse
-- of `Reads`, as rules that follow the `do` blocks of the readers.
use cyclone_dds_ws_bridge.Base.{
  All-drop, All-take, Bool, Bool-cases, Bytes, Result, [], ap, append_assoc, arith, drop, err,
  false, if◌then◌else◌, inl, inr, length, length-drop, length-take, ltb, ok, refl, sym, take,
  take-append-drop, true, ℕ, ◌++◌, ◌+◌, ◌<◌, ◌^◌, ◌∙◌, ◌≡◌, ◌≤◌,
}
use cyclone_dds_ws_bridge.Base.Buf.{Buf}
use cyclone_dds_ws_bridge.Base.Words.{
  AllBytes, IsByte, IsU32, from_le_bytes, from_le_bytes-lt, to_le_bytes, to_le_bytes-from_le_bytes,
}
use cyclone_dds_ws_bridge.Protocol.Errors.{ProtocolError}
use cyclone_dds_ws_bridge.Protocol.Reader.{
  Reader, ensure, ensure_byte, fail, lift, pure, u32_le, u8, ◌>>=◌, ◌>>◌,
}

-- Whatever the reader returns on at least n bytes, its value, the bytes that it has used and those
-- that it leaves are related.
pub record Accepts {A : Type 0} (n : ℕ) (m : Reader A) (R : A → Bytes → Bytes → Type 0)
    : Type 0 where
  pub at :
      (s : Bytes) (a : A) (rest : Bytes)
      → AllBytes s
      → n ≤ length s
      → m s ≡ ok (a, rest)
      → (used : Bytes) × (s ≡ used ++ rest) × AllBytes rest × R a used rest

pub split_append :
    (u v rest : Bytes) {s s' : Bytes} → s ≡ u ++ s' → s' ≡ v ++ rest → s ≡ (u ++ v) ++ rest
split_append u v rest p q = p ∙ (ap (◌++◌ u) q ∙ sym (append_assoc u v rest))

pub cut_at : (k : ℕ) (s : Bytes) {u s' : Bytes} → u ≡ take k s → drop k s ≡ s' → s ≡ u ++ s'
cut_at k s p q = rw (p, ← q) (sym (take-append-drop k s))

module _ {A B : Type 0} where
  bind_result :
      (f : A → Reader B) (r : Result ProtocolError (A × Bytes)) {c : B} {rest : Bytes}
      → ◌≡◌ {A = Result ProtocolError (B × Bytes)}
          (elim r [ ok (a, s) ↦ f a s | err e ↦ err e ])
          (ok (c, rest))
      → (a : A) × (s : Bytes) × (r ≡ ok (a, s)) × (f a s ≡ ok (c, rest))
  bind_result f (ok (a, s)) h = (a, s, refl, h)
  bind_result f (err e) h = cc

  pub bind-eq-ok :
      (m : Reader A) (f : A → Reader B) (s : Bytes) {c : B} {rest : Bytes}
      → (m >>= f) s ≡ ok (c, rest)
      → (a : A) × (s' : Bytes) × (m s ≡ ok (a, s')) × (f a s' ≡ ok (c, rest))
  unfolding ◌>>=◌
  bind-eq-ok m f s h = bind_result f (m s) h

  pub Accepts-bind :
      {n : ℕ} {m : Reader A} {P : A → Bytes → Bytes → Type 0} (f : A → Reader B)
      (R : B → Bytes → Bytes → Type 0)
      → Accepts n m P
      → ((a : A) (u s : Bytes) → P a u s → Accepts 0 (f a) (λ c v. R c (u ++ v)))
      → Accepts n (m >>= f) R
  Accepts-bind {m} f R r q = record {
    at = λ s c rest bytes long h.
        let (a, s', first, second) = bind-eq-ok m f s h in
        let (u, split, bytes', p) = r.at s a s' bytes long first in
        let (v, split', bytes'', p') = (q a u s' p).at s' c rest bytes' (omega arith) second in
        (u ++ v, split_append u v rest split split', bytes'', p');
  }

module _ {A : Type 0} where
  pub Accepts-weaken :
      {n : ℕ} {m : Reader A} {P : A → Bytes → Bytes → Type 0} (R : A → Bytes → Bytes → Type 0)
      → Accepts n m P
      → ((a : A) (u s : Bytes) → P a u s → R a u s)
      → Accepts n m R
  Accepts-weaken R r w = record {
    at = λ s a rest bytes long h.
        let (u, split, bytes', p) = r.at s a rest bytes long h in (u, split, bytes', w a u rest p);
  }

  pub pure-Accepts :
      {n : ℕ} (a : A) (R : A → Bytes → Bytes → Type 0)
      → ((s : Bytes) → R a [] s)
      → Accepts n (pure a) R
  unfolding pure
  pure-Accepts a R p = record {
    at = λ s c rest bytes long h.
        let same : a ≡ c = cc in
        let left : s ≡ rest = cc in ([], left, rw (← left) bytes, rw (← same) (p rest));
  }

  pub fail-Accepts :
      {n : ℕ} (e : ProtocolError) (R : A → Bytes → Bytes → Type 0) → Accepts n (fail e) R
  unfolding fail
  fail-Accepts e R = record { at = λ s a rest bytes long h. cc }

  -- A test that takes no bytes: what follows it knows that it passed.
  pub lift-Accepts :
      {n : ℕ} {m : Reader A} (r : Result ProtocolError (Unit {0})) (R : A → Bytes → Bytes → Type 0)
      → (r ≡ ok tt → Accepts n m R)
      → Accepts n (lift r >> m) R
  unfolding lift ◌>>◌ ◌>>=◌
  lift-Accepts (ok tt) R q = record {
    at = λ s a rest bytes long h. (q refl).at s a rest bytes long h;
  }
  lift-Accepts (err e) R q = record { at = λ s a rest bytes long h. cc }

  pub Accepts-if :
      {n : ℕ} {m k : Reader A} (t : Bool) (R : A → Bytes → Bytes → Type 0)
      → (t ≡ true → Accepts n m R)
      → (t ≡ false → Accepts n k R)
      → Accepts n (if t then m else k) R
  Accepts-if true R p q = p refl
  Accepts-if false R p q = q refl

word_parts :
    (k : ℕ) (s : Bytes) (x : ℕ)
    → AllBytes s
    → k ≤ length s
    → from_le_bytes (take k s) ≡ x
    → (to_le_bytes k x ≡ take k s) × (x < 256 ^ k)
word_parts k s x bytes long value =
    let word : Bytes = take k s in
    let size : length word ≡ k = length-take k s long in
    let all : AllBytes word = All-take IsByte k s bytes in
    (
      ap (to_le_bytes k) (sym value) ∙ (rw size at (to_le_bytes-from_le_bytes word all)),
      rw (← value) (rw size at (from_le_bytes-lt word all)),
    )

module _ ⦃b : Buf⦄ where
  ensure-eq-ok :
      (n : ℕ) (s : Bytes) {r : Unit {0}} {rest : Bytes}
      → ensure n s ≡ ok (r, rest)
      → (n ≤ length s) × (s ≡ rest)
  unfolding ensure
  ensure-eq-ok n s h = elim (Bool-cases (ltb (b.remaining s) n)) [
    | inl short ↦ let none_left = rw short at h in cc
    | inr enough ↦ let rest_eq = rw enough at h in (ground (arith, b.remaining_lem s), cc)
  ]

  ensure_byte-eq-ok :
      (s : Bytes) {r : Unit {0}} {rest : Bytes}
      → ensure_byte s ≡ ok (r, rest)
      → (1 ≤ length s) × (s ≡ rest)
  unfolding ensure_byte
  ensure_byte-eq-ok s h = elim (Bool-cases (ltb (b.remaining s) 1)) [
    | inl short ↦ let none_left = rw short at h in cc
    | inr enough ↦ let rest_eq = rw enough at h in (ground (arith, b.remaining_lem s), cc)
  ]

  module _ {A : Type 0} where
    pub ensure-Accepts :
        {n : ℕ} {m : Reader A} (k : ℕ) (R : A → Bytes → Bytes → Type 0)
        → Accepts k m R
        → Accepts n (ensure k >> m) R
    unfolding ◌>>◌
    ensure-Accepts {m} k R q = record {
      at = λ s a rest bytes long h.
          let (r, s', first, second) = bind-eq-ok (ensure k) (λ _. m) s h in
          let (enough, same) = ensure-eq-ok k s first in
          q.at s a rest bytes enough (rw (← same) at second);
    }

    pub ensure_byte-Accepts :
        {n : ℕ} {m : Reader A} (R : A → Bytes → Bytes → Type 0)
        → Accepts 1 m R
        → Accepts n (ensure_byte >> m) R
    unfolding ◌>>◌
    ensure_byte-Accepts {m} R q = record {
      at = λ s a rest bytes long h.
          let (r, s', first, second) = bind-eq-ok ensure_byte (λ _. m) s h in
          let (enough, same) = ensure_byte-eq-ok s first in
          q.at s a rest bytes enough (rw (← same) at second);
    }

    -- A word of k bytes, with what follows it.
    word-Accepts :
        {n : ℕ} (k : ℕ) (m : Reader ℕ) (f : ℕ → Reader A) (R : A → Bytes → Bytes → Type 0)
        → ((s : Bytes) → k ≤ length s → m s ≡ ok (from_le_bytes (take k s), drop k s))
        → ((x : ℕ) → x < 256 ^ k → Accepts n (f x) (λ c v. R c (to_le_bytes k x ++ v)))
        → Accepts (k + n) (m >>= f) R
    word-Accepts k m f R reads q = record {
      at = λ s c rest bytes long h.
          let (x, s', first, second) = bind-eq-ok m f s h in
          let known = reads s (omega arith) in
          let both : ◌≡◌ {A = Result ProtocolError (ℕ × Bytes)}
              (ok (from_le_bytes (take k s), drop k s)) (ok (x, s')) =
            sym known ∙ first in
          let value : from_le_bytes (take k s) ≡ x = cc in
          let left : drop k s ≡ s' = cc in
          let (word, small) = word_parts k s x bytes (omega arith) value in
          let bytes' : AllBytes s' = rw (← left) (All-drop IsByte k s bytes) in
          let (v, split, bytes'', p) =
            (q x small).at s' c rest bytes' (omega (arith, ap length left, length-drop k s))
              second in
          (
            to_le_bytes k x ++ v,
            split_append (to_le_bytes k x) v rest (cut_at k s word left) split,
            bytes'',
            p,
          );
    }

    pub u8-Accepts :
        (n : ℕ) (f : ℕ → Reader A) (R : A → Bytes → Bytes → Type 0)
        → ((x : ℕ) → x < 256 → Accepts n (f x) (λ c v. R c (to_le_bytes 1 x ++ v)))
        → Accepts (1 + n) (u8 >>= f) R
    unfolding u8
    u8-Accepts n f R q = word-Accepts 1 u8 f R (λ s h. ap ok (b.get_u8_lem s h)) q

    pub u32_le-Accepts :
        (n : ℕ) (f : ℕ → Reader A) (R : A → Bytes → Bytes → Type 0)
        → ((x : ℕ) → IsU32 x → Accepts n (f x) (λ c v. R c (to_le_bytes 4 x ++ v)))
        → Accepts (4 + n) (u32_le >>= f) R
    unfolding u32_le
    u32_le-Accepts n f R q = word-Accepts 4 u32_le f R (λ s h. ap ok (b.get_u32_le_lem s h)) q

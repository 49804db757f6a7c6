-- ===== src/Protocol/Reader/Strings.antt =====
-- What the readers of src/protocol.rs for strings, slices and the end of the message have taken.
use cyclone_dds_ws_bridge.Base.{
  All-drop, All-take, Bytes, Option, Result, [], ap, append-nil, arith, drop, err, length,
  length-take, ltb, none, ok, refl, some, sym, take, ℕ, ◌%◌, ◌++◌, ◌^◌, ◌∙◌, ◌∷◌, ◌≡◌, ◌≤◌,
}
use cyclone_dds_ws_bridge.Base.Buf.{Buf}
use cyclone_dds_ws_bridge.Base.Utf8.{IsUtf8, Utf8Error, utf8_error}
use cyclone_dds_ws_bridge.Base.Words.{AllBytes, IsByte}
use cyclone_dds_ws_bridge.Protocol.Errors.{ProtocolError}
use cyclone_dds_ws_bridge.Protocol.Parse.{no_trailing, rest_bytes}
use cyclone_dds_ws_bridge.Protocol.Reader.{
  Reader, check_no_trailing, from_utf8, lift, max_string_length, pure, read_bool, read_string,
  read_text, slice, utf8_result, ◌>>=◌, ◌>>◌,
}
use cyclone_dds_ws_bridge.Protocol.Reader.Accepts.{
  Accepts, Accepts-if, Accepts-weaken, bind-eq-ok, cut_at, ensure-Accepts, ensure_byte-Accepts,
  fail-Accepts, split_append, pure-Accepts, u32_le-Accepts, u8-Accepts,
}
use cyclone_dds_ws_bridge.Protocol.Reader.Laws.{IsText, lengths, string_bytes}

module _ {A : Type 0} where
  pub lift_value-Accepts :
      {n : ℕ} (r : Result ProtocolError A) (R : A → Bytes → Bytes → Type 0)
      → ((a : A) (s : Bytes) → r ≡ ok a → R a [] s)
      → Accepts n (lift r) R
  unfolding lift
  lift_value-Accepts (ok a) R q = record {
    at = λ s c rest bytes long h.
        let same : a ≡ c = cc in
        let left : s ≡ rest = cc in ([], left, rw (← left) bytes, q c rest (ap ok same));
  }
  lift_value-Accepts (err e) R q = record { at = λ s a rest bytes long h. cc }

utf8_result-eq-ok :
    (e : Option Utf8Error) (s : Bytes) {t : Bytes} → utf8_result e s ≡ ok t → (s ≡ t) × (e ≡ none)
unfolding utf8_result
utf8_result-eq-ok none s h = (cc, refl)
utf8_result-eq-ok (some e) s h = cc

from_utf8-eq-ok : (s : Bytes) {t : Bytes} → from_utf8 s ≡ ok t → (s ≡ t) × IsUtf8 s
unfolding from_utf8
from_utf8-eq-ok s h = utf8_result-eq-ok (utf8_error s) s h

equal-IsText : (s t : Bytes) → IsUtf8 s → s ≡ t → length s ≤ max_string_length → IsText t
equal-IsText s t utf8 same short = rw (← same) (record { utf8 = utf8; short = short })

-- What the end of the payload leaves.
no_rest :
    {A : Type 0} {a c : A} (s rest : Bytes) (R : A → Bytes → Bytes → Type 0)
    → ◌≡◌ {A = Result ProtocolError (A × Bytes)} ((no_trailing >> pure a) s) (ok (c, rest))
    → R a [] []
    → (used : Bytes) × (s ≡ used ++ rest) × AllBytes rest × R c used rest
unfolding no_trailing pure ◌>>◌ ◌>>=◌ lift check_no_trailing
no_rest {a} {c} [] rest R h q =
    let same : a ≡ c = cc in
    let left : [] ≡ rest = cc in ([], left, rw (← left) tt, rw (← same, ← left) q)
no_rest (x ∷ s) rest R h q = cc

module _ ⦃b : Buf⦄ where
  pub slice-Accepts :
      {A : Type 0} (k : ℕ) (f : Bytes → Reader A) (R : A → Bytes → Bytes → Type 0)
      → ((x : Bytes) → length x ≡ k → AllBytes x → Accepts 0 (f x) (λ c v. R c (x ++ v)))
      → Accepts k (slice k >>= f) R
  unfolding slice
  slice-Accepts k f R q = record {
    at = λ s c rest bytes long h.
        let (x, s', first, second) = bind-eq-ok (slice k) f s h in
        let left : drop k s ≡ s' = sym (b.advance_lem s k long) ∙ (cc) in
        let value : x ≡ take k s = cc in
        let size : length x ≡ k = ap length value ∙ length-take k s long in
        let all : AllBytes x = rw value (All-take IsByte k s bytes) in
        let bytes' : AllBytes s' = rw (← left) (All-drop IsByte k s bytes) in
        let (v, split, bytes'', p) = (q x size all).at s' c rest bytes' (omega arith) second in
        (x ++ v, split_append x v rest (cut_at k s value left) split, bytes'', p);
  }

  read_text-Accepts :
      (len : ℕ) → Accepts 0 (read_text len) (λ t u s. IsText t × (u ≡ t) × (length t ≡ len))
  unfolding read_text
  read_text-Accepts len =
      Accepts-if (ltb max_string_length len) _ (λ long. fail-Accepts _ _)
        λ fits. ensure-Accepts len _ (
          slice-Accepts len _ _ λ x size all. lift_value-Accepts (from_utf8 x) _ λ t s good.
            let (same, utf8) = from_utf8-eq-ok x good in
            (
              equal-IsText x t utf8 same (ground arith),
              append-nil x ∙ same,
              ap length (sym same) ∙ size,
            ))

  -- A string that is read is a text, and the bytes used are those that the writer appends for it.
  pub read_string-Accepts :
      {n : ℕ} → Accepts n read_string (λ t u s. IsText t × (u ≡ string_bytes t))
  unfolding read_string
  read_string-Accepts = ensure-Accepts 4 _ (
      u32_le-Accepts 0 read_text _ λ len small.
        Accepts-weaken _ (read_text-Accepts len) λ t u s (text, same, size).
          let wrapped : length t % 2 ^ 32 ≡ len = omega arith in (text, rw (wrapped, same)))

  module _ {A : Type 0} where
    -- `buf.to_vec()` at the end of a payload.
    pub rest_bytes-Accepts :
        {n : ℕ} (f : Bytes → A) (R : A → Bytes → Bytes → Type 0)
        → ((x : Bytes) → R (f x) [] x)
        → Accepts n (rest_bytes >>= λ x. pure (f x)) R
    unfolding rest_bytes pure ◌>>=◌
    rest_bytes-Accepts f R q = record {
      at = λ s a rest bytes long h.
          let left : s ≡ rest = cc in
          let same : f s ≡ a = cc in ([], left, rw (← left) bytes, rw (← same, ← left) (q s));
    }

    pub no_trailing-Accepts :
        {n : ℕ} (a : A) (R : A → Bytes → Bytes → Type 0)
        → R a [] []
        → Accepts n (no_trailing >> pure a) R
    no_trailing-Accepts a R q = record { at = λ s c rest bytes long h. no_rest s rest R h q }

  pub read_bool-Accepts : Accepts 0 read_bool (λ v u s. length u ≡ 1)
  unfolding read_bool
  read_bool-Accepts =
      ensure_byte-Accepts _ (u8-Accepts 0 _ _ λ v small. pure-Accepts _ _ λ s. omega lengths)

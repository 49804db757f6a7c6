-- ===== src/Protocol/RoundTrip/Parses.antt =====
-- Rules for parsers that read a whole payload.
use cyclone_dds_ws_bridge.Base.{
  Bool, Bytes, [], append-nil, arith, false, if◌then◌else◌, length, ok, refl, subst, true, ℕ, ◌++◌,
  ◌∙◌, ◌≡◌, ◌≤◌,
}
use cyclone_dds_ws_bridge.Base.Buf.{Buf}
use cyclone_dds_ws_bridge.Base.Words.{to_le_bytes}
use cyclone_dds_ws_bridge.Protocol.Parse.{no_trailing, rest_bytes, run}
use cyclone_dds_ws_bridge.Protocol.Reader.{
  Reader, check_no_trailing, ensure, lift, pure, read_bool, ◌>>=◌, ◌>>◌,
}
use cyclone_dds_ws_bridge.Protocol.Reader.Laws.{
  Reads, Reads-map, bind_ok, ensure_byte-Reads, ensure_lem, lengths, u8-Reads,
}

module _ {ℓ} {A : Type ℓ} where
  -- The reader accepts these bytes as a whole payload, and this is its value.
  pub record Parses (m : Reader A) (xs : Bytes) (a : A) : Type ℓ where
    pub left : Bytes
    pub at : m xs ≡ ok (a, left)

  pub run_lem : {m : Reader A} {xs : Bytes} {a : A} → Parses m xs a → run m xs ≡ ok a
  unfolding run
  run_lem {m} p = rw (p.at, run)

  pub Parses-end : (a : A) → Parses (no_trailing >> pure a) [] a
  unfolding ◌>>◌ no_trailing check_no_trailing lift pure
  Parses-end a = record { left = []; at = refl }

  pub Parses-rest : (f : Bytes → A) (xs : Bytes) → Parses (rest_bytes >>= λ s. pure (f s)) xs (f xs)
  unfolding ◌>>=◌ rest_bytes pure
  Parses-rest f xs = record { left = xs; at = refl }

module _ {ℓ κ} {A : Type ℓ} {B : Type κ} where
  pub Parses-bind :
      {m : Reader A} (f : A → Reader B) {xs ys : Bytes} {a : A} {c : B}
      → Reads m xs a
      → Parses (f a) ys c
      → Parses (m >>= f) (xs ++ ys) c
  Parses-bind {m} f {xs} {ys} r p = record {
    left = p.left;
    at = bind_ok m f (xs ++ ys) (r.at ys) ∙ p.at;
  }

  pub Parses-last :
      {m : Reader A} (f : A → Reader B) {xs : Bytes} {a : A} {c : B}
      → Reads m xs a
      → Parses (f a) [] c
      → Parses (m >>= f) xs c
  Parses-last {m} f {xs} {c} r p =
      subst (λ s. Parses (m >>= f) s c) (append-nil xs) (Parses-bind f r p)

abbrev pub bool_byte : Bool → Bytes
bool_byte k = to_le_bytes 1 (if k then 1 else 0)

module _ ⦃b : Buf⦄ where
  pub Parses-ensure :
      {A : Type 0} {m : Reader A} {xs : Bytes} {a : A} (n : ℕ)
      → n ≤ length xs
      → Parses m xs a
      → Parses (ensure n >> m) xs a
  unfolding ◌>>◌
  Parses-ensure {m} {xs} n h p = record {
    left = p.left;
    at = bind_ok (ensure n) (λ _. m) xs (ensure_lem n xs h) ∙ p.at;
  }

  pub read_bool-Reads : (k : Bool) → Reads read_bool (bool_byte k) k
  unfolding read_bool
  read_bool-Reads true = ensure_byte-Reads (omega lengths) (Reads-map _ (u8-Reads 1 (omega arith)))
  read_bool-Reads false = ensure_byte-Reads (omega lengths) (Reads-map _ (u8-Reads 0 (omega arith)))

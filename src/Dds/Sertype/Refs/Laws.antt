-- ===== src/Dds/Sertype/Refs/Laws.antt =====
-- When the serdata and samples of src/dds/sertype.rs are given back.
use cyclone_dds_ws_bridge.Base.{
  Bytes, List, Option, Option-cases, [], arith, if◌then◌else◌, inl, inr, is_empty, list_eq, ltb,
  nat_eq, none, pair_eq, refl, some, subst, suc, zero, ℕ, ◌+◌, ◌<◌, ◌==◌, ◌^◌, ◌∷◌, ◌≡◌,
}
use cyclone_dds_ws_bridge.Dds.Sertype.Refs.{
  RefCall, SampleBox, SerdataBox, fill_sample, free_contents, free_sample_data, ref_call, ref_calls,
  sd_free, sd_to_ser_ref, sd_to_ser_unref, sd_to_untyped, serdata_ref, serdata_unref, to_ser_ref,
  to_ser_unref, to_untyped, unref,
}
use cyclone_dds_ws_bridge.Dds.Sertype.Serdata.{OpaqueSerdata}
use cyclone_dds_ws_bridge.Qos.Normalize.{policy_eq}

-- One more reference, where their number stays within 32 bits.
abbrev one_more : ℕ → Option ℕ
one_more zero = none
one_more (suc n) = if ltb (suc (suc n)) (2 ^ 32) then some (suc (suc n)) else none

abbrev one_less : ℕ → Option ℕ
one_less zero = none
one_less (suc n) = some n

-- The references that are held after a call, `none` where the caller has none or there would be 2^32.
abbrev pub held_after : RefCall → ℕ → Option ℕ
held_after (to_ser_ref off sz) n = one_more n
held_after to_untyped n = one_more n
held_after to_ser_unref n = one_less n
held_after unref n = one_less n

abbrev and_held : Option ℕ → (ℕ → Option ℕ) → Option ℕ
and_held none next = none
and_held (some n) next = next n

abbrev pub held : List RefCall → ℕ → Option ℕ
held [] n = some n
held (c ∷ cs) n = and_held (held_after c n) (held cs)

-- The box counts the references, and has been given back once they are gone and not before.
pub record Counts (n : ℕ) (cell : SerdataBox) : Type 0 where
  pub count : cell.refc ≡ n
  pub given_back : cell.freed ≡ (if n == 0 then 1 else 0)

serdata_ref-Counts :
    (n m : ℕ) (cell : SerdataBox)
    → one_more n ≡ some m
    → Counts n cell
    → Counts m (serdata_ref cell)
unfolding serdata_ref
serdata_ref-Counts zero m cell e v = cc
serdata_ref-Counts (suc n) m cell e v = ground arith

serdata_unref-Counts :
    (n m : ℕ) (cell : SerdataBox)
    → one_less n ≡ some m
    → n < 2 ^ 32
    → Counts n cell
    → Counts m (serdata_unref cell)
unfolding serdata_unref sd_free
serdata_unref-Counts zero m cell e h v = cc
serdata_unref-Counts (suc n) m cell e h v = ground arith

ref_call-Counts :
    (c : RefCall) (n m : ℕ) (cell : SerdataBox)
    → held_after c n ≡ some m
    → n < 2 ^ 32
    → Counts n cell
    → Counts m (ref_call c cell)
unfolding ref_call sd_to_ser_ref sd_to_ser_unref sd_to_untyped
ref_call-Counts (to_ser_ref off sz) n m cell e h v = serdata_ref-Counts n m cell e v
ref_call-Counts to_untyped n m cell e h v = serdata_ref-Counts n m cell e v
ref_call-Counts to_ser_unref n m cell e h v = serdata_unref-Counts n m cell e h v
ref_call-Counts unref n m cell e h v = serdata_unref-Counts n m cell e h v

one_more-lt : (n m : ℕ) → one_more n ≡ some m → m < 2 ^ 32
one_more-lt zero m e = cc
one_more-lt (suc n) m e = ground arith

one_less-lt : (n m : ℕ) → one_less n ≡ some m → n < 2 ^ 32 → m < 2 ^ 32
one_less-lt zero m e h = cc
one_less-lt (suc n) m e h = ground arith

held_after-lt : (c : RefCall) (n m : ℕ) → held_after c n ≡ some m → n < 2 ^ 32 → m < 2 ^ 32
held_after-lt (to_ser_ref off sz) n m e h = one_more-lt n m e
held_after-lt to_untyped n m e h = one_more-lt n m e
held_after-lt to_ser_unref n m e h = one_less-lt n m e h
held_after-lt unref n m e h = one_less-lt n m e h

-- As long as holders give back only references that they have, and there are fewer than 2^32
-- references at any time, the count of a serdata is the number of its references, and the serdata
-- is freed once, when that number gets to 0, and not before.
pub ref_calls-Counts :
    (cs : List RefCall) (n m : ℕ) (cell : SerdataBox)
    → held cs n ≡ some m
    → n < 2 ^ 32
    → Counts n cell
    → Counts m (ref_calls cs cell)
unfolding ref_calls
ref_calls-Counts [] n m cell e h v =
    let same : n ≡ m = ground arith in subst (λ (k : ℕ). Counts k cell) same v
ref_calls-Counts (c ∷ cs) n m cell e h v = elim (Option-cases (held_after c n)) [
  | inl refused ↦ let gone = rw refused at e in cc
  | inr (k, allowed) ↦
      ref_calls-Counts cs k m (ref_call c cell) (rw allowed at e) (held_after-lt c n k allowed h)
        (ref_call-Counts c n k cell allowed h v)
]

-- A wrapper that was filled in gives its vector back once, by either way, and only if there is one.
free_contents-fill_sample :
    (sd : OpaqueSerdata) (sample : SampleBox)
    → (let freed = free_contents (fill_sample sd sample) in
        (freed.vector ≡ none)
        × (freed.vectors_freed ≡ sample.vectors_freed + (if is_empty sd.bytes then 0 else 1))
        × (free_contents freed ≡ freed)
        × ((free_sample_data (fill_sample sd sample)).vectors_freed ≡ freed.vectors_freed))
unfolding free_contents fill_sample free_sample_data
free_contents-fill_sample sd sample = filled sd.bytes refl
  where
    filled :
        (bytes : Bytes)
        → sd.bytes ≡ bytes
        → (let freed = free_contents (fill_sample sd sample) in
            (freed.vector ≡ none)
            × (freed.vectors_freed ≡ sample.vectors_freed + (if is_empty sd.bytes then 0 else 1))
            × (free_contents freed ≡ freed)
            × ((free_sample_data (fill_sample sd sample)).vectors_freed ≡ freed.vectors_freed))
    filled [] e = rw e (refl, omega arith, refl, refl)
    filled (x ∷ xs) e = rw e (ground arith)

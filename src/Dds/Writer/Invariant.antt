-- ===== src/Dds/Writer/Invariant.antt =====
-- The invariant of `WriterRegistry` of src/dds/writer.rs: how its two maps agree.
use cyclone_dds_ws_bridge.Base.{
  Bool, List, Option, Option-cases, Result-cases, [], arith, false, if◌then◌else◌, inl, inr,
  list_eq, nat_eq, none, ok, pair_eq, refl, some, ℕ, ◌==◌, ◌∷◌, ◌≡◌,
}
use cyclone_dds_ws_bridge.Base.Assoc.{
  Assoc, lookup, lookup-insert, lookup-without, lookup-without_all, without, without_all,
}
use cyclone_dds_ws_bridge.Base.Int.{ℤ}
use cyclone_dds_ws_bridge.Base.Sets.{contains, contains-append, contains-set_remove}
use cyclone_dds_ws_bridge.Dds.Writer.{
  DdsWriter, WriterRegistry, delete_writer, empty_writers, get_writer, or_empty, register,
  remove_ids, remove_owned, remove_session_writers, remove_writers, removed_writer,
}
use cyclone_dds_ws_bridge.Qos.Normalize.{policy_eq}

abbrev pub ids_of : ℕ → WriterRegistry → List ℕ
ids_of session_id r = or_empty (lookup session_id r.session_writers)

abbrev pub is_owner : ℕ → Option (DdsWriter × ℕ) → Bool
is_owner session_id none = false
is_owner session_id (some (w, owner)) = owner == session_id

-- A session lists exactly the writers that it owns, and each writer stands under its own id.
pub record IsWriters (r : WriterRegistry) : Type 0 where
  pub agrees :
      (wid session_id : ℕ)
      → contains (ids_of session_id r) wid ≡ is_owner session_id (lookup wid r.writers)
  pub ids :
      (wid session_id : ℕ) (w : DdsWriter)
      → lookup wid r.writers ≡ some (w, session_id)
      → w.writer_id ≡ wid

pub empty-IsWriters : IsWriters empty_writers
unfolding lookup contains
empty-IsWriters = record { agrees = λ wid s. refl; ids = λ wid s w e. cc }

-- A successful lookup under an owner, and what `delete` then returns.
get_writer-eq-ok :
    (wid session_id : ℕ) (r : WriterRegistry) {w : DdsWriter}
    → get_writer wid session_id r ≡ ok w
    → lookup wid r.writers ≡ some (w, session_id)
unfolding get_writer
get_writer-eq-ok wid session_id r e = elim (Option-cases (lookup wid r.writers)) [
  | inl absent ↦ ground (arith, absent)
  | inr (x, present) ↦ ground (arith, present)
]

pub delete_writer-eq-ok :
    (wid session_id : ℕ) (r : WriterRegistry) {next : WriterRegistry × List ℤ}
    → delete_writer wid session_id r ≡ ok next
    → (w : DdsWriter) × (lookup wid r.writers ≡ some (w, session_id))
      × (next ≡ (removed_writer wid session_id r, w.handle ∷ []))
unfolding delete_writer
delete_writer-eq-ok wid session_id r e = elim (Result-cases (get_writer wid session_id r)) [
  | inl (w, found) ↦ (w, get_writer-eq-ok wid session_id r found, ground arith)
  | inr (x, refused) ↦ absurd (ground arith)
]

remove_writers-eq-without_all :
    (ids : List ℕ) (m : Assoc ℕ (DdsWriter × ℕ)) → (remove_writers ids m).0 ≡ without_all ids m
unfolding remove_writers without_all
remove_writers-eq-without_all [] m = refl
remove_writers-eq-without_all (wid ∷ ids) m = remove_writers-eq-without_all ids (without wid m)

module _ (r : WriterRegistry) (v : IsWriters r) where
  -- `register` keeps the maps of the writer registry in agreement if the id of the writer is not
  -- in use.
  pub register-IsWriters :
      (w : DdsWriter) (session_id : ℕ)
      → lookup w.writer_id r.writers ≡ none
      → IsWriters (register w session_id r).0
  unfolding register contains
  register-IsWriters w session_id fresh = record {
    agrees = λ wid s.
        rw
          (
            lookup-insert session_id s _ r.session_writers,
            lookup-insert w.writer_id wid _ r.writers,
          )
          (ground (
            arith,
            contains-append (ids_of session_id r) (w.writer_id ∷ []) wid,
            v.agrees wid s,
            v.agrees wid session_id,
          ));
    ids = λ wid s x e.
        ground (arith, lookup-insert w.writer_id wid (w, session_id) r.writers, v.ids wid s x);
  }

  removed_writer-IsWriters :
      (wid session_id : ℕ) (w : DdsWriter)
      → lookup wid r.writers ≡ some (w, session_id)
      → IsWriters (removed_writer wid session_id r)
  unfolding removed_writer remove_owned contains
  removed_writer-IsWriters wid session_id w present = record {
    agrees = λ j s. elim (Option-cases (lookup session_id r.session_writers)) [
      | inl none_listed ↦ absurd (ground (arith, v.agrees wid session_id))
      | inr (ids, listed) ↦
          rw
            (
              listed,
              remove_owned,
              lookup-insert session_id s _ r.session_writers,
              lookup-without wid j r.writers,
            )
            (ground (arith, contains-set_remove wid j ids, v.agrees j s, v.agrees j session_id))
    ];
    ids = λ j s x e. ground (arith, lookup-without wid j r.writers, v.ids j s x);
  }

  -- A `delete` that succeeds keeps the maps of the writer registry in agreement.
  pub delete_writer-IsWriters :
      (wid session_id : ℕ) {next : WriterRegistry × List ℤ}
      → delete_writer wid session_id r ≡ ok next
      → IsWriters next.0
  delete_writer-IsWriters wid session_id e =
      let (w, present, is) = delete_writer-eq-ok wid session_id r e in
      rw is (removed_writer-IsWriters wid session_id w present)

  -- In a registry whose maps agree, after `remove_session` the writers of that session are gone
  -- and every other writer stands as before.
  pub lookup-remove_session_writers :
      (wid session_id : ℕ)
      → lookup wid (remove_session_writers session_id r).0.writers
        ≡ (if is_owner session_id (lookup wid r.writers) then none else lookup wid r.writers)
  unfolding remove_session_writers remove_ids contains
  lookup-remove_session_writers wid session_id =
      elim (Option-cases (lookup session_id r.session_writers)) [
        | inl none_listed ↦ rw (none_listed, remove_ids) (ground (arith, v.agrees wid session_id))
        | inr (ids, listed) ↦
            rw
              (
                listed,
                remove_ids,
                remove_writers-eq-without_all ids r.writers,
                lookup-without_all ids wid r.writers,
              )
              (ground (arith, v.agrees wid session_id))
      ]

  lookup-session_writers :
      (s session_id : ℕ)
      → or_empty (lookup s (remove_session_writers session_id r).0.session_writers)
        ≡ (if session_id == s then [] else ids_of s r)
  unfolding remove_session_writers remove_ids
  lookup-session_writers s session_id = elim (Option-cases (lookup session_id r.session_writers)) [
    | inl none_listed ↦ rw (none_listed, remove_ids) (ground arith)
    | inr (ids, listed) ↦
        rw (listed, remove_ids, lookup-without session_id s r.session_writers) (ground arith)
  ]

  -- `remove_session` keeps the two maps in agreement: every session lists exactly the writers that
  -- it owns, and each writer stands under its own id.
  pub remove_session_writers-IsWriters :
      (session_id : ℕ) → IsWriters (remove_session_writers session_id r).0
  unfolding contains
  remove_session_writers-IsWriters session_id = record {
    agrees = λ j s.
        rw (lookup-session_writers s session_id, lookup-remove_session_writers j session_id)
          (ground (arith, v.agrees j s, v.agrees j session_id));
    ids = λ j s x e. ground (arith, lookup-remove_session_writers j session_id, v.ids j s x);
  }

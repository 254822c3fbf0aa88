-- ===== src/Artifact/References/Accepted.antt =====
-- artifact/referential_integrity.cpp: messages whose references are accepted.
use artifact_system.Base.{
  ℕ, ◌≡◌, ◌≢◌, ◌↔◌, refl, inl, inr, false, Option, none, some, List, [], ◌∷◌, ==_iff, Text, text_eq,
  text_eq_iff, text_key, nat_key, Dict, contains, insert, All, All-map, arith, Bool-cases,
}
use artifact_system.Storage.Status.{StatusOr, ok, failed, StatusOr-cases}
use artifact_system.Storage.State.{is_empty}
use artifact_system.Index.Deltas.Changes.{contains-insert}
use artifact_system.Artifact.Stored.{
  StoredArtifact, Messages, RefIntegrityContext, read_stored_artifact_if_exists,
}
use artifact_system.Artifact.References.{
  Violation, Fields, no_more, field, Content, repeated_uint64, scalar_uint64, repeated_message,
  scalar_message, map_of_messages, unset, other, Submessages, last, next, check_duplicates,
  field_path_of, both, to_list, validate_single_reference, validate_one, validate_each,
  validate_references_on_fields, validate_content, validate_submessages, validate_references,
}

abbrev pub Distinct : List ℕ → Type 0
Distinct [] = Unit {0}
Distinct (id ∷ ids) = All (λ j. id ≢ j) ids × Distinct ids

both-nil : (a b : StatusOr (List Violation)) → both a b ≡ ok [] → (a ≡ ok []) × (b ≡ ok [])
unfolding both
both-nil (failed e) b h = absurd (cc)
both-nil (ok vs) (failed e) h = absurd (cc)
both-nil (ok []) (ok ws) h = (refl, h)
both-nil (ok (v ∷ vs)) (ok ws) h = absurd (cc)

check_duplicates-Distinct :
    (path : Text) (seen : Dict ℕ (Unit {0})) (ids : List ℕ)
    → check_duplicates path seen ids ≡ []
    → All (λ id. contains id seen ≡ false) ids × Distinct ids
unfolding check_duplicates
check_duplicates-Distinct path seen [] h = (tt, tt)
check_duplicates-Distinct path seen (id ∷ ids) h = elim (Bool-cases (contains id seen)) [
  | inl twice ↦ absurd (ground (arith, h, twice))
  | inr new ↦
      let (out, distinct) =
        check_duplicates-Distinct path (insert id tt seen) ids (ground (arith, h, new)) in
      (
        (new, All-map (λ j e. ground (arith, e, contains-insert id j seen)) ids out),
        (
          All-map (λ j e same. ground (arith, e, same, ==_iff id j, contains-insert id j seen)) ids
              out,
          distinct,
        ),
      )
]

All-insert :
    (id : ℕ) (seen : Dict ℕ (Unit {0})) (ids : List ℕ)
    → All (λ j. id ≢ j) ids
    → All (λ j. contains j seen ≡ false) ids
    → All (λ j. contains j (insert id tt seen) ≡ false) ids
All-insert id seen [] apart new = tt
All-insert id seen (j ∷ ids) (differs, apart) (out, new) = (
  ground (arith, differs, out, ==_iff id j, contains-insert id j seen),
  All-insert id seen ids apart new,
)

check_duplicates-nil :
    (path : Text) (seen : Dict ℕ (Unit {0})) (ids : List ℕ)
    → Distinct ids
    → All (λ id. contains id seen ≡ false) ids
    → check_duplicates path seen ids ≡ []
unfolding check_duplicates
check_duplicates-nil path seen [] distinct new = refl
check_duplicates-nil path seen (id ∷ ids) (apart, distinct) (here, new) =
    rw (here, check_duplicates)
      (check_duplicates-nil path (insert id tt seen) ids distinct
        (All-insert id seen ids apart new))

none_seen : (ids : List ℕ) → All (λ id. contains {V = Unit {0}} id [] ≡ false) ids
unfolding contains
none_seen [] = tt
none_seen (id ∷ ids) = (refl, none_seen ids)

module _ {Files D : Type 0} (messages : Messages Files D) (ctx : RefIntegrityContext) where
  -- The storage has an artifact under the ID, which is of the type and not a tombstone.
  abbrev pub Live : Text → ℕ → Type 0
  Live target id =
      (stored : StoredArtifact) × (read_stored_artifact_if_exists messages ctx id
        ≡ ok (some stored))
      × (is_empty stored.payload ≡ false)
      × (stored.type_name ≡ target)

  validate_one-Live :
      (path target : Text) (id : ℕ)
      → validate_one messages ctx path target id ≡ ok []
      → Live target id
  unfolding validate_one validate_single_reference to_list
  validate_one-Live path target id h =
      elim (StatusOr-cases (read_stored_artifact_if_exists messages ctx id)) [
        | inr (e, bad) ↦ absurd (ground (arith, h, bad))
        | inl (none, missing) ↦ absurd (ground (arith, h, missing))
        | inl (some stored, read) ↦ elim (Bool-cases (is_empty stored.payload)) [
          | inl gone ↦ absurd (ground (arith, h, read, gone))
          | inr live ↦ elim (Bool-cases (text_eq stored.type_name target)) [
            | inl same ↦ (stored, read, live, (text_eq_iff stored.type_name target).0 same)
            | inr wrong ↦ absurd (ground (arith, h, read, live, wrong))
          ]
        ]
      ]

  validate_each-Live :
      (path target : Text) (validated : Dict ℕ (Unit {0})) (ids : List ℕ)
      → Distinct ids
      → All (λ id. contains id validated ≡ false) ids
      → validate_each messages ctx path target validated ids ≡ ok []
      → All (Live target) ids
  unfolding validate_each
  validate_each-Live path target validated [] distinct new h = tt
  validate_each-Live path target validated (id ∷ ids) (apart, distinct) (here, new) h =
      let (one, rest) =
        both-nil (validate_one messages ctx path target id)
          (validate_each messages ctx path target (insert id tt validated) ids)
          (ground (arith, h, here)) in
      (
        validate_one-Live path target id one,
        validate_each-Live path target (insert id tt validated) ids distinct
            (All-insert id validated ids apart new) rest,
      )

  -- Every reference field has live artifacts of its target type, and a repeated one no artifact twice;
  -- so have the messages in the fields that are no maps. Of the values of a map nothing is said.
  unfoldable mutual
    pub Sound : Fields → Type 0
    Sound no_more = Unit {0}
    Sound (field name target content fields) = SoundContent target content × Sound fields

    pub SoundContent : Option Text → Content → Type 0
    SoundContent (some target) (repeated_uint64 ids) = Distinct ids × All (Live target) ids
    SoundContent (some target) (scalar_uint64 id) = Live target id
    SoundContent none (repeated_message subs) = SoundSubmessages subs
    SoundContent none (scalar_message fields) = Sound fields
    SoundContent none (map_of_messages values) = Unit {0}
    SoundContent _ _ = Unit {0}

    pub SoundSubmessages : Submessages → Type 0
    SoundSubmessages last = Unit {0}
    SoundSubmessages (next fields subs) = Sound fields × SoundSubmessages subs

  mutual
    unfolding validate_references_on_fields validate_content validate_submessages Sound SoundContent
        SoundSubmessages

    fields-Sound :
        (prefix : Text) (fields : Fields)
        → validate_references_on_fields messages ctx prefix fields ≡ ok []
        → Sound fields
    fields-Sound prefix no_more h = tt
    fields-Sound prefix (field name target content fields) h =
        let path = field_path_of prefix name in
        let (first, rest) =
          both-nil (validate_content messages ctx path target content)
            (validate_references_on_fields messages ctx prefix fields) h in
        (content-Sound path target content first, fields-Sound prefix fields rest)

    content-Sound :
        (path : Text) (target : Option Text) (content : Content)
        → validate_content messages ctx path target content ≡ ok []
        → SoundContent target content
    content-Sound path (some target) (repeated_uint64 ids) h =
        let (unrepeated, valid) =
          both-nil (ok (check_duplicates path [] ids))
            (validate_each messages ctx path target [] ids) h in
        let (new, distinct) = check_duplicates-Distinct path [] ids (cc) in
        (distinct, validate_each-Live path target [] ids distinct new valid)
    content-Sound path (some target) (scalar_uint64 id) h = validate_one-Live path target id h
    content-Sound path (some target) (repeated_message subs) h = tt
    content-Sound path (some target) (scalar_message fields) h = tt
    content-Sound path (some target) (map_of_messages values) h = tt
    content-Sound path (some target) unset h = tt
    content-Sound path (some target) other h = tt
    content-Sound path none (repeated_message subs) h = submessages-Sound path subs h
    content-Sound path none (scalar_message fields) h = fields-Sound path fields h
    content-Sound path none (repeated_uint64 ids) h = tt
    content-Sound path none (scalar_uint64 id) h = tt
    content-Sound path none (map_of_messages values) h = tt
    content-Sound path none unset h = tt
    content-Sound path none other h = tt

    submessages-Sound :
        (path : Text) (subs : Submessages)
        → validate_submessages messages ctx path subs ≡ ok []
        → SoundSubmessages subs
    submessages-Sound path last h = tt
    submessages-Sound path (next fields subs) h =
        let (first, rest) =
          both-nil (validate_references_on_fields messages ctx path fields)
            (validate_submessages messages ctx path subs) h in
        (fields-Sound path fields first, submessages-Sound path subs rest)

  validate_one-ok :
      (path target : Text) (id : ℕ)
      → Live target id
      → validate_one messages ctx path target id ≡ ok []
  unfolding validate_one validate_single_reference to_list
  validate_one-ok path target id (stored, read, live, same) =
      ground (arith, read, live, (text_eq_iff stored.type_name target).1 same)

  validate_each-ok :
      (path target : Text) (validated : Dict ℕ (Unit {0})) (ids : List ℕ)
      → All (Live target) ids
      → validate_each messages ctx path target validated ids ≡ ok []
  unfolding validate_each both
  validate_each-ok path target validated [] all = refl
  validate_each-ok path target validated (id ∷ ids) (here, all) =
      elim (Bool-cases (contains id validated)) [
        | inl again ↦ rw (again, validate_each) (validate_each-ok path target validated ids all)
        | inr new ↦
            rw
              (
                new,
                validate_one-ok path target id here,
                validate_each-ok path target (insert id tt validated) ids all,
                validate_each,
              )
              refl
      ]

  mutual
    unfolding validate_references_on_fields validate_content validate_submessages Sound SoundContent
        SoundSubmessages both

    fields-ok :
        (prefix : Text) (fields : Fields)
        → Sound fields
        → validate_references_on_fields messages ctx prefix fields ≡ ok []
    fields-ok prefix no_more h = refl
    fields-ok prefix (field name target content fields) (first, rest) =
        rw
          (
            content-ok (field_path_of prefix name) target content first,
            fields-ok prefix fields rest,
          )
          refl

    content-ok :
        (path : Text) (target : Option Text) (content : Content)
        → SoundContent target content
        → validate_content messages ctx path target content ≡ ok []
    content-ok path (some target) (repeated_uint64 ids) (distinct, all) =
        rw
          (
            check_duplicates-nil path [] ids distinct (none_seen ids),
            validate_each-ok path target [] ids all,
          )
          refl
    content-ok path (some target) (scalar_uint64 id) h = validate_one-ok path target id h
    content-ok path (some target) (repeated_message subs) h = refl
    content-ok path (some target) (scalar_message fields) h = refl
    content-ok path (some target) (map_of_messages values) h = refl
    content-ok path (some target) unset h = refl
    content-ok path (some target) other h = refl
    content-ok path none (repeated_message subs) h = submessages-ok path subs h
    content-ok path none (scalar_message fields) h = fields-ok path fields h
    content-ok path none (map_of_messages values) h = refl
    content-ok path none (repeated_uint64 ids) h = refl
    content-ok path none (scalar_uint64 id) h = refl
    content-ok path none unset h = refl
    content-ok path none other h = refl

    submessages-ok :
        (path : Text) (subs : Submessages)
        → SoundSubmessages subs
        → validate_submessages messages ctx path subs ≡ ok []
    submessages-ok path last h = refl
    submessages-ok path (next fields subs) (first, rest) =
        rw (fields-ok path fields first, submessages-ok path subs rest) refl

  pub validate_references-Sound :
      (fields : Fields) → (validate_references messages ctx fields ≡ ok []) ↔ Sound fields
  unfolding validate_references
  validate_references-Sound fields = (fields-Sound [] fields, fields-ok [] fields)

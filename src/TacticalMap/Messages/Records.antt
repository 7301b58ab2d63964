-- ===== src/TacticalMap/Messages/Records.antt =====
-- app/map/messages.go: the records that `decodeRecord` accepts.
use tac_os.Base.{
  ◌≡◌, refl, sym, ap, ◌∙◌, arith, ◌↔◌, true, false, not, ◌&&◌, Bool-cases, inl, inr, Bytes,
  bytes_eq, bytes_eq_iff, List, [], ◌∷◌, Option, none, some,
}
use tac_os.TacticalMap.Messages.{
  Raw, null_value, other_value, undecodable, Ending, closed_at_end, closed_with_more, unclosed,
  Entries, ending, bad_key, other_key, entry, RecordError, unexpected, missing_fields, more_data,
  remains, without_field, is_empty, check_ending, check_value, check_entries,
}

-- The keys of an object, in order.
abbrev pub names : Entries → List Bytes
names (ending e) = []
names bad_key = []
names other_key = []
names (entry name raw entries) = name ∷ names entries

abbrev pub AreDistinctNames : List Bytes → Type 0
AreDistinctNames [] = Unit
AreDistinctNames (n ∷ ns) = (remains n ns ≡ false) × AreDistinctNames ns

-- An object with a value in each field that is not null, and nothing behind it.
pub data IsWhole : Entries → Type 0 where
  at_end : IsWhole (ending closed_at_end)
  with_field :
      {name : Bytes} {entries : Entries}
      → IsWhole entries
      → IsWhole (entry name other_value entries)

-- The same names.
abbrev pub SameNames : List Bytes → List Bytes → Type 0
SameNames ns fields = (name : Bytes) → remains name ns ≡ remains name fields

pub record IsExact (fields : List Bytes) (entries : Entries) : Type 0 where
  pub whole : IsWhole entries
  pub distinct : AreDistinctNames (names entries)
  pub same : SameNames (names entries) fields

remains-without_field :
    (name n : Bytes) (fs : List Bytes)
    → remains name (without_field n fs) ≡ (remains name fs && not (bytes_eq n name))
unfolding remains without_field
remains-without_field name n [] = refl
remains-without_field name n (f ∷ fs) = elim (Bool-cases (bytes_eq f n)) [
  | inl e ↦
      rw (e, remains-without_field name n fs, ap (λ x. bytes_eq x name) ((bytes_eq_iff f n).0 e))
        (ground arith)
  | inr e ↦
      rw (e, remains-without_field name n fs)
        (ground (arith, bytes_eq_iff f name, bytes_eq_iff n name, bytes_eq_iff f n))
]

remains_same :
    (n name : Bytes) (fs : List Bytes) → bytes_eq n name ≡ true → remains n fs ≡ remains name fs
remains_same n name fs e = ap (λ x. remains x fs) ((bytes_eq_iff n name).0 e)

bytes_eq_self : (n : Bytes) → bytes_eq n n ≡ true
bytes_eq_self n = (bytes_eq_iff n n).1 refl

-- one field more, before the rest
SameNames-cons :
    (n : Bytes) (ns fs : List Bytes)
    → remains n fs ≡ true
    → SameNames ns (without_field n fs)
    → (remains n ns ≡ false) × SameNames (n ∷ ns) fs
unfolding remains
SameNames-cons n ns fs h same = (
  same n ∙ remains-without_field n n fs ∙ ground (arith, bytes_eq_self n),
  λ name. elim (Bool-cases (bytes_eq n name)) [
    | inl e ↦ ground (arith, remains_same n name fs e)
    | inr e ↦ rw e (same name ∙ remains-without_field name n fs ∙ ground arith)
  ],
)

SameNames-tail :
    (n : Bytes) (ns fs : List Bytes)
    → remains n ns ≡ false
    → SameNames (n ∷ ns) fs
    → (remains n fs ≡ true) × SameNames ns (without_field n fs)
unfolding remains
SameNames-tail n ns fs new same = (
  sym (same n) ∙ ground (arith, bytes_eq_self n),
  λ name. elim (Bool-cases (bytes_eq n name)) [
    | inl e ↦ ground (arith, remains-without_field name n fs, remains_same n name ns e)
    | inr e ↦ ground (arith, remains-without_field name n fs, same name)
  ],
)

no_names : (fs : List Bytes) → SameNames [] fs → is_empty fs ≡ true
unfolding remains is_empty
no_names [] h = refl
no_names (f ∷ fs) h = absurd (ground (arith, h f, bytes_eq_self f))

empty_names : (fs : List Bytes) → is_empty fs ≡ true → SameNames [] fs
unfolding remains is_empty
empty_names [] h = λ name. refl
empty_names (f ∷ fs) h = cc

some_error : (e : RecordError) → some e ≡ none → ⊥
some_error e k = cc

check_ending-IsExact :
    (fs : List Bytes) (e : Ending) → check_ending fs e ≡ none → IsExact fs (ending e)
unfolding check_ending
check_ending-IsExact fs unclosed h = cc
check_ending-IsExact fs closed_at_end h = elim (Bool-cases (is_empty fs)) [
  | inl e ↦ record { whole = at_end; distinct = tt; same = empty_names fs e }
  | inr e ↦ absurd (some_error missing_fields (rw e at h))
]
check_ending-IsExact fs closed_with_more h = elim (Bool-cases (is_empty fs)) [
  | inl e ↦ absurd (some_error more_data (rw e at h))
  | inr e ↦ absurd (some_error missing_fields (rw e at h))
]

-- a value that is accepted
check_value-other :
    (name : Bytes) (raw : Raw) (rest : Option RecordError)
    → check_value name raw rest ≡ none
    → (raw ≡ other_value) × (rest ≡ none)
unfolding check_value
check_value-other name null_value rest h = cc
check_value-other name undecodable rest h = cc
check_value-other name other_value rest h = (refl, h)

entry-IsExact :
    (fs : List Bytes) (name : Bytes) (raw : Raw) (entries : Entries)
    → remains name fs ≡ true
    → raw ≡ other_value
    → IsExact (without_field name fs) entries
    → IsExact fs (entry name raw entries)
entry-IsExact fs name raw entries h is x =
    let (new, same) = SameNames-cons name (names entries) fs h x.same in
    rw is (record { whole = with_field x.whole; distinct = (new, x.distinct); same = same })

check_entries-IsExact :
    (fs : List Bytes) (entries : Entries) → check_entries fs entries ≡ none → IsExact fs entries
unfolding check_entries
check_entries-IsExact fs (ending e) h = check_ending-IsExact fs e h
check_entries-IsExact fs bad_key h = cc
check_entries-IsExact fs other_key h = cc
check_entries-IsExact fs (entry name raw entries) h = elim (Bool-cases (remains name fs)) [
  | inl e ↦
      let (is, rest) = check_value-other name raw _ (rw e at h) in
      entry-IsExact fs name raw entries e is
        (check_entries-IsExact (without_field name fs) entries rest)
  | inr e ↦ absurd (some_error (unexpected name) (rw e at h))
]

check_entries-none :
    (fs : List Bytes) {entries : Entries}
    → IsWhole entries
    → AreDistinctNames (names entries)
    → SameNames (names entries) fs
    → check_entries fs entries ≡ none
unfolding check_entries check_ending check_value
check_entries-none fs at_end d same = rw (no_names fs same) refl
check_entries-none fs (with_field {name} {entries} w) (new, d) same =
    let (known, rest) = SameNames-tail name (names entries) fs new same in
    rw (known, check_entries-none (without_field name fs) w d rest) refl

-- The fields of an object are accepted exactly when each of the wanted names stands once and no other
-- name does, in any order, each with a value that is not null, and nothing follows the object.
pub check_entries_iff :
    (fields : List Bytes) (entries : Entries)
    → (check_entries fields entries ≡ none) ↔ IsExact fields entries
check_entries_iff fields entries =
    (check_entries-IsExact fields entries, λ x. check_entries-none fields x.whole x.distinct x.same)

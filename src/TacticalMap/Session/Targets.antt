-- ===== src/TacticalMap/Session/Targets.antt =====
-- app/map/session.go: the list of targets.
use tac_os.Base.{
  ◌≡◌, refl, sym, ap, ◌∙◌, arith, if◌then◌else◌, Bool, true, false, ◌||◌, Bool-cases, inl, inr,
  Bytes, bytes_eq, bytes_eq_iff, List, [], ◌∷◌, All, Option, none, some,
}
use tac_os.TacticalMap.Config.{Target}
use tac_os.TacticalMap.Frame.{was_seen}
use tac_os.TacticalMap.Frame.Total.{AreDistinct}
use tac_os.TacticalMap.Session.{upsert}

same_test : (a b id : Bytes) → bytes_eq a b ≡ true → bytes_eq a id ≡ bytes_eq b id
same_test a b id e = ap (λ x. bytes_eq x id) ((bytes_eq_iff a b).0 e)

module _ {F : Type 0} where
  abbrev pub find_target : Bytes → List (Target F) → Option (Target F)
  find_target id [] = none
  find_target id (t ∷ ts) = if bytes_eq t.target_id id then some t else find_target id ts

  abbrev pub has_target : Bytes → List (Target F) → Bool
  has_target id [] = false
  has_target id (t ∷ ts) = bytes_eq id t.target_id || has_target id ts

  -- An id stands once.
  abbrev pub IsUnique : List (Target F) → Type 0
  IsUnique [] = Unit
  IsUnique (t ∷ ts) = (has_target t.target_id ts ≡ false) × IsUnique ts

  -- After an update its target is found under its id; every other id has the target that it had.
  pub find_target-upsert :
      (id : Bytes) (t : Target F) (ts : List (Target F))
      → find_target id (upsert t ts)
        ≡ (if bytes_eq t.target_id id then some t else find_target id ts)
  unfolding upsert
  find_target-upsert id t [] = refl
  find_target-upsert id t (u ∷ us) = elim (Bool-cases (bytes_eq u.target_id t.target_id)) [
    | inl e ↦ rw e (rw (same_test u.target_id t.target_id id e) (ground arith))
    | inr e ↦
        rw (e, find_target-upsert id t us)
          (ground (
            arith,
            bytes_eq_iff u.target_id id,
            bytes_eq_iff t.target_id id,
            bytes_eq_iff u.target_id t.target_id,
          ))
  ]

  has_target-upsert :
      (id : Bytes) (t : Target F) (ts : List (Target F))
      → has_target id (upsert t ts) ≡ (has_target id ts || bytes_eq id t.target_id)
  unfolding upsert
  has_target-upsert id t [] = ground arith
  has_target-upsert id t (u ∷ us) = elim (Bool-cases (bytes_eq u.target_id t.target_id)) [
    | inl e ↦
        rw e
          (rw (ap (λ x. bytes_eq id x) ((bytes_eq_iff u.target_id t.target_id).0 e)) (ground arith))
    | inr e ↦ rw (e, has_target-upsert id t us) (ground arith)
  ]

  pub upsert-IsUnique : (t : Target F) (ts : List (Target F)) → IsUnique ts → IsUnique (upsert t ts)
  unfolding upsert
  upsert-IsUnique t [] h = (refl, tt)
  upsert-IsUnique t (u ∷ us) (new, h) = elim (Bool-cases (bytes_eq u.target_id t.target_id)) [
    | inl e ↦
        rw e (ap (λ x. has_target x us) (sym ((bytes_eq_iff u.target_id t.target_id).0 e)) ∙ new, h)
    | inr e ↦ rw e (has_target-upsert u.target_id t us ∙ ground arith, upsert-IsUnique t us h)
  ]

  pub All-upsert :
      (P : Target F → Type 0) (t : Target F) (ts : List (Target F))
      → P t
      → All P ts
      → All P (upsert t ts)
  unfolding upsert
  All-upsert P t [] p a = (p, tt)
  All-upsert P t (u ∷ us) p (q, a) = elim (Bool-cases (bytes_eq u.target_id t.target_id)) [
    | inl e ↦ rw e (p, a)
    | inr e ↦ rw e (q, All-upsert P t us p a)
  ]

  abbrev IsNew : List Bytes → List (Target F) → Type 0
  IsNew seen ts = All (λ (t : Target F). was_seen t.target_id seen ≡ false) ts

  IsNew-cons :
      (id : Bytes) (seen : List Bytes) (ts : List (Target F))
      → has_target id ts ≡ false
      → IsNew seen ts
      → IsNew (id ∷ seen) ts
  unfolding was_seen
  IsNew-cons id seen [] h n = tt
  IsNew-cons id seen (t ∷ ts) h (m, n) = (ground arith, IsNew-cons id seen ts (ground arith) n)

  IsUnique-AreDistinct :
      (seen : List Bytes) (ts : List (Target F)) → IsUnique ts → IsNew seen ts → AreDistinct seen ts
  IsUnique-AreDistinct seen [] h n = tt
  IsUnique-AreDistinct seen (t ∷ ts) (new, h) (m, n) =
      (m, IsUnique-AreDistinct (t.target_id ∷ seen) ts h (IsNew-cons t.target_id seen ts new n))

  none_seen : (ts : List (Target F)) → IsNew [] ts
  unfolding was_seen
  none_seen [] = tt
  none_seen (t ∷ ts) = (refl, none_seen ts)

  pub unique-AreDistinct : (ts : List (Target F)) → IsUnique ts → AreDistinct [] ts
  unique-AreDistinct ts h = IsUnique-AreDistinct [] ts h (none_seen ts)

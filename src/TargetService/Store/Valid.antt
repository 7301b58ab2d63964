-- ===== src/TargetService/Store/Valid.antt =====
-- target-service/main.go: the observations in the store.
use tac_os.Base.{
  length, ◌==◌, ◌≡◌, refl, pos, negsuc, is_positive, true, false, ◌||◌, Bool-cases, inl, inr, Bytes,
  bytes_eq, bytes_eq_iff, List, [], ◌∷◌, Option, none, some, All,
}
use tac_os.TargetService.Store.{
  Observation, Coding, Parsed, parsed, rejected, Store, save, outside, check, typed, with_fields,
  with_keys, first_missing, field_names, parse_observation, store_parsed, on_payload,
  handle_message, run_lines,
}

module _ {F : Type 0} (coding : Coding F) where
  -- What the checks ask of an observation.
  pub record IsValid (o : Observation F) : Type 0 where
    pub named : (coding.is_blank o.target_id || coding.is_blank o.observer_id) ≡ false
    pub on_earth :
        (outside coding o.latitude (negsuc 89) (pos 90)
          || outside coding o.longitude (negsuc 179) (pos 180))
        ≡ false
    pub likely : outside coding o.confidence (pos 0) (pos 1) ≡ false
    pub dated : is_positive o.timestamp ≡ true

  -- Every observation of the store is valid and stands under its own target.
  abbrev pub IsSound : Store F → Type 0
  IsSound store = All (λ e. (e.0 ≡ e.1.target_id) × IsValid e.1) store

  abbrev IfParsed : Parsed F → Type 0
  IfParsed (parsed o) = IsValid o
  IfParsed (rejected e) = Unit

  check-IsValid : (o : Observation F) → IfParsed (check coding o)
  unfolding check
  check-IsValid o =
      elim (Bool-cases (coding.is_blank o.target_id || coding.is_blank o.observer_id)) [
        | inl e ↦ rw e tt
        | inr named ↦
            rw named
              (elim (Bool-cases (
                outside coding o.latitude (negsuc 89) (pos 90)
                || outside coding o.longitude (negsuc 179) (pos 180))) [
                  | inl e ↦ rw e tt
                  | inr on_earth ↦
                      rw on_earth (elim (Bool-cases (outside coding o.confidence (pos 0) (pos 1))) [
                        | inl e ↦ rw e tt
                        | inr likely ↦ rw likely (elim (Bool-cases (is_positive o.timestamp)) [
                          | inl dated ↦ rw dated (record {
                            named = named;
                            on_earth = on_earth;
                            likely = likely;
                            dated = dated;
                          })
                          | inr e ↦ rw e tt
                        ])
                      ])
                ])
      ]

  typed-IsValid : (o : Option (Observation F)) → IfParsed (typed coding o)
  unfolding typed
  typed-IsValid none = tt
  typed-IsValid (some o) = check-IsValid o

  with_fields-IsValid :
      (payload : Bytes) (m : Option Bytes) → IfParsed (with_fields coding payload m)
  unfolding with_fields
  with_fields-IsValid payload (some name) = tt
  with_fields-IsValid payload none = typed-IsValid (coding.unmarshal payload)

  with_keys-IsValid :
      (payload : Bytes) (k : Option (List Bytes)) → IfParsed (with_keys coding payload k)
  unfolding with_keys
  with_keys-IsValid payload none = tt
  with_keys-IsValid payload (some keys) = elim (Bool-cases (length keys == 6)) [
    | inl e ↦ rw e (with_fields-IsValid payload (first_missing keys field_names))
    | inr e ↦ rw e tt
  ]

  save-IsSound :
      (o : Observation F) (store : Store F) → IsValid o → IsSound store → IsSound (save o store)
  unfolding save
  save-IsSound o [] v s = ((refl, v), tt)
  save-IsSound o ((k, p) ∷ store) v (h, s) = elim (Bool-cases (bytes_eq k o.target_id)) [
    | inl e ↦ rw e (((bytes_eq_iff k o.target_id).0 e, v), s)
    | inr e ↦ rw e (h, save-IsSound o store v s)
  ]

  store_parsed-IsSound :
      (p : Parsed F) (store : Store F)
      → IfParsed p
      → IsSound store
      → IsSound (store_parsed coding p store)
  unfolding store_parsed
  store_parsed-IsSound (parsed o) store v s = save-IsSound o store v s
  store_parsed-IsSound (rejected e) store v s = s

  on_payload-IsSound :
      (m : Option Bytes) (store : Store F) → IsSound store → IsSound (on_payload coding m store)
  unfolding on_payload parse_observation
  on_payload-IsSound none store s = s
  on_payload-IsSound (some payload) store s =
      store_parsed-IsSound _ store (with_keys-IsValid payload (coding.raw_keys payload)) s

  -- Whatever lines come, every observation of the store is valid and stands under its own target, if
  -- that was so before.
  pub run_lines-IsSound :
      (lines : List Bytes) (store : Store F)
      → IsSound store
      → IsSound (run_lines coding lines store)
  unfolding run_lines handle_message
  run_lines-IsSound [] store s = s
  run_lines-IsSound (line ∷ lines) store s =
      run_lines-IsSound lines _ (on_payload-IsSound _ store s)

-- ===== src/TargetService/Store/Latest.antt =====
-- target-service/main.go: what the store holds after any lines.
use tac_os.Base.{
  ◌≡◌, refl, sym, ap, ◌∙◌, if◌then◌else◌, Bool-cases, inl, inr, Bytes, codes, bytes_eq,
  bytes_eq_iff, bytes_eq-other, strip_prefix, List, [], ◌∷◌, Option, none, some,
}
use tac_os.Broker.Lines.{trim_cr}
use tac_os.TargetService.Store.{
  Observation, Coding, Parsed, parsed, rejected, Store, save, find, parse_observation, store_parsed,
  on_payload, handle_message, run_lines,
}

module _ {F : Type 0} where
  find-save :
      (o : Observation F) (id : Bytes) (store : Store F)
      → find id (save o store) ≡ (if bytes_eq o.target_id id then some o else find id store)
  unfolding find save
  find-save o id [] = refl
  find-save o id ((k, p) ∷ store) = elim (Bool-cases (bytes_eq k o.target_id)) [
    | inl e ↦
        let same : bytes_eq o.target_id id ≡ bytes_eq k id =
          ap (λ n. bytes_eq n id) (sym ((bytes_eq_iff k o.target_id).0 e)) in
        rw (e, same) (elim (Bool-cases (bytes_eq k id)) [ inl h ↦ rw h refl | inr h ↦ rw h refl ])
    | inr e ↦ rw e (elim (Bool-cases (bytes_eq k id)) [
      | inl h ↦ rw (h, bytes_eq-other k o.target_id id e h) refl
      | inr h ↦ rw h (find-save o id store)
    ])
  ]

module _ {F : Type 0} (coding : Coding F) where
  -- the observation of a line, if it is one that is accepted
  abbrev pub accepted : Parsed F → Option (Observation F)
  accepted (parsed o) = some o
  accepted (rejected e) = none

  abbrev pub payload_observation : Option Bytes → Option (Observation F)
  payload_observation none = none
  payload_observation (some payload) = accepted (parse_observation coding payload)

  abbrev pub line_observation : Bytes → Option (Observation F)
  line_observation line =
      payload_observation (strip_prefix (codes "MSG observations ") (trim_cr line))

  -- `o` if it is about the target, and `before` otherwise
  abbrev pub replace :
      Bytes → Option (Observation F) → Option (Observation F) → Option (Observation F)
  replace id none before = before
  replace id (some o) before = if bytes_eq o.target_id id then some o else before

  -- The last observation about the target among the lines.
  abbrev pub last_observation : Bytes → List Bytes → Option (Observation F) → Option (Observation F)
  last_observation id [] before = before
  last_observation id (line ∷ lines) before =
      last_observation id lines (replace id (line_observation line) before)

  find-store_parsed :
      (id : Bytes) (p : Parsed F) (store : Store F)
      → find id (store_parsed coding p store) ≡ replace id (accepted p) (find id store)
  unfolding store_parsed
  find-store_parsed id (parsed o) store = find-save o id store
  find-store_parsed id (rejected e) store = refl

  find-on_payload :
      (id : Bytes) (payload : Option Bytes) (store : Store F)
      → find id (on_payload coding payload store)
        ≡ replace id (payload_observation payload) (find id store)
  unfolding on_payload
  find-on_payload id none store = refl
  find-on_payload id (some payload) store = find-store_parsed id _ store

  -- After any lines the store has for each target the last observation about it that was accepted,
  -- and where there was none, what it had before.
  pub find-run_lines :
      (id : Bytes) (lines : List Bytes) (store : Store F)
      → find id (run_lines coding lines store) ≡ last_observation id lines (find id store)
  unfolding run_lines handle_message
  find-run_lines id [] store = refl
  find-run_lines id (line ∷ lines) store =
      find-run_lines id lines (handle_message coding (trim_cr line) store)
      ∙ ap (last_observation id lines) (find-on_payload id _ store)

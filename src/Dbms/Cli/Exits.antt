-- ===== src/Dbms/Cli/Exits.antt =====
-- server/dbms/internal/cli/cli.go: the ends of `Run`.
use tac_os.Base.{
  ℕ, zero, suc, ◌<◌, ◌≡◌, refl, ap, arith, ◌⊎◌, Bool, true, false, inl, inr, Bytes, [], length,
  length-append, subst, sym,
}
use tac_os.Dbms.Action.{Ends, done, refused}
use tac_os.Dbms.Cli.Framing.{read_statement-splits}
use tac_os.Dbms.Cli.Printing.{result_lines}
use tac_os.Dbms.Cli.Reading.{InputEnd, ReadResult, statement, finished, read_failed, read_statement}
use tac_os.Dbms.Cli.Running.{
  Streams, Exit, status, print_lines, error_line, report, on_read, shown, told, run_loop, run_cli,
}
use tac_os.Dbms.Database.{Database, execute}
use tac_os.Dbms.Database.Execute.{IsConsistentDb, execute-Ends}
use tac_os.Dbms.Outcome.{Outcome}
use tac_os.Dbms.Table.Methods.{IsTabular}
use tac_os.Dbms.Value.{Float64, Result}

-- The exit status is 0 or 1.
abbrev pub IsStatus : Exit → Type 0
IsStatus x = (x ≡ status 0) ⊎ (x ≡ status 1)

module _ {F W : Type 0} ⦃float : Float64 F⦄ (format_float : F → Bytes) (streams : Streams W) where
  shown-IsStatus :
      (continue : W → W × Exit) (p : W × Bool)
      → ((w : W) → IsStatus (continue w).1)
      → IsStatus (shown format_float streams continue p).1
  unfolding shown
  shown-IsStatus continue (w, true) k = k w
  shown-IsStatus continue (w, false) k = inr refl

  told-IsStatus :
      (continue : W → W × Exit) (p : W × Bool)
      → ((w : W) → IsStatus (continue w).1)
      → IsStatus (told format_float streams continue p).1
  unfolding told
  told-IsStatus continue (w, true) k = k w
  told-IsStatus continue (w, false) k = inr refl

  report-IsStatus :
      {n : ℕ} {db : Database F} (loop : Database F → ℕ → W → W × Exit) (code : ℕ)
      (r : Database F × Outcome (Result F)) (w : W)
      → ((d : Database F) (k : ℕ) (v : W)
          → IsConsistentDb d
          → (k ≡ 0) ⊎ (k ≡ 1)
          → IsStatus (loop d k v).1)
      → IsConsistentDb db
      → (code ≡ 0) ⊎ (code ≡ 1)
      → Ends n IsConsistentDb IsTabular db r
      → IsStatus (report format_float streams (loop r.0) code r.1 w).1
  unfolding report
  report-IsStatus loop code r w later c h (done {t} {a} d q) =
      shown-IsStatus (loop t code) (print_lines streams.output (result_lines format_float a) w)
        (λ v. later t code v d h)
  report-IsStatus loop code r w later c h (refused {t} {e} same at) =
      told-IsStatus (loop t 1) (streams.diagnostics (error_line e) w)
        (λ v. later t 1 v (subst IsConsistentDb (sym same) c) (inr refl))

  on_read-IsStatus :
      (loop : Database F → Bytes → ℕ → W → W × Exit) (db : Database F) (code : ℕ) (r : ReadResult)
      (w : W)
      → ((source rest : Bytes) (d : Database F) (k : ℕ) (v : W)
          → r ≡ statement source rest
          → IsConsistentDb d
          → (k ≡ 0) ⊎ (k ≡ 1)
          → IsStatus (loop d rest k v).1)
      → IsConsistentDb db
      → (code ≡ 0) ⊎ (code ≡ 1)
      → IsStatus (on_read format_float streams loop db code r w).1
  unfolding on_read
  on_read-IsStatus loop db code finished w later c (inl e) = inl (ap status e)
  on_read-IsStatus loop db code finished w later c (inr e) = inr (ap status e)
  on_read-IsStatus loop db code read_failed w later c h = inr refl
  on_read-IsStatus loop db code (statement source rest) w later c h =
      report-IsStatus (λ d k v. loop d rest k v) code (execute source db) w
        (λ d k v. later source rest d k v refl) c h (execute-Ends source db c)

  run_loop-IsStatus :
      (fuel : ℕ) (e : InputEnd) (db : Database F) (input : Bytes) (code : ℕ) (w : W)
      → length input < fuel
      → IsConsistentDb db
      → (code ≡ 0) ⊎ (code ≡ 1)
      → IsStatus (run_loop format_float streams fuel e db input code w).1
  unfolding run_loop
  run_loop-IsStatus zero e db input code w less c h = absurd (omega arith)
  run_loop-IsStatus (suc fuel) e db input code w less c h =
      on_read-IsStatus (run_loop format_float streams fuel e) db code (read_statement e input) w
        (λ source rest d k v is. run_loop-IsStatus fuel e d rest k v (shorter source rest is)) c h
    where
      shorter :
          (source rest : Bytes)
          → read_statement e input ≡ statement source rest
          → length rest < fuel
      shorter source rest is =
          let (split, more) = read_statement-splits e input source rest is in
          omega (arith, ap length split, length-append source rest)

  -- For any input and any output streams, `Run` comes to an end, without a panic, with the exit
  -- status 0 or 1.
  pub run_cli-IsStatus :
      (e : InputEnd) (input : Bytes) (w : W) → IsStatus (run_cli format_float streams e input w).1
  unfolding run_cli
  run_cli-IsStatus e input w =
      run_loop-IsStatus (suc (length input)) e [] input 0 w (omega arith) tt (inl refl)

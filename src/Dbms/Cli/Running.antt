-- ===== src/Dbms/Cli/Running.antt =====
-- server/dbms/internal/cli/cli.go: `Run`. The two output streams are a parameter.
use tac_os.Base.{
  ℕ, zero, suc, ◌+◌, if◌then◌else◌, Bool, true, false, Bytes, codes, List, [], ◌∷◌, ◌++◌, length,
}
use tac_os.Dbms.Cli.Printing.{format_nat, result_lines}
use tac_os.Dbms.Cli.Reading.{InputEnd, statement, finished, read_failed, ReadResult, read_statement}
use tac_os.Dbms.Database.{Database, execute}
use tac_os.Dbms.Outcome.{QueryError, Outcome, ok, err, panic, no_fuel}
use tac_os.Dbms.Value.{Float64, Result}

-- A line is written; false if the write failed. Behind it stands a world `W`.
pub record Streams (W : Type 0) : Type 0 where
  pub output : Bytes → W → W × Bool
  pub diagnostics : Bytes → W → W × Bool

-- what `Run` returns, or what ends it otherwise
pub data Exit : Type 0 where
  status : ℕ → Exit
  panicked out_of_fuel : Exit

-- `fmt.Fprintln` of each line, up to the first that fails
unfoldable pub print_lines : {W : Type 0} → (Bytes → W → W × Bool) → List Bytes → W → W × Bool
print_lines print [] w = (w, true)
print_lines print (l ∷ lines) w =
    let (w', written) = print (l ++ b'\n' ∷ []) w in
    let later = print_lines print lines w' in if written then later else (w', false)

-- `"ERROR at position %d: %s\n"`
abbrev pub error_line : QueryError → Bytes
error_line e =
    codes "ERROR at position "
    ++ format_nat (e.position + 1)
    ++ codes ": "
    ++ e.message
    ++ b'\n' ∷ []

module _ {F W : Type 0} ⦃float : Float64 F⦄ (format_float : F → Bytes) (streams : Streams W) where
  -- behind `printResult`
  unfoldable pub shown : (W → W × Exit) → W × Bool → W × Exit
  shown continue (w, written) =
      if written
      then continue w
      else ((streams.diagnostics (codes "ERROR: could not write standard output\n") w).0, status 1)

  -- behind the line of an error
  unfoldable pub told : (W → W × Exit) → W × Bool → W × Exit
  told continue (w, written) = if written then continue w else (w, status 1)

  -- one round behind `Execute`; `loop` is the rest of the loop, for a status
  unfoldable pub report : (ℕ → W → W × Exit) → ℕ → Outcome (Result F) → W → W × Exit
  unfolding shown told print_lines result_lines
  report loop code (ok r) w =
      shown (loop code) (print_lines streams.output (result_lines format_float r) w)
  report loop code (err e) w = told (loop 1) (streams.diagnostics (error_line e) w)
  report loop code panic w = (w, panicked)
  report loop code no_fuel w = (w, out_of_fuel)

  unfoldable pub on_read :
      (Database F → Bytes → ℕ → W → W × Exit) → Database F → ℕ → ReadResult → W → W × Exit
  unfolding report
  on_read loop db code finished w = (w, status code)
  on_read loop db code read_failed w =
      ((streams.diagnostics (codes "ERROR: could not read standard input\n") w).0, status 1)
  on_read loop db code (statement source rest) w =
      let (db', r) = execute source db in report (loop db' rest) code r w

  unfoldable pub run_loop : ℕ → InputEnd → Database F → Bytes → ℕ → W → W × Exit
  unfolding on_read read_statement
  run_loop zero e db input code w = (w, out_of_fuel)
  run_loop (suc fuel) e db input code w =
      on_read (run_loop fuel e) db code (read_statement e input) w

  -- each round but the last reads a byte
  unfoldable pub run_cli : InputEnd → Bytes → W → W × Exit
  unfolding run_loop
  run_cli e input w = run_loop (suc (length input)) e [] input 0 w

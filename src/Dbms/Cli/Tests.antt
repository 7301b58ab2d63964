-- ===== src/Dbms/Cli/Tests.antt =====
-- The command line at concrete inputs. The world is what was written to both streams; a write
-- always succeeds.
use tac_os.Base.{◌≡◌, refl, true, codes, Bytes, [], ◌∷◌, ◌++◌}
use tac_os.Dbms.Cli.Exits.{IsStatus, run_cli-IsStatus}
use tac_os.Dbms.Cli.Printing.{digits, format_int, display, escape, join_tabs, result_lines}
use tac_os.Dbms.Cli.Reading.{broken}
use tac_os.Dbms.Cli.Running.{Streams, run_cli}
use tac_os.Dbms.Tests.{text_float}
use tac_os.Dbms.Value.{integer, text, Result}
use tac_os.Base.{pos, negsuc}

abbrev both : Streams Bytes
both = record { output = λ s w. (w ++ s, true); diagnostics = λ s w. (w ++ s, true) }

abbrev one_row : Result Bytes
one_row = record {
  columns = codes "n" ∷ codes "name" ∷ [];
  types = integer ∷ text ∷ [];
  rows =
      (record { type_id = integer; integer = negsuc 41; real = []; text = [] }
        ∷ record { type_id = text; integer = pos 0; real = []; text = codes "o'k\n" }
        ∷ [])
      ∷ [];
}

one_row_lines :
    result_lines (λ x. x) one_row ≡ codes "n\tname" ∷ codes "-42\t'o''k\\n'" ∷ codes "1 row(s)" ∷ []
unfolding result_lines display escape join_tabs format_int digits
one_row_lines = refl

run_cli-IsStatus_example :
    IsStatus (run_cli (λ x. x) both broken (codes "CREATE TABLE t (n INTEGER); SELECT ';") []).1
run_cli-IsStatus_example =
    run_cli-IsStatus (λ x. x) both broken (codes "CREATE TABLE t (n INTEGER); SELECT ';") []

-- ===== src/TargetService/Tests.antt =====
-- The reading of a written text at a concrete input.
use tac_os.Base.{◌≡◌, refl, codes, ◌∷◌, ◌++◌, ◌+◌, length}
use tac_os.Dbms.Lexer.{lex_from}
use tac_os.Dbms.Outcome.{Outcome, ok}
use tac_os.Dbms.Outcome
use tac_os.TargetService.SqlString.{sql_string, text_token_at, lex_from-sql_string}

lex_from-sql_string_example :
    lex_from 4 0 (sql_string (codes "o'k'") ++ codes " ;")
    ≡ Outcome.◌>>=◌
        (lex_from 3 (0 + length (sql_string (codes "o'k'"))) (codes " ;"))
        (λ ts. ok (text_token_at (codes "o'k'") 0 ∷ ts))
lex_from-sql_string_example = lex_from-sql_string 3 0 (codes "o'k'") (codes " ;") refl

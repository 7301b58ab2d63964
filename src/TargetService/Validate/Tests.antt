-- ===== src/TargetService/Validate/Tests.antt =====
-- Responses at concrete inputs. Every text is the text of a float64 here.
use tac_os.Base.{pos, true, false, codes, [], ◌∷◌, none, some}
use tac_os.TargetService.Validate.{json_string, json_number, WireResult}

abbrev one_row : WireResult
one_row = record {
  ok = true;
  columns =
      record { name = codes "n"; type_name = codes "INTEGER" }
      ∷ record { name = codes "s"; type_name = codes "TEXT" }
      ∷ [];
  rows = (json_number (codes "-5") ∷ json_string (codes "x") ∷ []) ∷ [];
  failure = none;
}

abbrev a_report : WireResult
a_report = record {
  ok = false;
  columns = [];
  rows = [];
  failure =
      some (record { code = codes "SQL_ERROR"; message = codes "no"; position = some (pos 3) });
}

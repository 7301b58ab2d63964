-- ===== src/TargetService/Store/Tests.antt =====
-- The store at concrete inputs. A float64 is an integer here, and the payload `a` or `b` stands for an
-- object with the six fields, about the target of that name.
use tac_os.Base.{
  ◌≡◌, ℤ, pos, int_ltb, false, if◌then◌else◌, bytes_eq, Bytes, codes, List, [], ◌∷◌, none, some,
}
use tac_os.TargetService.Store.{Observation, Coding, field_names, find, run_lines}
use tac_os.TargetService.Store.Latest.{last_observation, find-run_lines}
use tac_os.TargetService.Store.Valid.{IsSound, run_lines-IsSound}

abbrev about : Bytes → Observation ℤ
about id = record {
  target_id = id;
  observer_id = codes "o";
  latitude = pos 60;
  longitude = pos 30;
  confidence = pos 1;
  timestamp = pos 1000;
}

abbrev letters : Coding ℤ
letters = record {
  raw_keys = λ payload. if bytes_eq payload (codes "x") then none else some field_names;
  unmarshal = λ payload. some (about payload);
  is_blank = λ s. bytes_eq s [];
  is_nan = λ x. false;
  less = int_ltb;
  of_int = λ x. x;
}

abbrev some_lines : List Bytes
some_lines =
    codes "MSG observations a"
    ∷ codes "MSG observations x"
    ∷ codes "MSG other b"
    ∷ codes "MSG observations b\r"
    ∷ []

find-run_lines_example :
    find (codes "b") (run_lines letters some_lines [])
    ≡ last_observation letters (codes "b") some_lines none
unfolding find
find-run_lines_example = find-run_lines letters (codes "b") some_lines []

run_lines-IsSound_example : IsSound letters (run_lines letters some_lines [])
run_lines-IsSound_example = run_lines-IsSound letters some_lines [] tt

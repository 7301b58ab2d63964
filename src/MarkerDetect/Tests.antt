-- ===== src/MarkerDetect/Tests.antt =====
-- Detections at concrete inputs. Here a float64 is a natural number.
use tac_os.Base.{ℕ, ltb, ◌==◌, ◌≡◌, refl, ℤ, pos, false, List, [], ◌∷◌, none}
use tac_os.Base.{int_ltb}
use tac_os.MarkerDetect.Detection.{Floats, Detection, validate}
use tac_os.MarkerDetect.Normalize.{insert, sort, keep_nearest, nearest, normalize}
use tac_os.MarkerDetect.Normalize.Accepted.{has_id, validate-normalize}

instance abbrev pub whole : Floats ℕ
whole = record {
  is_nan = λ x. false;
  is_inf = λ x. false;
  less = ltb;
  zero_value = 0;
  equal = ◌==◌;
}

abbrev pub seen_at : ℕ → ℕ → Detection ℕ
seen_at id distance = record { id = pos id; angle = 10; distance = distance }

abbrev pub three : List (Detection ℕ)
three = seen_at 23 5 ∷ seen_at 17 9 ∷ seen_at 23 2 ∷ []

three_normalized : normalize three ≡ seen_at 17 9 ∷ seen_at 23 2 ∷ []
unfolding normalize sort insert nearest keep_nearest int_ltb
three_normalized = refl

validate-normalize_example :
    (validate (normalize three) ≡ none) × ((id : ℤ) → has_id id (normalize three) ≡ has_id id three)
unfolding int_ltb
validate-normalize_example = validate-normalize three (
  record { marker = refl; angle_finite = refl; distance_good = refl },
  (
    record { marker = refl; angle_finite = refl; distance_good = refl },
    (record { marker = refl; angle_finite = refl; distance_good = refl }, tt),
  ),
)

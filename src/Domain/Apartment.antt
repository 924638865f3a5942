-- ===== src/Domain/Apartment.antt =====
-- internal/domain/apartment.go. Conditions and floors are strings; a Go map is an association list.
use review_service.Prelude.{ℕ, pos, negsuc, String, Option, none, List, [], ◌∷◌}
use review_service.Domain.Appraisal.{Time}
use review_service.Domain.Floats.{Floats, number}

abbrev pub condition_excellent : String
condition_excellent = "excellent"

abbrev pub condition_good : String
condition_good = "good"

abbrev pub condition_satisfactory : String
condition_satisfactory = "satisfactory"

abbrev pub condition_unsatisfactory : String
condition_unsatisfactory = "unsatisfactory"

abbrev pub floor_first : String
floor_first = "first"

abbrev pub floor_middle : String
floor_middle = "middle"

abbrev pub floor_last : String
floor_last = "last"

pub record DistrictPrice (F : Type 0) : Type 0 where
  pub name : String
  pub price : F

pub record RepairClass (F : Type 0) : Type 0 where
  pub id : String
  pub name : String
  pub unit_cost : F

pub record ScaleFormula (F : Type 0) : Type 0 where
  pub a : F
  pub b : F

pub record FormulaConfig (F : Type 0) : Type 0 where
  pub id : String
  pub scale_formula : ScaleFormula F
  pub district_prices : List (DistrictPrice F)
  pub condition_coefficients : List (String × F)
  pub repair_classes : List (RepairClass F)
  pub floor_matrix : List (String × List (String × F))
  pub location_formula_type : String
  pub repair_formula_type : String
  pub updated_at : Time
  pub updated_by : Option String

module _ {F : Type 0} (ops : Floats F) where
  abbrev district : String → ℕ → DistrictPrice F
  district name price = record { name = name; price = number ops price }

  abbrev repair_class : String → String → ℕ → RepairClass F
  repair_class id name cost = record { id = id; name = name; unit_cost = number ops cost }

  -- A coefficient in hundredths.
  abbrev hundredths : ℕ → F
  hundredths n = ops.literal (pos n) 2

  abbrev floors : ℕ → ℕ → ℕ → List (String × F)
  floors first middle last =
      (floor_first, hundredths first)
      ∷ (floor_middle, hundredths middle)
      ∷ (floor_last, hundredths last)
      ∷ []

  -- `time.Now()` is an argument.
  unfoldable pub default_config : Time → FormulaConfig F
  default_config at = record {
    id = "apartment";
    scale_formula = record { a = hundredths 117; b = ops.literal (negsuc 4) 2 };
    district_prices =
        district "Центральный" 120000
        ∷ district "Северный" 100000
        ∷ district "Южный" 95000
        ∷ district "Западный" 110000
        ∷ district "Восточный" 90000
        ∷ district "Пригород" 75000
        ∷ [];
    condition_coefficients =
        (condition_excellent, hundredths 100)
        ∷ (condition_good, hundredths 67)
        ∷ (condition_satisfactory, hundredths 33)
        ∷ (condition_unsatisfactory, hundredths 0)
        ∷ [];
    repair_classes =
        repair_class "class_1" "Класс 1" 20
        ∷ repair_class "class_2" "Класс 2" 15
        ∷ repair_class "class_3" "Класс 3" 10
        ∷ repair_class "class_4" "Класс 4" 5
        ∷ repair_class "class_5" "Класс 5" 1
        ∷ [];
    floor_matrix =
        (floor_first, floors 100 97 98)
        ∷ (floor_middle, floors 103 100 101)
        ∷ (floor_last, floors 102 99 100)
        ∷ [];
    location_formula_type = "doc_formula";
    repair_formula_type = "multiplicative_direct";
    updated_at = at;
    updated_by = none;
  }

-- The object that is appraised.
pub record Subject (F : Type 0) : Type 0 where
  pub area : F
  pub district : String
  pub condition : String
  pub repair_class_id : String
  pub floor : String

pub record Analog (F : Type 0) : Type 0 where
  pub price_per_sqm : F
  pub bargaining_percent : F
  pub area : F
  pub district : String
  pub condition : String
  pub repair_class_id : String
  pub floor : String

pub record CalculationInput (F : Type 0) : Type 0 where
  pub subject : Subject F
  pub analogs : List (Analog F)

pub record AnalogResult (F : Type 0) : Type 0 where
  pub index : ℕ
  pub initial_price : F
  pub bargaining_percent : F
  pub area : F
  pub district : String
  pub condition : String
  pub repair_class_id : String
  pub floor : String
  pub price_after_bargaining : F
  pub location_coeff : F
  pub price_after_location : F
  pub area_coeff : F
  pub price_after_area : F
  pub repair_cost_delta : F
  pub repair_coeff : F
  pub price_after_repair : F
  pub floor_coeff : F
  pub price_after_floor : F
  pub bargaining_abs_adj : F
  pub location_abs_adj : F
  pub area_abs_adj : F
  pub repair_abs_adj : F
  pub floor_abs_adj : F
  pub total_abs_adjustment : F
  pub weight : F

-- The comparable that `ApplyApartmentCalculation` makes of an analog, a `map[string]any` there.
pub record AnalogDocument (F : Type 0) : Type 0 where
  pub analog_no : ℕ
  pub price_per_sqm : F
  pub bargaining_percent : F
  pub area : F
  pub district : String
  pub condition : String
  pub repair_class_id : String
  pub floor : String
  pub adjusted_price : F
  pub weight : F

pub record CalculationResult (F : Type 0) : Type 0 where
  pub subject : Subject F
  pub analogs : List (AnalogResult F)
  pub sum_m : F
  pub weighted_price_per_sqm : F
  pub total_market_value : F
  pub calculated_at : Time

-- ===== src/Calculation.antt =====
-- internal/service/apartment_calc.go: `calculateApartmentWithConfig`, step by step, and the validation
-- of its input. The source makes a slice of four results: its caller accepts four analogs only.
use review_service.Prelude.{
  ℕ, suc, pos, String, Bool, false, not, ◌||◌, Option, none, some, List, [], ◌∷◌, ◌==◌,
  if◌then◌else◌, str_eq, length, all,
}
use review_service.Domain.Appraisal.{Time}
use review_service.Domain.Floats.{Floats, number}
use review_service.Domain.Apartment.{
  FormulaConfig, Subject, Analog, CalculationInput, AnalogResult, CalculationResult,
}

-- A Go map that is read.
abbrev pub lookup : {A : Type 0} → String → List (String × A) → Option A
lookup key [] = none
lookup key ((k, a) ∷ entries) = if str_eq k key then some a else lookup key entries

-- A map that is filled by assignments in the order of a list, and read at one key: the last one counts.
abbrev pub last_of : {A B : Type 0} → (A → Bool) → (A → B) → B → List A → B
last_of hit value found [] = found
last_of hit value found (x ∷ xs) = last_of hit value (if hit x then value x else found) xs

module _ {F : Type 0} (ops : Floats F) where
  open ops use {literal, add, sub, mul, div, pow, abs, round, le, lt}

  abbrev pub zero_float : F
  zero_float = number ops 0

  abbrev pub one_float : F
  one_float = number ops 1

  unfoldable pub round_to : F → ℕ → F
  round_to val places =
      let shift = pow (number ops 10) (number ops places) in div (round (mul val shift)) shift

  -- `districtMap[name]`, or the fallback where that is not positive.
  unfoldable pub district_price : FormulaConfig F → String → F
  district_price cfg name =
      let price = last_of (λ d. str_eq d.name name) (λ d. d.price) zero_float cfg.district_prices in
      if le price zero_float then number ops 100000 else price

  -- `repairMap[key]`, where the key is an id or a name.
  unfoldable pub repair_cost : FormulaConfig F → String → F
  repair_cost cfg key =
      last_of (λ c. str_eq c.id key || str_eq c.name key) (λ c. c.unit_cost) zero_float
        cfg.repair_classes

  unfoldable pub condition_coefficient : FormulaConfig F → String → F
  condition_coefficient cfg condition = elim (lookup condition cfg.condition_coefficients) [
    | none ↦ literal (pos 67) 2
    | some k ↦ k
  ]

  -- Step 2, from the district prices of subject and analog.
  unfoldable pub location_coefficient : FormulaConfig F → F → F → Bool → F
  location_coefficient cfg subject_price analog_price same_district =
      if str_eq cfg.location_formula_type "doc_formula"
      then if lt zero_float analog_price
        then add one_float (div (sub subject_price analog_price) analog_price)
        else one_float
      else if str_eq cfg.location_formula_type "ratio"
      then div subject_price analog_price
      else if same_district
      then one_float
      else div subject_price analog_price

  -- y = a * (s ^ b).
  unfoldable pub scale : FormulaConfig F → F → F
  scale cfg area = mul cfg.scale_formula.a (pow area cfg.scale_formula.b)

  -- Step 3.
  unfoldable pub area_coefficient : F → F → F
  area_coefficient subject_y analog_y =
      if lt zero_float analog_y then div subject_y analog_y else one_float

  -- Step 4: the difference of the repair costs per square metre, the coefficient, and the price.
  unfoldable pub repair_delta : FormulaConfig F → Subject F → Analog F → F
  repair_delta cfg subject analog =
      div
        (sub
          (mul (repair_cost cfg subject.repair_class_id)
            (condition_coefficient cfg subject.condition))
          (mul (repair_cost cfg analog.repair_class_id)
            (condition_coefficient cfg analog.condition)))
        subject.area

  unfoldable pub repair_coefficient : F → F → F
  repair_coefficient delta price =
      if lt zero_float price then add one_float (div delta price) else one_float

  unfoldable pub repaired_price : FormulaConfig F → F → F → F
  unfolding repair_coefficient
  repaired_price cfg delta price =
      if str_eq cfg.repair_formula_type "multiplicative_direct"
      then mul price (repair_coefficient delta price)
      else add price delta

  -- Step 5.
  unfoldable pub floor_coefficient : FormulaConfig F → String → String → F
  floor_coefficient cfg subject_floor analog_floor = elim (lookup subject_floor cfg.floor_matrix) [
    | none ↦ one_float
    | some row ↦ elim (lookup analog_floor row) [ none ↦ one_float | some k ↦ k ]
  ]

  -- `math.Abs(k-1.0) * 100.0`.
  unfoldable pub abs_adjustment : F → F
  abs_adjustment k = mul (abs (sub k one_float)) (number ops 100)

  -- The body of the first loop; the weight is set by the second.
  unfoldable pub analog_result : FormulaConfig F → Subject F → ℕ → Analog F → AnalogResult F
  analog_result cfg subject index analog =
      let x1 =
        mul analog.price_per_sqm (sub one_float (div analog.bargaining_percent (number ops 100))) in
      let m0 = abs analog.bargaining_percent in
      let k1 =
        location_coefficient cfg (district_price cfg subject.district)
          (district_price cfg analog.district) (str_eq analog.district subject.district) in
      let x2 = mul x1 k1 in
      let k2 = area_coefficient (scale cfg subject.area) (scale cfg analog.area) in
      let x3 = mul x2 k2 in
      let delta = repair_delta cfg subject analog in
      let k3 = repair_coefficient delta x3 in
      let x4 = repaired_price cfg delta x3 in
      let k4 = floor_coefficient cfg subject.floor analog.floor in
      let x5 = mul x4 k4 in
      let total =
        add (add (add (add m0 (abs_adjustment k1)) (abs_adjustment k2)) (abs_adjustment k3))
          (abs_adjustment k4) in
      record {
        index = index;
        initial_price = analog.price_per_sqm;
        bargaining_percent = analog.bargaining_percent;
        area = analog.area;
        district = analog.district;
        condition = analog.condition;
        repair_class_id = analog.repair_class_id;
        floor = analog.floor;
        price_after_bargaining = x1;
        location_coeff = round_to k1 4;
        price_after_location = x2;
        area_coeff = round_to k2 4;
        price_after_area = x3;
        repair_cost_delta = round_to delta 2;
        repair_coeff = round_to k3 4;
        price_after_repair = x4;
        floor_coeff = round_to k4 4;
        price_after_floor = x5;
        bargaining_abs_adj = m0;
        location_abs_adj = abs_adjustment k1;
        area_abs_adj = abs_adjustment k2;
        repair_abs_adj = abs_adjustment k3;
        floor_abs_adj = abs_adjustment k4;
        total_abs_adjustment = round_to total 2;
        weight = zero_float;
      }

  -- The first loop from an index on.
  unfoldable pub analog_results :
      FormulaConfig F → Subject F → ℕ → List (Analog F) → List (AnalogResult F)
  analog_results cfg subject index [] = []
  analog_results cfg subject index (a ∷ later) =
      analog_result cfg subject index a ∷ analog_results cfg subject (suc index) later

  -- `sumM += res.TotalAbsAdjustment`.
  unfoldable pub sum_adjustments : F → List (AnalogResult F) → F
  sum_adjustments sum [] = sum
  sum_adjustments sum (r ∷ rs) = sum_adjustments (add sum r.total_abs_adjustment) rs

  -- Step 6: the weight before it is rounded.
  unfoldable pub raw_weight : F → AnalogResult F → F
  raw_weight sum r =
      if lt zero_float sum
      then div (sub one_float (div r.total_abs_adjustment sum)) (number ops 3)
      else literal (pos 25) 2

  unfoldable pub weigh : F → List (AnalogResult F) → List (AnalogResult F)
  weigh sum [] = []
  weigh sum (r ∷ rs) = record r { weight = round_to (raw_weight sum r) 4 } ∷ weigh sum rs

  unfoldable pub weighted_price : F → F → List (AnalogResult F) → F
  weighted_price sum price [] = price
  weighted_price sum price (r ∷ rs) =
      weighted_price sum (add price (mul r.price_after_floor (raw_weight sum r))) rs

  unfoldable pub calculate_with_config :
      CalculationInput F → FormulaConfig F → Time → CalculationResult F
  calculate_with_config input cfg at =
      let results = analog_results cfg input.subject 1 input.analogs in
      let sum = sum_adjustments zero_float results in
      let price = round_to (weighted_price sum zero_float results) 2 in
      record {
        subject = input.subject;
        analogs = weigh sum results;
        sum_m = round_to sum 2;
        weighted_price_per_sqm = price;
        total_market_value = round_to (mul price input.subject.area) 2;
        calculated_at = at;
      }

  -- The tests of `CalculateApartment`.
  unfoldable pub is_acceptable : CalculationInput F → Bool
  is_acceptable input =
      if le input.subject.area zero_float || not (length input.analogs == 4)
      then false
      else all (λ a. not (le a.price_per_sqm zero_float || le a.area zero_float)) input.analogs

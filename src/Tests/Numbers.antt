-- ===== src/Tests/Numbers.antt =====
-- Fixed-point numbers in hundredths, in place of doubles: what is below zero is zero. And documents for
-- them.
use review_service.Prelude.{
  ℕ, zero, suc, ◌+◌, ◌-◌, ◌*◌, ◌/◌, ◌^◌, some, [], ◌∷◌, ℤ, pos, negsuc, ltb, leb,
}
use review_service.Domain.Floats.{Floats}
use review_service.Domain.Apartment.{default_config, Subject, Analog, CalculationInput}
use review_service.Repository.Formulas.{Documents}

abbrev pub power : ℕ → ℕ → ℕ
power x zero = 100
power x (suc n) = power x n * x / 100

abbrev pub literal : ℤ → ℕ → ℕ
literal (pos n) k = n * 100 / 10 ^ k
literal (negsuc n) k = 0

abbrev pub fixed : Floats ℕ
fixed = record {
  literal = literal;
  add = λ x y. x + y;
  sub = λ x y. x - y;
  mul = λ x y. x * y / 100;
  div = λ x y. x * 100 / y;
  pow = λ x y. power x (y / 100);
  abs = λ x. x;
  round = λ x. (x + 50) / 100 * 100;
  le = leb;
  lt = ltb;
}

-- Every document is the default configuration.
abbrev pub documents : Documents ℕ
documents = record {
  config_of = λ text. some (default_config fixed 0);
  of_config = λ cfg. some "{}";
  of_result = λ result. some "{}";
  of_analog = λ result. "{}";
  money = λ x. "10.00";
}

abbrev pub flat : Subject ℕ
flat = record {
  area = 6000;
  district = "Центральный";
  condition = "good";
  repair_class_id = "class_2";
  floor = "middle";
}

-- An analog of the flat, for a price.
abbrev pub alike : ℕ → Analog ℕ
alike price = record {
  price_per_sqm = price;
  bargaining_percent = 0;
  area = 6000;
  district = "Центральный";
  condition = "good";
  repair_class_id = "class_2";
  floor = "middle";
}

abbrev pub calculation : CalculationInput ℕ
calculation = record {
  subject = flat;
  analogs = alike 100000 ∷ alike 120000 ∷ alike 110000 ∷ alike 130000 ∷ [];
}

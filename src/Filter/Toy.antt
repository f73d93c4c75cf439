-- ===== src/Filter/Toy.antt =====
-- A value of the filters' interface: the numbers and times are ℕ, and the texts have one character.
use mathlib.Core.Option
use hyperspot.Common.{ℕ, Bool, true, false, some, [], ◌∷◌, Str}
use hyperspot.Sql.Toy.{toy, cell, test, and3-true}
use hyperspot.Odata.Ast.{Literals}
use hyperspot.Filter.Like
use hyperspot.Filter.Coerce.{FilterSql}

abbrev pub literals : Literals
literals = record { Number = ℕ; DateTime = ℕ; Date = ℕ; Time = ℕ }

abbrev first_character : Str → ℕ
first_character [] = 0
first_character (c ∷ s) = c

abbrev bit : Bool → ℕ
bit true = 1
bit false = 0

abbrev pub sql : FilterSql toy literals
sql = record {
  of_string = first_character;
  of_bool = bit;
  of_date_time = λ n. n;
  of_date = λ n. n;
  of_time = λ n. n;
  to_i64 = λ n. some n;
  to_f64 = λ n. some n;
  to_decimal = λ n. some n;
  like = λ c p. test (λ r. Option.map (λ x. Like.like p (x ∷ [])) (cell r c));
  impossible = test (λ r. some false);
  text_of = λ x. x ∷ [];
  eval-like = λ r c p. and3-true _;
  eval-impossible = λ r. and3-true _;
}

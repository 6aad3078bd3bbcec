-- ===== src/Js/Samples.antt =====
-- Natural numbers and short texts, as the tests of the checks use them.
use doxajs.Base.{ℕ, String, true, ◌-◌, leb, nat_eq}
use doxajs.Js.Values.{Value, string}
use doxajs.Js.Language.{Numbers, Texts}

abbrev pub naturals : Numbers ℕ
naturals = record {
  is_finite = λ n. true;
  is_safe_integer = λ n. true;
  is_zero = λ n. nat_eq n 0;
  at_most = leb;
  natural = λ n. n;
  minus = λ a b. a - b;
}

abbrev pub text_of : Value ℕ ⊥ → String
text_of (string s) = s
text_of v = "other"

abbrev pub texts : Texts ℕ
texts = record { to_string = text_of; units = λ s. 5; json_length = λ v. 2 }

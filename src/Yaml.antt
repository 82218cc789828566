-- ===== src/Yaml.antt =====
-- What the code asks of a document that the YAML library has read: the values of its keys, as the type that is
-- asked for, also at a path of keys through maps inside it, and the entries of a key that holds a map, in their order. `none` is a value that is absent or cannot be
-- read so, for which the library throws an exception derived from `std::runtime_error`.
use calm_trading_system.Base.{ℕ, ℤ, String, List, Option, Result, or_fail, runtime_error}

pub record Document (D : Type 0) : Type 0 where
  pub texts : String → Option String
  pub numbers : String → Option D
  pub counts : String → Option ℕ
  pub text_at : List String → Option String
  pub whole_at : List String → Option ℤ
  pub text_entries : String → List (Option String × Option String)
  pub number_entries : String → List (Option String × Option D)

-- `as<T>()`
abbrev pub as_value {ℓ} : {A : Type ℓ} → Option A → Result A
as_value v = or_fail runtime_error v

-- ===== src/Error.antt =====
-- source/forstio/error.h and source/forstio/error.cpp: `Error`, its constructors and queries, and
-- `ErrorOr`.
pub mod Laws
use forstio.Prelude.{ℕ, zero, suc, Bool, true, false, String, Option, none, some, ◌≡◌, ◌==◌}

-- The value of an `int16_t` code: `negsuc n` is -(n + 1).
pub data ℤ : Type 0 where
  pos : ℕ → ℤ
  negsuc : ℕ → ℤ

-- `Error::Code`, as the integers that the enumerators stand for. `Error()` has the code 0.
abbrev pub generic_critical : ℤ
generic_critical = negsuc 0

abbrev pub generic_recoverable : ℤ
generic_recoverable = pos 1

abbrev pub disconnected : ℤ
disconnected = negsuc 98

abbrev pub exhausted : ℤ
exhausted = negsuc 97

-- `std::variant<std::string_view, std::string>`: a text that lives elsewhere, or an owned one.
pub data ErrorMessage : Type 0 where
  view : String → ErrorMessage
  owned : String → ErrorMessage

pub record Error : Type 0 where
  pub error_message : ErrorMessage
  pub code : ℤ

-- `Error::message`
pub message : Error → String
message e = elim (e.error_message) [ view s ↦ s | owned s ↦ s ]

abbrev pub is_zero : ℤ → Bool
is_zero (pos zero) = true
is_zero (pos (suc n)) = false
is_zero (negsuc n) = false

abbrev pub is_negative : ℤ → Bool
is_negative (pos n) = false
is_negative (negsuc n) = true

abbrev pub is_positive : ℤ → Bool
is_positive (pos zero) = false
is_positive (pos (suc n)) = true
is_positive (negsuc n) = false

-- `Error::failed`
abbrev pub failed : Error → Bool
failed e = elim (is_zero e.code) [ true ↦ false | false ↦ true ]

-- `Error::isCritical`
abbrev pub is_critical : Error → Bool
is_critical e = is_negative e.code

-- `Error::isRecoverable`
abbrev pub is_recoverable : Error → Bool
is_recoverable e = is_positive e.code

-- `Error::Error()` and `noError`
abbrev pub no_error : Error
no_error = record { error_message = view ""; code = pos 0 }

-- `makeError(generic, code)`
abbrev pub make_error : String → ℤ → Error
make_error generic c = record { error_message = view generic; code = c }

-- `makeError(formatter, code, generic)`: `none` is a formatter that runs out of memory.
unfoldable pub make_error_formatted : Option String → ℤ → String → Error
make_error_formatted none c generic = record { error_message = view generic; code = c }
make_error_formatted (some text) c generic = record { error_message = owned text; code = c }

-- `criticalError` and `recoverableError` with their default codes.
abbrev pub critical_error : String → Error
critical_error generic = make_error generic generic_critical

abbrev pub recoverable_error : String → Error
recoverable_error generic = make_error generic generic_recoverable

-- `Error::copyError`: the flag says whether the copy of the message finds memory. A
-- `string_view` is copied without an allocation.
pub copy_error : Bool → Error → Error
copy_error memory e = elim (e.error_message) [
  | view s ↦ record { error_message = view s; code = e.code }
  | owned s ↦ elim memory [
    | true ↦ record { error_message = owned s; code = e.code }
    | false ↦ record {
      error_message = view "Error while copying Error string. Out of memory";
      code = e.code;
    }
  ]
]

-- `ErrorOr<T>`; the default constructor holds an `Error` without failure.
pub data ErrorOr {ℓ} (A : Type ℓ) : Type ℓ where
  error : Error → ErrorOr A
  value : A → ErrorOr A

abbrev pub is_value {ℓ} : {A : Type ℓ} → ErrorOr A → Bool
is_value (error e) = false
is_value (value a) = true

abbrev pub is_error {ℓ} : {A : Type ℓ} → ErrorOr A → Bool
is_error (error e) = true
is_error (value a) = false

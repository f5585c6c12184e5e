-- ===== src/Polls/Validation.antt =====
-- mitra_validators/src/polls.rs
use Prim.Native.Char.{code}
use mitra.Prelude.{
  ℕ, ◌+◌, String, Bool, true, false, not, Option, none, some, List, [], ◌∷◌, ◌++◌, any, length, ltb,
  str_eq, if◌then◌else◌,
}
use mitra.Prelude.Int.{ℤ, negsuc}
use mitra.Polls.Types.{PollResult, PollData}

abbrev poll_option_count_min : ℕ
poll_option_count_min = 2

abbrev poll_option_count_max : ℕ
poll_option_count_max = 20

abbrev poll_option_name_length_max : ℕ
poll_option_name_length_max = 1000

-- `String::len` is the number of bytes in UTF-8.
abbrev pub utf8_size : ℕ → ℕ
utf8_size c = if ltb c 128 then 1 else if ltb c 2048 then 2 else if ltb c 65536 then 3 else 4

abbrev pub byte_length : String → ℕ
byte_length Prim.Native.String.[] = 0
byte_length (Prim.Native.String.◌∷◌ c s) = utf8_size (code c) + byte_length s

-- `unique_options.contains`.
abbrev pub contains : List String → String → Bool
contains unique_options name = any (λ m. str_eq name m) unique_options

-- `voters_count < 0`.
abbrev pub is_negative : Option ℤ → Bool
is_negative (some (negsuc n)) = true
is_negative _ = false

-- `clean_html_all` is a parameter. The results are messages of errors, and `none` is `Ok(())`.
module _ (clean : String → String) where
  unfoldable pub validate_poll_option_name : String → Option String
  validate_poll_option_name option_name =
      if ltb poll_option_name_length_max (byte_length option_name)
      then some "poll option name is too long"
      else if not (str_eq option_name (clean option_name))
      then some "option name has not been sanitized"
      else none

  -- The loop over the options.
  unfoldable pub validate_options : List String → List PollResult → Option String
  unfolding validate_poll_option_name
  validate_options unique_options [] = none
  validate_options unique_options (r ∷ rs) =
      let rest = validate_options (unique_options ++ r.option_name ∷ []) rs in
      elim (validate_poll_option_name r.option_name) [
        | some e ↦ some e
        | none ↦
            if not (contains unique_options r.option_name)
            then rest
            else some "poll options must be unique"
      ]

  unfoldable pub validate_poll_data : PollData → Option String
  unfolding validate_options
  validate_poll_data d =
      if ltb (length d.results) poll_option_count_min
      then some "too few poll options"
      else if ltb poll_option_count_max (length d.results)
      then some "too many poll options"
      else elim (validate_options [] d.results) [
        | some e ↦ some e
        | none ↦
            if is_negative d.voters_count then some "number of voters must be positive" else none
      ]

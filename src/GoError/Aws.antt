-- ===== src/GoError/Aws.antt =====
-- internal/aws/error.go: telling AWS errors apart by their code.
use cdn_origin_controller.Prelude.{
  String, Bool, false, Option, none, some, ◌==◌, string_eq, if◌then◌else◌,
}
use cdn_origin_controller.GoError.{GoError, new, aws, not_found, annotate, wrap}

-- `errors.As(err, &aerr)` follows `%w` and stops at `%v`.
unfoldable pub is_error_code : GoError → String → Bool
is_error_code (aws code message) code' = code == code'
is_error_code (wrap text e) code' = is_error_code e code'
is_error_code (annotate text e) code' = false
is_error_code (new text) code' = false
is_error_code (not_found text) code' = false

-- `none` is Go's nil error.
unfoldable pub ignore_error_code : Option GoError → String → Option GoError
unfolding is_error_code
ignore_error_code none code = none
ignore_error_code (some e) code = if is_error_code e code then none else some e

-- `wraps` tells whether the format given ends in `%w` or in `%v`.
unfoldable pub ignore_error_codef :
    (text : String) (wraps : Bool) → GoError → String → Option GoError
unfolding is_error_code
ignore_error_codef text wraps e code =
    if is_error_code e code then none else some (if wraps then wrap text e else annotate text e)

-- ===== src/Strconv/Tests.antt =====
-- Numbers and Booleans in text.
use argocd_monorepo_controll.Base.{◌≡◌, refl, codes, none, some, arith}
use argocd_monorepo_controll.Strconv.{pos, negsuc, min_int64, parse_int, format_int, parse_bool}
use argocd_monorepo_controll.Strconv.RoundTrip.{parse_int-format_int}

format_test : format_int (negsuc 1233) ≡ codes "-1234"
unfolding format_int
format_test = refl

max_test : parse_int (codes "9223372036854775807") ≡ some (pos 9223372036854775807)
unfolding parse_int
max_test = refl

overflow_test : parse_int (codes "9223372036854775808") ≡ none
unfolding parse_int
overflow_test = refl

wrapped_test : parse_int (codes "18446744073709551617") ≡ none
unfolding parse_int
wrapped_test = refl

sign_test : parse_int (codes "-") ≡ none
unfolding parse_int
sign_test = refl

bool_test : parse_bool (codes "tRUE") ≡ none
unfolding parse_bool
bool_test = refl

parse_int-format_int_example : parse_int (format_int min_int64) ≡ some min_int64
parse_int-format_int_example = parse_int-format_int min_int64 (omega arith) (omega arith)

-- ===== src/Env/Tests.antt =====
-- Variables that hold a number and a list of pairs.
use argocd_monorepo_controll.Base.{
  ◌≡◌, refl, Text, codes, text_eq, [], ◌∷◌, Option, none, some, arith, if◌then◌else◌,
}
use argocd_monorepo_controll.Strconv.{pos, negsuc, parse_int}
use argocd_monorepo_controll.Env.{
  fits_int, getenv, parse_num_from_env, parse_int64_from_env, parse_duration_from_env,
  parse_string_to_string_from_env,
}
use argocd_monorepo_controll.Env.Bounds.{Reads, parse_from_env-Reads}

abbrev number : Text
number = codes "ARGOCD_MAX_CONCURRENT"

abbrev pairs : Text
pairs = codes "ARGOCD_LABELS"

lookup_env : Text → Option Text
unfolding text_eq
lookup_env env =
    if text_eq env number
    then some (codes "12")
    else if text_eq env pairs
    then some (codes "a=1, b = 2")
    else none

pairs_test :
    parse_string_to_string_from_env lookup_env pairs [] b','
    ≡ (codes "a", codes "1") ∷ (codes "b", codes "2") ∷ []
unfolding parse_string_to_string_from_env lookup_env
pairs_test = refl

-- A maximum of zero is a bound like any other.
zero_test : parse_num_from_env lookup_env number (pos 5) (negsuc 0) (pos 0) ≡ pos 5
unfolding parse_num_from_env lookup_env
zero_test = refl

parse_from_env-Reads_example :
    let text = getenv lookup_env number in
    Reads
      (pos 5)
      (pos 0)
      (pos 20)
      text
      (fits_int (parse_int text))
      (parse_num_from_env lookup_env number (pos 5) (pos 0) (pos 20))
    × Reads
        (pos 5)
        (pos 0)
        (pos 20)
        text
        (parse_int text)
        (parse_int64_from_env lookup_env number (pos 5) (pos 0) (pos 20))
    × Reads
        (pos 5)
        (pos 0)
        (pos 20)
        text
        (some (pos 12))
        (parse_duration_from_env lookup_env (λ s. some (pos 12)) number (pos 5) (pos 0) (pos 20))
parse_from_env-Reads_example =
    parse_from_env-Reads lookup_env (λ s. some (pos 12)) number (pos 5) (pos 0) (pos 20)
      (omega arith)

-- The number in the variable is read.
number_test : parse_num_from_env lookup_env number (pos 5) (pos 0) (pos 20) ≡ pos 12
unfolding parse_num_from_env lookup_env
number_test = refl

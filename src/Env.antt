-- ===== src/Env.antt =====
-- util/env/env.go: settings from environment variables. Warnings are left out.
--
-- `os.LookupEnv` is a function. A separator is of one byte.
mod Bounds
mod Tests
use argocd_monorepo_controll.Base.{
  ℕ, Text, codes, text_eq, split, trim_space, Map, lookup, insert, has, Bool, true, false, ◌&&◌,
  ◌||◌, List, [], ◌∷◌, map, any, Option, none, some, is_some, if◌then◌else◌,
}
use argocd_monorepo_controll.Strconv.{ℤ, ltb_ℤ, min_int64, max_int64, parse_int}
use argocd_monorepo_controll.Git.Urls.{to_lower}

abbrev is_empty : Text → Bool
is_empty s = text_eq s []

-- `str == ""`, or the parsed number unless it is out of bounds.
abbrev pub in_bounds : ℤ → ℤ → ℤ → Option ℤ → ℤ
in_bounds default_value minimum maximum none = default_value
in_bounds default_value minimum maximum (some num) =
    if ltb_ℤ num minimum then default_value else if ltb_ℤ maximum num then default_value else num

-- An int has 64 bits, so that the first test never holds.
abbrev pub fits_int : Option ℤ → Option ℤ
fits_int none = none
fits_int (some num) = if ltb_ℤ max_int64 num || ltb_ℤ num min_int64 then none else some num

module _ (lookup_env : Text → Option Text) where
  abbrev or_empty : Option Text → Text
  or_empty none = []
  or_empty (some str) = str

  unfoldable pub getenv : Text → Text
  getenv env = or_empty (lookup_env env)

  unfoldable pub parse_num_from_env : Text → ℤ → ℤ → ℤ → ℤ
  unfolding getenv text_eq parse_int
  parse_num_from_env env default_value minimum maximum =
      if is_empty (getenv env)
      then default_value
      else in_bounds default_value minimum maximum (fits_int (parse_int (getenv env)))

  unfoldable pub parse_int64_from_env : Text → ℤ → ℤ → ℤ → ℤ
  unfolding getenv text_eq parse_int
  parse_int64_from_env env default_value minimum maximum =
      if is_empty (getenv env)
      then default_value
      else in_bounds default_value minimum maximum (parse_int (getenv env))

  -- With `time.ParseDuration`, in nanoseconds.
  unfoldable pub parse_duration_from_env : (Text → Option ℤ) → Text → ℤ → ℤ → ℤ → ℤ
  unfolding getenv text_eq
  parse_duration_from_env parse_duration env default_value minimum maximum =
      if is_empty (getenv env)
      then default_value
      else in_bounds default_value minimum maximum (parse_duration (getenv env))

  -- The options are given by their field AllowEmpty.
  unfoldable pub string_from_env : Text → Text → List Bool → Text
  unfolding getenv text_eq
  string_from_env env default_value opts =
      let allow_empty = any (λ allowed. allowed) opts in
      if allow_empty && is_some (lookup_env env)
      then getenv env
      else if is_empty (getenv env)
      then default_value
      else getenv env

  unfoldable pub strings_from_env : Text → List Text → ℕ → List Text
  unfolding getenv text_eq split trim_space
  strings_from_env env default_value separator =
      if is_empty (getenv env) then default_value else map trim_space (split separator (getenv env))

  unfoldable pub parse_bool_from_env : Text → Bool → Bool
  unfolding getenv text_eq
  parse_bool_from_env env default_value =
      if text_eq (to_lower (getenv env)) (codes "true")
      then true
      else if text_eq (to_lower (getenv env)) (codes "false")
      then false
      else default_value

  abbrev key_value : List Text → Option (Text × Text)
  key_value (k ∷ v ∷ []) = some (trim_space k, trim_space v)
  key_value _ = none

  -- The loop over the pairs; `none` where one is invalid or its key was there.
  abbrev add_pair : Option (Text × Text) → Map Text → Option (Map Text)
  add_pair none parsed = none
  add_pair (some (k, v)) parsed = if has k parsed then none else some (insert k v parsed)

  abbrev or_stop : Option (Map Text) → (Map Text → Option (Map Text)) → Option (Map Text)
  or_stop none more = none
  or_stop (some parsed) more = more parsed

  unfoldable pub parse_pairs : List Text → Map Text → Option (Map Text)
  unfolding split trim_space insert lookup
  parse_pairs [] parsed = some parsed
  parse_pairs (pair ∷ pairs) parsed =
      or_stop (add_pair (key_value (split b'=' pair)) parsed) (parse_pairs pairs)

  unfoldable pub parse_string_to_string_from_env : Text → Map Text → ℕ → Map Text
  unfolding getenv text_eq split trim_space parse_pairs
  parse_string_to_string_from_env env default_value separator =
      let str = trim_space (getenv env) in
      if is_empty str then default_value else elim (parse_pairs (split separator str) []) [
        | none ↦ default_value
        | some parsed ↦ parsed
      ]

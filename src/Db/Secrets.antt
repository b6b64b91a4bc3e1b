-- ===== src/Db/Secrets.antt =====
-- util/db/secrets.go: secrets and their fields, and the API server that stores them.
use argocd_monorepo_controll.Base.{
  Text, codes, text_eq, Map, lookup, insert, delete, has, Bool, true, false, not, ◌||◌, List, [],
  ◌∷◌, Option, none, some, is_some, if◌then◌else◌,
}
use argocd_monorepo_controll.Strconv.{
  ℤ, pos, is_zero, parse_bool, format_bool, parse_int, format_int,
}

-- The codes of gRPC that the backend tells apart, and any other error.
pub data DbError : Type 0 where
  not_found already_exists invalid_argument internal other : DbError

pub data Result {ℓ} (A : Type ℓ) : Type ℓ where
  ok : A → Result A
  err : DbError → Result A

infixl 5 ◌>>=◌
abbrev pub ◌>>=◌ {ℓ κ} : {A : Type ℓ} {B : Type κ} → Result A → (A → Result B) → Result B
ok a >>= f = f a
err e >>= f = err e

-- A nil map reads as an empty one, and is made before it is written.
pub record Secret : Type 0 where
  pub name : Text
  pub labels : Map Text
  pub annotations : Map Text
  pub data_of : Map Text

abbrev pub label_key_secret_type : Text
label_key_secret_type = codes "argocd.argoproj.io/secret-type"

abbrev pub annotation_key_managed_by : Text
annotation_key_managed_by = codes "managed-by"

abbrev pub managed_by_argocd : Text
managed_by_argocd = codes "argocd.argoproj.io"

-- `string(secret.Data[key])`.
abbrev text_of : Option Text → Text
text_of none = []
text_of (some val) = val

unfoldable pub string_of : Map Text → Text → Text
unfolding lookup
string_of m key = text_of (lookup key m)

-- A value that is not parsed is an error.
abbrev parsed_or {ℓ} : {A : Type ℓ} → (Text → Option A) → A → Option Text → Option A
parsed_or parse zero none = some zero
parsed_or parse zero (some val) = parse val

unfoldable pub bool_or_false : Map Text → Text → Option Bool
unfolding lookup parse_bool
bool_or_false m key = parsed_or parse_bool false (lookup key m)

unfoldable pub int_or_zero : Map Text → Text → Option ℤ
unfolding lookup parse_int
int_or_zero m key = parsed_or parse_int (pos 0) (lookup key m)

-- A call of an update function: the value in its text, and whether it is another than zero.
pub record Write : Type 0 where
  pub key : Text
  pub is_set : Bool
  pub val : Text

abbrev pub update_secret_bool : Text → Bool → Write
update_secret_bool key value = record { key = key; is_set = value; val = format_bool value }

abbrev pub update_secret_int : Text → ℤ → Write
update_secret_int key value = record {
  key = key;
  is_set = not (is_zero value);
  val = format_int value;
}

abbrev pub update_secret_string : Text → Text → Write
update_secret_string key value = record { key = key; is_set = not (text_eq value []); val = value }

-- A zero value is written only over a value that is there.
unfoldable pub update : Write → Map Text → Map Text
unfolding lookup insert
update w m = if has w.key m || w.is_set then insert w.key w.val m else m

-- The calls in their order.
unfoldable pub update_all : List Write → Map Text → Map Text
unfolding update
update_all [] m = m
update_all (w ∷ ws) m = update_all ws (update w m)

unfoldable pub add_secret_metadata : Text → Secret → Secret
unfolding insert
add_secret_metadata secret_type secret = record secret {
  annotations = insert annotation_key_managed_by managed_by_argocd secret.annotations;
  labels = insert label_key_secret_type secret_type secret.labels;
}

-- What the API server says to a write.
pub data Written : Type 0 where
  written exists_already failed : Written

-- The API server and the informer on its secrets, with their state: `list_secrets_by_type` is the
-- lister of a type, `get_secret` finds a secret by its name, both `none` where they fail;
-- `update_secret` returns the secret that the server has then.
pub record Kube (S : Type 0) : Type 0 where
  pub list_secrets_by_type : Text → S → Option (List Secret)
  pub get_secret : Text → S → Option (Option Secret)
  pub create : Secret → S → Written × S
  pub update_secret : Secret → S → Option Secret × S
  pub delete_secret : Text → S → Bool × S
  pub resync_informers : S → Bool × S

abbrev pub as_result {ℓ} : {A : Type ℓ} → A → Bool → Result A
as_result a true = ok a
as_result a false = err other

module _ {S : Type 0} (kube : Kube S) where
  -- `return a, s.db.settingsMgr.ResyncInformers()`.
  unfoldable pub resynced {ℓ} : {A : Type ℓ} → A → S → Result A × S
  resynced a s = let (fine, t) = kube.resync_informers s in (as_result a fine, t)

  abbrev is_managed : Option Text → Bool
  is_managed none = false
  is_managed (some by) = text_eq by managed_by_argocd

  -- A secret that the program does not manage only loses its label.
  unfoldable pub delete_secret : Secret → S → Bool × S
  unfolding lookup delete text_eq
  delete_secret secret s =
      if is_managed (lookup annotation_key_managed_by secret.annotations)
      then kube.delete_secret secret.name s
      else (let (updated, t) =
            kube.update_secret
              (record secret { labels = delete label_key_secret_type secret.labels }) s in
          (is_some updated, t))

  abbrev pub after_delete : Bool × S → Result (Unit {0}) × S
  after_delete (true, t) = resynced tt t
  after_delete (false, t) = (err other, t)

  -- Deletes the secret that was found.
  abbrev pub delete_found : Result Secret → S → Result (Unit {0}) × S
  delete_found (ok secret) s = after_delete (delete_secret secret s)
  delete_found (err e) s = (err e, s)

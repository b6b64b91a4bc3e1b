-- ===== src/Json/Tests.antt =====
-- Reading and writing a JSON array of strings.
use argocd_monorepo_controll.Base.{◌≡◌, refl, codes, [], ◌∷◌}
use argocd_monorepo_controll.Json.Arrays.{unmarshal}

unmarshal_test :
    unmarshal (codes " [ \"a\\u0041\" , 1, {\"x\":[null]}, \"b\" ] ")
    ≡ codes "aA" ∷ [] ∷ [] ∷ codes "b" ∷ []
unfolding unmarshal
unmarshal_test = refl

unmarshal_cut_off : unmarshal (codes "[\"a\", \"b\"") ≡ []
unfolding unmarshal
unmarshal_cut_off = refl

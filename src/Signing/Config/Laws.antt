-- ===== src/Signing/Config/Laws.antt =====
-- The merged configuration, by what it holds under each key.
use notation_go.Prelude.{
  String, ◌≡◌, refl, ◌∙◌, Option, none, some, [], ◌∷◌, str_eq, eq_iff, arith, if◌then◌else◌, true,
  Bool-cases, inl, inr, ap,
}
use notation_go.Verification.Names.{StringMap, put}
use notation_go.Signing.Config.{lookup, put_all, merge_config}

-- No key occurs twice.
abbrev pub IsMap : StringMap → Type 0
IsMap [] = Unit
IsMap ((k, v) ∷ m) = (lookup m k ≡ none) × IsMap m

-- What the second holds comes first.
abbrev pub prefer : Option String → Option String → Option String
prefer (some v) w = some v
prefer none w = w

lookup-put :
    (m : StringMap) (k v j : String)
    → lookup (put m k v) j ≡ (if str_eq k j then some v else lookup m j)
unfolding lookup put
lookup-put [] k v j = refl
lookup-put ((i, w) ∷ m) k v j =
    ground (arith, eq_iff i k, eq_iff i j, eq_iff k j, lookup-put m k v j)

prefer-none : (o : Option String) → prefer o (lookup [] "") ≡ o
unfolding lookup
prefer-none none = refl
prefer-none (some v) = refl

same : (k j : String) → str_eq k j ≡ true → j ≡ k
same k j e = ground (arith, eq_iff k j)

prefer-put :
    (config m : StringMap) (k v j : String)
    → lookup config k ≡ none
    → prefer (lookup config j) (lookup (put m k v) j)
      ≡ prefer (lookup ((k, v) ∷ config) j) (lookup m j)
unfolding lookup
prefer-put config m k v j h = elim (Bool-cases (str_eq k j)) [
  | inl e ↦
      let here : lookup config j ≡ none = ap (lookup config) (same k j e) ∙ h in
      rw (lookup-put m k v j, e, here) refl
  | inr e ↦ rw (lookup-put m k v j, e) refl
]

lookup-put_all :
    (m config : StringMap) (j : String)
    → IsMap config
    → lookup (put_all m config) j ≡ prefer (lookup config j) (lookup m j)
unfolding put_all
lookup-put_all m [] j h = unfold lookup in refl
lookup-put_all m ((k, v) ∷ config) j (h, hs) =
    lookup-put_all (put m k v) config j hs ∙ prefer-put config m k v j h

-- Under each key, `mergeConfig` holds what the configuration of the call holds, and what the
-- signer's holds where the call's has no entry, whatever the order of the entries.
pub lookup-merge_config :
    (plugin_config config : StringMap) (k : String)
    → IsMap plugin_config
    → IsMap config
    → lookup (merge_config plugin_config config) k
      ≡ prefer (lookup config k) (lookup plugin_config k)
unfolding merge_config lookup
lookup-merge_config plugin_config config k hp hc =
    lookup-put_all (put_all [] plugin_config) config k hc
    ∙ ap (prefer (lookup config k))
        (lookup-put_all [] plugin_config k hp ∙ prefer-none (lookup plugin_config k))

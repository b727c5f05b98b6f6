-- ===== src/Resources/Sanitize.antt =====
-- internal/cluster/sanitize_manifest.go and internal/crypto/hash.go: what is cut out of a live
-- manifest before it leaves the cluster. `DeepCopy` is the identity on values, and
-- `sanitizeManifest` changes only the copy. Go would panic where `HashString` is given an empty
-- salt; `none` stands for that.
use kubernetes_monitor.Prelude.{
  String, Bool, false, not, Option, none, some, [], ◌∷◌, ◌&&◌, ◌==◌, string_eq, if◌then◌else◌,
  is_some,
}
use mathlib.Core.Option
use kubernetes_monitor.Prelude.Maps.{Map, lookup, delete}
use kubernetes_monitor.Resources.Libraries.{Kubernetes}
use kubernetes_monitor.Resources.Cache.{CacheResource}

abbrev pub last_applied : String
last_applied = "kubectl.kubernetes.io/last-applied-configuration"

unfoldable pub is_secret : {M : Type 0} → CacheResource M → Bool
is_secret res = res.ref.api_version == "v1" && res.ref.kind == "Secret"

module _ (k : Kubernetes) where
  open k use {Manifest, annotations, set_annotations, secret_data, set_secret_data, salted_digest}

  unfoldable pub hash_string : String → String → Option String
  hash_string hash_salt value =
      if hash_salt == "" then none else some (salted_digest hash_salt value)

  -- The loop of `sanitizeSecret` over the entries of `data`.
  unfoldable pub hash_values : String → Map String String → Option (Map String String)
  unfolding hash_string
  hash_values salt [] = some []
  hash_values salt ((key, value) ∷ entries) =
      let rest = hash_values salt entries in
      elim (hash_string salt value) [
        | none ↦ none
        | some hashed ↦ Option.map (λ r. (key, hashed) ∷ r) rest
      ]

  unfoldable pub sanitize_secret : Manifest → String → Option Manifest
  sanitize_secret manifest salt = elim (secret_data manifest) [
    | none ↦ some manifest
    | some entries ↦
        Option.map (λ hashed. set_secret_data hashed manifest) (hash_values salt entries)
  ]

  unfoldable pub has_last_applied_annotation : Manifest → Bool
  has_last_applied_annotation manifest = elim (annotations manifest) [
    | none ↦ false
    | some entries ↦ is_some (lookup last_applied entries)
  ]

  unfoldable pub remove_last_applied_annotation : Manifest → Manifest
  remove_last_applied_annotation manifest = elim (annotations manifest) [
    | none ↦ manifest
    | some entries ↦ set_annotations (delete last_applied entries) manifest
  ]

  -- The last step, on the copy.
  unfoldable pub without_last_applied : Manifest → Manifest
  unfolding has_last_applied_annotation remove_last_applied_annotation
  without_last_applied clone =
      if has_last_applied_annotation clone then remove_last_applied_annotation clone else clone

  -- The outer option is a panic, the inner one Go's nil.
  unfoldable pub sanitize_manifest :
      CacheResource Manifest → Option Manifest → String → Option (Option Manifest)
  unfolding is_secret sanitize_secret hash_values without_last_applied
  sanitize_manifest res manifest salt = if salt == "" then some none else elim manifest [
    | none ↦ some none
    | some m ↦
        if not (is_secret res) && not (has_last_applied_annotation m)
        then some (some m)
        else if is_secret res
        then Option.map (λ clone. some (without_last_applied clone)) (sanitize_secret m salt)
        else some (some (without_last_applied m))
  ]

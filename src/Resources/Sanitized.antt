-- ===== src/Resources/Sanitized.antt =====
-- What internal/cluster/sanitize_manifest.go leaves of a manifest.
use kubernetes_monitor.Prelude.{
  ◌≡◌, refl, ◌∙◌, String, true, false, Option, none, some, [], ◌∷◌, ◌==◌, string_eq, arith,
  Option-cases, Bool-cases, inl, inr, beq_refl,
}
use kubernetes_monitor.Prelude.Maps.{Map, delete, lookup-delete}
use kubernetes_monitor.Resources.Libraries.{Kubernetes}
use kubernetes_monitor.Resources.Cache.{CacheResource}
use kubernetes_monitor.Resources.Sanitize.{
  last_applied, is_secret, hash_string, hash_values, sanitize_secret, has_last_applied_annotation,
  remove_last_applied_annotation, without_last_applied, sanitize_manifest,
}

-- The library's accessors of a manifest read what was set, and leave the other field alone.
pub record Accessors (k : Kubernetes) : Type 0 where
  pub annotations_set :
      (a : Map String String) (m : k.Manifest) → k.annotations (k.set_annotations a m) ≡ some a
  pub secret_data_set :
      (d : Map String String) (m : k.Manifest) → k.secret_data (k.set_secret_data d m) ≡ some d
  pub annotations_kept :
      (d : Map String String) (m : k.Manifest)
      → k.annotations (k.set_secret_data d m) ≡ k.annotations m
  pub secret_data_kept :
      (a : Map String String) (m : k.Manifest)
      → k.secret_data (k.set_annotations a m) ≡ k.secret_data m

module _ (k : Kubernetes) where
  open k use {Manifest, secret_data, annotations, salted_digest, set_secret_data}

  -- The entries with every value hashed.
  abbrev pub hashed : String → Map String String → Map String String
  hashed salt [] = []
  hashed salt ((key, value) ∷ entries) = (key, salted_digest salt value) ∷ hashed salt entries

  abbrev pub hashed_data : String → Option (Map String String) → Option (Map String String)
  hashed_data salt none = none
  hashed_data salt (some entries) = some (hashed salt entries)

  -- What may leave the cluster: without the annotation, and with a Secret's values hashed.
  pub record IsSanitized (res : CacheResource Manifest) (m : Manifest) (salt : String)
      (sent : Manifest) : Type 0 where
    pub unannotated : has_last_applied_annotation k sent ≡ false
    pub hidden : is_secret res ≡ true → secret_data sent ≡ hashed_data salt (secret_data m)

  hash_values-hashed :
      (salt : String) (entries : Map String String)
      → (salt == "") ≡ false
      → hash_values k salt entries ≡ some (hashed salt entries)
  unfolding hash_values hash_string
  hash_values-hashed salt [] h = refl
  hash_values-hashed salt ((key, value) ∷ entries) h =
      ground (arith, h, hash_values-hashed salt entries h)

  module _ (laws : Accessors k) where
    without_last_applied-annotation :
        (m : Manifest) → has_last_applied_annotation k (without_last_applied k m) ≡ false
    unfolding without_last_applied has_last_applied_annotation remove_last_applied_annotation
    without_last_applied-annotation m = elim (Option-cases (annotations m)) [
      | inl p ↦ ground (arith, p)
      | inr (entries, p) ↦ ground (
        arith,
        p,
        laws.annotations_set (delete last_applied entries) m,
        lookup-delete last_applied last_applied entries,
        beq_refl last_applied,
      )
    ]

    without_last_applied-data :
        (m : Manifest) → secret_data (without_last_applied k m) ≡ secret_data m
    unfolding without_last_applied remove_last_applied_annotation
    without_last_applied-data m = elim (Option-cases (annotations m)) [
      | inl p ↦ ground (arith, p)
      | inr (entries, p) ↦ ground (arith, p, laws.secret_data_kept (delete last_applied entries) m)
    ]

    sanitize_secret-data :
        (m : Manifest) (salt : String)
        → (salt == "") ≡ false
        → (clone : Manifest) × ((sanitize_secret k m salt ≡ some clone)
            × (secret_data clone ≡ hashed_data salt (secret_data m)))
    unfolding sanitize_secret
    sanitize_secret-data m salt h = elim (Option-cases (secret_data m)) [
      | inl p ↦ (m, (rw (p, sanitize_secret), rw (p)))
      | inr (entries, p) ↦ (
        set_secret_data (hashed salt entries) m,
        (
          rw (p, hash_values-hashed salt entries h, sanitize_secret),
          rw (p) (laws.secret_data_set (hashed salt entries) m),
        ),
      )
    ]

    -- If the library's accessors of a manifest read what was set, then with a salt the sanitizing
    -- of a manifest always returns one, without the last-applied annotation; and of a Secret every
    -- value of its data is replaced by its digest under the salt.
    pub sanitize_manifest-IsSanitized :
        (res : CacheResource Manifest) (m : Manifest) (salt : String)
        → (salt == "") ≡ false
        → (sent : Manifest) × ((sanitize_manifest k res (some m) salt ≡ some (some sent))
            × IsSanitized res m salt sent)
    unfolding sanitize_manifest
    sanitize_manifest-IsSanitized res m salt h = elim (Bool-cases (is_secret res)) [
      | inl p ↦
          let (clone, (e, d)) = sanitize_secret-data m salt h in
          (
            without_last_applied k clone,
            (
              rw (h, p, e) refl,
              record {
                unannotated = without_last_applied-annotation clone;
                hidden = λ _. without_last_applied-data clone ∙ d;
              },
            ),
          )
      | inr p ↦ elim (Bool-cases (has_last_applied_annotation k m)) [
        | inl q ↦ (
          without_last_applied k m,
          (
            rw (h, p, q) refl,
            record { unannotated = without_last_applied-annotation m; hidden = λ s. cc },
          ),
        )
        | inr q ↦ (m, (rw (h, p, q) refl, record { unannotated = q; hidden = λ s. cc }))
      ]
    ]

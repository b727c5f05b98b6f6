-- ===== src/Configuration/Normal.antt =====
-- What holds of every configuration that `GetConfig` of internal/config/config.go returns.
use kubernetes_monitor.Prelude.{
  ◌≡◌, refl, ap, ◌∙◌, ◌≢◌, inl, inr, ℕ, false, List, [], ◌∷◌, All, arith, Bool-cases,
}
use kubernetes_monitor.Configuration.{
  ℤ, pos, negsuc, Text, Config, or_default, is_space, trim_left, keep_before, trim_right,
  trim_space, keep_namespace, clean_namespaces, bound_namespaces, get_config,
}

abbrev pub IsPositive : ℤ → Type 0
IsPositive (pos n) = n ≢ 0
IsPositive (negsuc n) = ⊥

-- A namespace with no space around it, and not empty.
abbrev pub IsClean : Text → Type 0
IsClean ns = (trim_space ns ≡ ns) × (ns ≢ [])

or_default-IsPositive : (fallback : ℕ) (n : ℤ) → fallback ≢ 0 → IsPositive (or_default fallback n)
unfolding or_default
or_default-IsPositive fallback (pos n) h = ground arith
or_default-IsPositive fallback (negsuc n) h = h

keep_before_idem :
    (c : ℕ) (t : Text) → trim_right t ≡ t → trim_right (keep_before c t) ≡ keep_before c t
unfolding keep_before trim_right
keep_before_idem c [] h = elim (Bool-cases (is_space c)) [
  | inl p ↦ rw p refl
  | inr p ↦ rw p (rw p refl)
]
keep_before_idem c (d ∷ t) h = rw h refl

trim_right_idem : (s : Text) → trim_right (trim_right s) ≡ trim_right s
unfolding trim_right
trim_right_idem [] = refl
trim_right_idem (c ∷ s) = keep_before_idem c (trim_right s) (trim_right_idem s)

-- A text that begins with no space.
abbrev Begins : Text → Type 0
Begins [] = Unit {0}
Begins (c ∷ s) = is_space c ≡ false

trim_left-Begins : (s : Text) → Begins (trim_left s)
unfolding trim_left
trim_left-Begins [] = tt
trim_left-Begins (c ∷ s) = elim (Bool-cases (is_space c)) [
  | inl p ↦ rw p (trim_left-Begins s)
  | inr p ↦ rw p p
]

keep_before-Begins : (c : ℕ) (t : Text) → is_space c ≡ false → Begins (keep_before c t)
unfolding keep_before
keep_before-Begins c [] h = rw h h
keep_before-Begins c (d ∷ t) h = h

trim_right-Begins : (s : Text) → Begins s → Begins (trim_right s)
unfolding trim_right
trim_right-Begins [] h = tt
trim_right-Begins (c ∷ s) h = keep_before-Begins c (trim_right s) h

trim_left_fixed : (s : Text) → Begins s → trim_left s ≡ s
unfolding trim_left
trim_left_fixed [] h = refl
trim_left_fixed (c ∷ s) h = rw h refl

trim_space_idem : (s : Text) → trim_space (trim_space s) ≡ trim_space s
unfolding trim_space
trim_space_idem s =
    rw
      (trim_left_fixed (trim_right (trim_left s))
        (trim_right-Begins (trim_left s) (trim_left-Begins s)))
      (trim_right_idem (trim_left s))

keep_namespace-All :
    (ns : Text) (cleaned : List Text)
    → trim_space ns ≡ ns
    → All IsClean cleaned
    → All IsClean (keep_namespace ns cleaned)
unfolding keep_namespace
keep_namespace-All [] cleaned e h = h
keep_namespace-All (c ∷ ns) cleaned e h = ((e, λ p. absurd (cc)), h)

clean_namespaces-All : (namespaces : List Text) → All IsClean (clean_namespaces namespaces)
unfolding clean_namespaces
clean_namespaces-All [] = tt
clean_namespaces-All (ns ∷ namespaces) =
    keep_namespace-All (trim_space ns) (clean_namespaces namespaces) (trim_space_idem ns)
      (clean_namespaces-All namespaces)

keep_namespace_fixed :
    (ns : Text) (cleaned : List Text) → ns ≢ [] → keep_namespace ns cleaned ≡ ns ∷ cleaned
unfolding keep_namespace
keep_namespace_fixed [] cleaned h = absurd (h refl)
keep_namespace_fixed (c ∷ ns) cleaned h = refl

-- Clean namespaces stay as they are.
pub clean_namespaces_fixed :
    (namespaces : List Text) → All IsClean namespaces → clean_namespaces namespaces ≡ namespaces
unfolding clean_namespaces
clean_namespaces_fixed [] h = refl
clean_namespaces_fixed (ns ∷ namespaces) h =
    rw (h.0.0) (keep_namespace_fixed ns (clean_namespaces namespaces) h.0.1)
    ∙ ap (λ l. ns ∷ l) (clean_namespaces_fixed namespaces h.1)

pub record IsNormal (before after : Config) : Type 0 where
  pub period : IsPositive after.persistent.resource_monitor_period
  pub send_size : IsPositive after.persistent.max_grpc_send_message_size_bytes
  pub receive_size : IsPositive after.persistent.max_grpc_receive_message_size_bytes
  pub namespaces : All IsClean after.transient.target_namespaces
  pub kept :
      before.transient.target_namespaces ≢ []
      → All IsClean before.transient.target_namespaces
      → after.transient.target_namespaces ≡ before.transient.target_namespaces
  pub secret : after.secret ≡ before.secret

bound_some :
    (raw : Text) (namespaces : List Text)
    → namespaces ≢ []
    → bound_namespaces raw namespaces ≡ namespaces
unfolding bound_namespaces
bound_some raw [] h = absurd (h refl)
bound_some [] (ns ∷ namespaces) h = refl
bound_some (c ∷ raw) (ns ∷ namespaces) h = refl

-- Whatever a store read, the configuration that is returned has a positive period and positive limits of
-- message sizes; each of its namespaces is non-empty, with no space around it, and namespaces that were
-- bound like that already are kept as they are; and the secrets are kept.
pub get_config-IsNormal :
    (raw_namespaces in_home : Text) (c : Config) → IsNormal c (get_config raw_namespaces in_home c)
unfolding get_config
get_config-IsNormal raw_namespaces in_home c = record {
  period = or_default-IsPositive _ c.persistent.resource_monitor_period (λ p. omega (arith, p));
  send_size =
      or_default-IsPositive _ c.persistent.max_grpc_send_message_size_bytes (λ p. omega (arith, p));
  receive_size =
      or_default-IsPositive _ c.persistent.max_grpc_receive_message_size_bytes
        (λ p. omega (arith, p));
  namespaces = clean_namespaces-All (bound_namespaces raw_namespaces c.transient.target_namespaces);
  kept = λ some_bound clean.
      ap clean_namespaces (bound_some raw_namespaces c.transient.target_namespaces some_bound)
      ∙ clean_namespaces_fixed c.transient.target_namespaces clean;
  secret = refl;
}

-- ===== src/Configuration/Stores.antt =====
-- internal/config/store.go: which store a configuration asks for, and how a store names what it holds. Files,
-- Viper and the cluster's API are what the calls meet. Names are ASCII.
use kubernetes_monitor.Prelude.{
  ◌≡◌, ◌↔◌, ℕ, ◌+◌, ◌-◌, Bool, true, false, Option, none, some, List, [], ◌∷◌, ◌++◌, map, Result,
  ok, failed, if◌then◌else◌, ◌==◌, nat_eq, Eq, ◌&&◌, leb, arith,
}
use kubernetes_monitor.Prelude.Maps.{Map, lookup, insert}
use kubernetes_monitor.Configuration.{Text, strip, comma}

unfoldable pub text_beq : Text → Text → Bool
text_beq [] [] = true
text_beq [] (d ∷ t) = false
text_beq (c ∷ s) [] = false
text_beq (c ∷ s) (d ∷ t) = let rest = text_beq s t in if c == d then rest else false

pub text_beq_iff : (s t : Text) → (text_beq s t ≡ true) ↔ (s ≡ t)
unfolding text_beq
text_beq_iff [] [] = ground arith
text_beq_iff [] (d ∷ t) = ground arith
text_beq_iff (c ∷ s) [] = ground arith
text_beq_iff (c ∷ s) (d ∷ t) = ground (arith, text_beq_iff s t)

instance abbrev pub text_eq : Eq Text
text_eq = record { beq = text_beq; beq_iff = text_beq_iff }

-- "-kubernetesmonitor-"
abbrev pub monitor_suffix : Text
monitor_suffix =
    b'-' ∷ b'k' ∷ b'u' ∷ b'b' ∷ b'e' ∷ b'r' ∷ b'n' ∷ b'e' ∷ b't' ∷ b'e' ∷ b's' ∷ b'm' ∷ b'o' ∷ b'n'
    ∷ b'i' ∷ b't' ∷ b'o' ∷ b'r' ∷ []

-- Whether the rest of a host name is the suffix, a dash and something more.
unfoldable pub ends_prefix : Text → Bool
ends_prefix s = elim (strip (monitor_suffix ++ b'-' ∷ []) s) [
  | none ↦ false
  | some [] ↦ false
  | some (c ∷ rest) ↦ true
]

-- The first group of "^(.+?-kubernetesmonitor)-.+$", of a host name, which has no line breaks: the
-- shortest beginning of at least one character that ends so.
unfoldable pub find_prefix : Text → Option Text
unfolding ends_prefix
find_prefix [] = none
find_prefix (c ∷ s) =
    let longer : Option Text = elim (find_prefix s) [
      | none ↦ none
      | some prefix ↦ some (c ∷ prefix)
    ] in
    if ends_prefix s then some (c ∷ monitor_suffix) else longer

pub data StoreError : Type 0 where
  unknown_store_type no_hostname no_name_prefix no_namespace : StoreError

pub record KubernetesStore : Type 0 where
  pub namespace : Text
  pub name_prefix : Text

abbrev pub or_empty : Option Text → Text
or_empty none = []
or_empty (some s) = s

-- The prefix as configured, or from the host's name, where that can be read.
unfoldable pub name_prefix_of : Text → Option Text → Result StoreError Text
unfolding find_prefix
name_prefix_of (c ∷ prefix) hostname = ok (c ∷ prefix)
name_prefix_of [] none = failed no_hostname
name_prefix_of [] (some []) = failed no_hostname
name_prefix_of [] (some (c ∷ hostname)) = elim (find_prefix (c ∷ hostname)) [
  | none ↦ failed no_name_prefix
  | some prefix ↦ ok prefix
]

unfoldable pub in_namespace : Text → Result StoreError Text → Result StoreError KubernetesStore
in_namespace namespace (failed e) = failed e
in_namespace [] (ok prefix) = failed no_namespace
in_namespace (c ∷ namespace) (ok prefix) =
    ok (record { namespace = c ∷ namespace; name_prefix = prefix })

-- `NewKubernetesStore`, from the two settings, which count as empty where they are no texts.
unfoldable pub new_kubernetes_store :
    Option Text → Option Text → Option Text → Result StoreError KubernetesStore
unfolding name_prefix_of in_namespace
new_kubernetes_store prefix namespace hostname =
    in_namespace (or_empty namespace) (name_prefix_of (or_empty prefix) hostname)

-- "file" and "kubernetes"
abbrev pub file_type : Text
file_type = b'f' ∷ b'i' ∷ b'l' ∷ b'e' ∷ []

abbrev pub kubernetes_type : Text
kubernetes_type = b'k' ∷ b'u' ∷ b'b' ∷ b'e' ∷ b'r' ∷ b'n' ∷ b'e' ∷ b't' ∷ b'e' ∷ b's' ∷ []

pub data Store : Type 0 where
  file_store : Store
  read_only_store : Store
  kubernetes_store : KubernetesStore → Store

-- `NewFileStore`: a directory that cannot be made leaves a store that only reads.
unfoldable pub new_file_store : Bool → Store
new_file_store directory_made = if directory_made then file_store else read_only_store

unfoldable pub kubernetes_store_of : Result StoreError KubernetesStore → Result StoreError Store
kubernetes_store_of (ok s) = ok (kubernetes_store s)
kubernetes_store_of (failed e) = failed e

unfoldable pub store_of_type :
    Text → Bool → Result StoreError KubernetesStore → Result StoreError Store
unfolding new_file_store kubernetes_store_of
store_of_type store_type directory_made kubernetes =
    if store_type == file_type
    then ok (new_file_store directory_made)
    else if store_type == kubernetes_type
    then kubernetes_store_of kubernetes
    else failed unknown_store_type

-- `NewStore`: an empty type, or one that is no text, is that of a file.
unfoldable pub new_store : Text → Bool → Result StoreError KubernetesStore → Result StoreError Store
unfolding store_of_type
new_store [] directory_made kubernetes = store_of_type file_type directory_made kubernetes
new_store (c ∷ store_type) directory_made kubernetes =
    store_of_type (c ∷ store_type) directory_made kubernetes

-- `strings.ToUpper`, and dashes replaced: a secret's keys.
unfoldable pub upper : ℕ → ℕ
upper c = if leb b'a' c && leb c b'z' then c - 32 else c

unfoldable pub lower : ℕ → ℕ
lower c = if leb b'A' c && leb c b'Z' then c + 32 else c

unfoldable pub secret_key : Text → Text
unfolding upper
secret_key tag = map (λ c. if upper c == b'-' then b'_' else upper c) tag

-- `strings.Split(tag, ",")[0]`
unfoldable pub before_comma : Text → Text
before_comma [] = []
before_comma (c ∷ tag) = let rest = before_comma tag in if c == comma then [] else c ∷ rest

-- The fields of a struct type: each has a name, and a tag or none; an embedded struct has fields.
pub data Fields : Type 0 where
  no_more : Fields
  field : Text → Option Text → Fields → Fields
  embedded : Fields → Fields → Fields

unfoldable pub collect_embedded_type_fields : Fields → List (Text × Option Text)
collect_embedded_type_fields no_more = []
collect_embedded_type_fields (field name tag rest) = (name, tag) ∷ collect_embedded_type_fields rest
collect_embedded_type_fields (embedded inner rest) =
    collect_embedded_type_fields inner ++ collect_embedded_type_fields rest

-- `getFieldMapper`: from a field's name in lower case to its key.
unfoldable pub add_fields : List (Text × Option Text) → Map Text Text → Map Text Text
unfolding lower before_comma
add_fields [] mapper = mapper
add_fields ((name, none) ∷ fields) mapper = add_fields fields mapper
add_fields ((name, some tag) ∷ fields) mapper =
    add_fields fields (insert (map lower name) (before_comma tag) mapper)

unfoldable pub get_field_mapper : Fields → Map Text Text
unfolding add_fields collect_embedded_type_fields
get_field_mapper t = add_fields (collect_embedded_type_fields t) []

unfoldable pub mapped_name : Map Text Text → Text → Text
mapped_name mapper k = elim (lookup k mapper) [ none ↦ k | some name ↦ name ]

-- `convertToMapstructureTag`
unfoldable pub convert_settings :
    {V : Type 0} → Map Text Text → Map Text V → Map Text V → Map Text V
unfolding mapped_name
convert_settings mapper [] converted = converted
convert_settings mapper ((k, v) ∷ s) converted =
    convert_settings mapper s (insert (mapped_name mapper k) v converted)

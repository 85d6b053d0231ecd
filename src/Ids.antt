-- ===== src/Ids.antt =====
-- common/ids.py: deterministic identifiers. What json, hashlib and base64 compute of a namespace
-- and of the components of an id is the parameter `digest`.
use Prim.Native.String.{slice, len, ◌++◌}
use text.Mathlib.Text.{starts_with}
use golden_retriever.Prelude.{
  ℕ, String, ◌||◌, Option, none, some, List, [], ◌∷◌, ltb, ◌==◌, if◌then◌else◌,
}
use golden_retriever.Prelude.Int.{ℤ, pos, negsuc}

-- A component of an id: what the callers pass as `parts`.
pub data Part : Type 0 where
  word : String → Part
  number : ℤ → Part
  null : Part
  pair : Part → Part → Part

-- Canonical JSON of the namespace and the parts, SHA-256, base32 in lower case without padding.
abbrev pub Digest : Type 0
Digest = String → List Part → String

abbrev pub default_opaque_key_length : ℕ
default_opaque_key_length = 26

module _ (digest : Digest) where
  -- `opaque_key` at arguments that pass its checks.
  unfoldable pub key_text : String → ℕ → List Part → String
  key_text namespace size parts = slice (digest namespace parts) 0 size

  -- `none` is a `ValueError`.
  unfoldable pub opaque_key : String → ℕ → List Part → Option String
  unfolding key_text
  opaque_key namespace size [] = none
  opaque_key namespace size (p ∷ parts) =
      if namespace == "" || ltb size 8 || ltb 52 size
      then none
      else some (key_text namespace size (p ∷ parts))

  unfoldable pub permit_id : String → String → String
  unfolding key_text
  permit_id request_id quota_window_id =
      "permit/"
      ++ key_text "permit-reservation" default_opaque_key_length
          (word request_id ∷ word quota_window_id ∷ [])

-- `text.removeprefix(prefix)`
unfoldable pub remove_prefix : String → String → String
remove_prefix prefix s = if starts_with s prefix then slice s (len prefix) (len s) else s

-- The built-ins that the workflow ids use: `digest`, and `str` of a natural number.
pub record Builtins : Type 0 where
  pub digest : Digest
  pub decimal : ℕ → String

module _ (py : Builtins) where
  -- `_generation`; `none` is a `ValueError`.
  abbrev pub generation_text : ℤ → Option String
  generation_text (pos n) = some (py.decimal n)
  generation_text (negsuc n) = none

  abbrev pub component : String → Part → String
  component namespace value = key_text py.digest namespace default_opaque_key_length (value ∷ [])

  unfoldable pub opaque_store_key : String → String
  opaque_store_key store_key = component "store" (word store_key)

  unfoldable pub opaque_quota_scope_key : String → String → String → String
  opaque_quota_scope_key provider credential_key quota_class =
      key_text py.digest "quota-scope" default_opaque_key_length
        (word provider ∷ word credential_key ∷ word quota_class ∷ [])

  unfoldable pub store_sync_workflow_id : String → ℤ → String → Option String
  store_sync_workflow_id store_key generation sync_sequence = elim (generation_text generation) [
    | none ↦ none
    | some g ↦ some (
        "store-sync/"
        ++ opaque_store_key store_key
        ++ "/"
        ++ g
        ++ "/"
        ++ component "sync-sequence" (word sync_sequence))
  ]

  unfoldable pub user_sync_workflow_id : String → ℤ → String → String → Option String
  user_sync_workflow_id store_key generation sync_sequence user_key =
      elim (generation_text generation) [
        | none ↦ none
        | some g ↦ some (
            "user-sync/"
            ++ opaque_store_key store_key
            ++ "/"
            ++ g
            ++ "/"
            ++ component "sync-sequence" (word sync_sequence)
            ++ "/"
            ++ component "user" (word user_key))
      ]

  unfoldable pub store_deactivation_workflow_id : String → ℤ → Option String
  store_deactivation_workflow_id store_key generation = elim (generation_text generation) [
    | none ↦ none
    | some g ↦ some ("store-deactivation/" ++ opaque_store_key store_key ++ "/" ++ g)
  ]

  unfoldable pub user_quota_workflow_id : String → String → String → String
  user_quota_workflow_id provider credential_key quota_class =
      "user-quota/" ++ opaque_quota_scope_key provider credential_key quota_class

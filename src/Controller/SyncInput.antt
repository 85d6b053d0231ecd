-- ===== src/Controller/SyncInput.antt =====
-- `_quota_scope`, `_positive_int` and `_sync_input`. Python's `int`, `float` and methods of `str`
-- are the parameter `texts`.
use golden_retriever.Prelude.{
  String, Bool, true, not, ◌||◌, Option, none, some, List, [], ◌∷◌, is_nil, elem, ◌==◌,
  if◌then◌else◌,
}
use golden_retriever.Prelude.Int.{ℤ, pos, leb_ℤ}
use golden_retriever.Prelude.Result.{ok, err, raise_unless, ◌>>=◌, ◌>>◌}
use golden_retriever.Dict.{Dict, get}
use golden_retriever.Models.Operations.{SyncCommand}
use golden_retriever.Models.Quota.{QuotaScope}
use golden_retriever.Models.Lifecycle.{StoreControllerState}
use golden_retriever.Models.Sync.{SyncMode, ordinary, round, StoreSyncInput}
use golden_retriever.Controller.State.{Error, application_error, Outcome}

-- `none` is a `ValueError`. `float_in_range` is `float`, with whether the value is between 0.001
-- and 1000. `split` is at commas, and `strip` and `lower` are the methods.
pub record Texts : Type 0 where
  pub int : String → Option ℤ
  pub float_in_range : String → Option Bool
  pub split : String → List String
  pub strip : String → String
  pub lower : String → String

-- `metadata.get(key, default)`
abbrev pub get_or : String → String → Dict String → String
get_or key default metadata = elim (get key metadata) [ none ↦ default | some v ↦ v ]

-- `if not value`, of an optional text
abbrev pub is_blank : Option String → Bool
is_blank none = true
is_blank (some v) = v == ""

abbrev invalid : Error
invalid = application_error "InvalidSyncCommand"

abbrev or_invalid {ℓ} : {A : Type ℓ} → Option A → Outcome A
or_invalid none = err invalid
or_invalid (some a) = ok a

-- `SyncMode(value)`
abbrev sync_mode : String → Option SyncMode
sync_mode value =
    if value == "ordinary" then some ordinary else if value == "round" then some round else none

module _ (texts : Texts) where
  unfoldable pub quota_scope : Dict String → Outcome (Option QuotaScope)
  quota_scope metadata =
      let provider = get "provider" metadata in
      let credential_key = get "credential_key" metadata in
      if is_blank provider || is_blank credential_key then ok none else do
        in_range ← or_invalid (texts.float_in_range (get_or "fairness_weight" "1" metadata))
        raise_unless in_range invalid
        ok (
            some (record {
              provider = get_or "provider" "" metadata;
              credential_key = get_or "credential_key" "" metadata;
              quota_class = get_or "quota_class" "default" metadata;
            }))

  -- The default is given as its text.
  unfoldable pub positive_int : String → String → Dict String → Outcome ℤ
  positive_int key default metadata = do
    value ← or_invalid (texts.int (get_or key default metadata))
    raise_unless (not (leb_ℤ value (pos 0))) invalid
    ok value

  -- `tuple(item.strip() for item in items if item.strip())`
  unfoldable pub stripped : List String → List String
  stripped [] = []
  stripped (item ∷ items) =
      let rest = stripped items in if texts.strip item == "" then rest else texts.strip item ∷ rest

  -- `workflow_id` is the controller's own.
  unfoldable pub sync_input : String → SyncCommand → StoreControllerState → Outcome StoreSyncInput
  unfolding quota_scope positive_int stripped
  sync_input workflow_id command s = do
    let metadata = command.metadata
    scope ← quota_scope metadata
    mode ← or_invalid (sync_mode (get_or "mode" "ordinary" metadata))
    let resources = stripped (texts.split (get_or "resource_types" "files" metadata))
    max_active_users ← positive_int "max_active_users" "20" metadata
    user_page_size ← positive_int "user_page_size" "100" metadata
    round_user_window_size ← positive_int "round_user_window_size" "20" metadata
    round_page_slice_size ← positive_int "round_page_slice_size" "5" metadata
    resource_concurrency ← positive_int "resource_concurrency" "8" metadata
    files_page_window_size ← positive_int "files_page_window_size" "5" metadata
    files_per_page_concurrency ← positive_int "files_per_page_concurrency" "10" metadata
    document_ingestion_concurrency ← positive_int "document_ingestion_concurrency" "20" metadata
    provider_page_size ← positive_int "provider_page_size" "100" metadata
    activation_recent_page_cap ← positive_int "activation_recent_page_cap" "5" metadata
    ok (record {
      store_key = command.store_key;
      lifecycle_generation = command.expected_generation;
      sync_sequence = command.sync_sequence;
      quota_scope = scope;
      work_class = command.work_class;
      mode = mode;
      resource_types = if is_nil resources then "files" ∷ [] else resources;
      max_active_users = max_active_users;
      user_page_size = user_page_size;
      round_user_window_size = round_user_window_size;
      round_page_slice_size = round_page_slice_size;
      resource_concurrency = resource_concurrency;
      files_page_window_size = files_page_window_size;
      files_per_page_concurrency = files_per_page_concurrency;
      document_ingestion_concurrency = document_ingestion_concurrency;
      provider_page_size = provider_page_size;
      provider_task_queue = get_or "provider_task_queue" "retrieval-provider-v2" metadata;
      priority_fairness_enabled =
          elem (texts.lower (get_or "priority_fairness_enabled" "false" metadata))
            ("1" ∷ "true" ∷ "yes" ∷ "on" ∷ []);
      controller_workflow_id = some workflow_id;
      activation_recent_page_cap = activation_recent_page_cap;
      enable_search_attributes = s.enable_search_attributes;
    })

-- ===== src/Activities/Commits.antt =====
-- What an ingestion writes, by the result that it reports.
use golden_retriever.Prelude.{
  String, ◌≡◌, refl, sym, subst, ◌≢◌, ◌⊎◌, inl, inr, true, Option, none, some, arith, ◌==◌,
  if_cases, option_cases,
}
use golden_retriever.Prelude.Result.{Result, ok, err}
use golden_retriever.Dict.{get, put, remove}
use golden_retriever.Dict.Laws.{get-put, get-remove}
use golden_retriever.Models.Operations.{succeeded}
use golden_retriever.Models.Documents.{
  DocumentRef, DocumentIngestionInput, DocumentIngestionResult, DocumentMutation, upsert, delete,
}
use golden_retriever.Repository.{
  Error, unknown_store, stale_generation, state_rejected, rejected, Repository, StoreRecord,
  is_writable, upsert_document_if_current, delete_document_if_current,
}
use golden_retriever.Repository.Rules.{require_writable_cases}
use golden_retriever.Activities.Ingestion.{
  Raised, concluded, ingestion_result, ingest_by, ingest_upsert, ingest_staged_document,
}

-- The document that the repository has for a store under a key.
abbrev pub stored : String → String → Repository → Option DocumentRef
stored store_key key repo = elim (get store_key repo) [ none ↦ none | some r ↦ get key r.documents ]

-- The write is let through: the store takes writes of the command's generation.
abbrev pub Admits : DocumentIngestionInput → Repository → Type 0
Admits command repo =
    (r : StoreRecord) × (get command.store_key repo ≡ some r)
    × (r.lifecycle_generation ≡ command.lifecycle_generation)
    × (is_writable r.lifecycle_state ≡ true)

module _ {Body : Type 0} (sha256_hex : Body → String) (staging : String → Option Body) where
  -- What is there after the mutation; the body of a new document is the one that its reference
  -- names.
  abbrev pub Written : DocumentIngestionInput → DocumentMutation → Repository → Type 0
  Written command delete repo' = stored command.store_key command.document.document_key repo' ≡ none
  Written command upsert repo' =
      (stored command.store_key command.document.document_key repo' ≡ some command.document)
      × ((body : Body) × (staging command.document.staging_uri ≡ some body)
          × (sha256_hex body ≡ command.document.content_hash))

  -- A result that reports success comes with the mutation, of an admitted command; any other
  -- leaves the repository as it was.
  abbrev pub Commits :
      DocumentIngestionInput
      → Repository
      → Result Raised (DocumentIngestionResult × Repository)
      → Type 0
  Commits command repo (err e) = Unit {0}
  Commits command repo (ok (result, repo')) =
      ((result.status ≡ succeeded) × Admits command repo × Written command command.mutation repo')
      ⊎ ((result.status ≢ succeeded) × (repo' ≡ repo))

  stored-delete :
      (command : DocumentIngestionInput) (repo : Repository) (r : StoreRecord)
      → stored command.store_key command.document.document_key (
          put command.store_key
            (record r { documents = remove command.document.document_key r.documents })
            repo)
        ≡ none
  stored-delete command repo r =
      let k = command.document.document_key in
      let r' : StoreRecord = record r { documents = remove k r.documents } in
      ground
        (arith, get-put command.store_key command.store_key r' repo, get-remove k k r.documents)

  stored-upsert :
      (command : DocumentIngestionInput) (repo : Repository) (r : StoreRecord)
      → stored command.store_key command.document.document_key (
          put command.store_key
            (record r {
              documents = put command.document.document_key command.document r.documents;
            })
            repo)
        ≡ some command.document
  stored-upsert command repo r =
      let k = command.document.document_key in
      let r' : StoreRecord = record r { documents = put k command.document r.documents } in
      ground (
        arith,
        get-put command.store_key command.store_key r' repo,
        get-put k k command.document r.documents,
      )

  refused :
      (command : DocumentIngestionInput) (repo : Repository) (e : Error)
      → Commits command repo (concluded command repo (err e))
  unfolding ingestion_result
  refused command repo (unknown_store k) = tt
  refused command repo (stale_generation a b) = inr ((λ h. ground (arith, h)), refl)
  refused command repo (state_rejected s) = inr ((λ h. ground (arith, h)), refl)
  refused command repo (rejected t) = inr ((λ h. ground (arith, h)), refl)

  deleted :
      (command : DocumentIngestionInput) (repo : Repository)
      → command.mutation ≡ delete
      → Commits command repo (
          concluded command repo (
            delete_document_if_current command.store_key command.lifecycle_generation
              command.document.document_key repo))
  unfolding delete_document_if_current ingestion_result
  deleted command repo m =
      require_writable_cases (λ h. Commits command repo (concluded command repo h)) repo
        command.store_key command.lifecycle_generation _ (λ e _. refused command repo e)
        (λ r there current writable. inl (
          refl,
          (r, there, current, writable),
          subst
              (λ x. Written command x (
                put command.store_key
                  (record r { documents = remove command.document.document_key r.documents }) repo))
              (sym m) (stored-delete command repo r),
        ))

  upserted :
      (command : DocumentIngestionInput) (repo : Repository) (body : Body)
      → command.mutation ≡ upsert
      → staging command.document.staging_uri ≡ some body
      → sha256_hex body ≡ command.document.content_hash
      → Commits command repo (
          concluded command repo (
            upsert_document_if_current command.store_key command.lifecycle_generation
              command.document repo))
  unfolding upsert_document_if_current ingestion_result
  upserted command repo body m staged same =
      require_writable_cases (λ h. Commits command repo (concluded command repo h)) repo
        command.store_key command.lifecycle_generation _ (λ e _. refused command repo e)
        (λ r there current writable. inl (
          refl,
          (r, there, current, writable),
          subst
              (λ x. Written command x (
                put command.store_key
                  (record r {
                    documents = put command.document.document_key command.document r.documents;
                  })
                  repo))
              (sym m) (stored-upsert command repo r, (body, staged, same)),
        ))

  upsert-Commits :
      (command : DocumentIngestionInput) (repo : Repository)
      → command.mutation ≡ upsert
      → Commits command repo (ingest_upsert sha256_hex staging command repo)
  unfolding ingest_upsert ingestion_result
  upsert-Commits command repo m =
      option_cases (Commits command repo) (staging command.document.staging_uri) _ _ (λ _. tt)
        (λ body staged.
          if_cases (Commits command repo) (sha256_hex body == command.document.content_hash) _ _
            (λ same. upserted command repo body m staged (ground (arith, same)))
            (λ _. inr ((λ h. ground (arith, h)), refl)))

  -- An ingestion that reports success had the store's current generation, in a store that takes
  -- writes, and made its mutation: the document is stored, and the body that was staged for it
  -- has the hash of its reference, or the document is gone. Any other result leaves the
  -- repository as it was.
  pub ingest_staged_document-Commits :
      (command : DocumentIngestionInput) (repo : Repository)
      → Commits command repo (ingest_staged_document sha256_hex staging command repo)
  unfolding ingest_staged_document
  ingest_staged_document-Commits command repo = by_mutation command.mutation refl
    where
      by_mutation :
          (x : DocumentMutation)
          → command.mutation ≡ x
          → Commits command repo (ingest_by sha256_hex staging x command repo)
      by_mutation delete m = deleted command repo m
      by_mutation upsert m = upsert-Commits command repo m

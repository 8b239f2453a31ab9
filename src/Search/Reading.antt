-- ===== src/Search/Reading.antt =====
-- What a query does to the disk.
use jiandu.Prelude.{
  ℕ, suc, ◌≡◌, ◌≢◌, refl, ap, ◌∙◌, subst, Bool, true, false, List, [], ◌∷◌, Option, none, some, map,
}
use jiandu.Result.{Result, ok, err, invalid_input, fail_if}
use jiandu.Text.{Text, text, trimmed}
use jiandu.Types.{MemoryScope, AccessLogEntry}
use jiandu.Index.{LexicalIndexItem}
use jiandu.Recall.{MemoryRecallCandidate}
use jiandu.Paths.{PathBuf, join, indexes_dir}
use jiandu.Store.Disk.{
  Env, Disk, Action, access_log, ◌>>=◌, ◌>>◌, next, return, lift, find_path, find-set_other,
  read_artifact, write_artifact,
}
use jiandu.Store.Steps.{Steps, Preorder, bind-Steps, pure-Steps}
use jiandu.Store.Locate.{require_project_key, get_memory_at_locator, list_memory_documents}
use jiandu.Store.Locate.Lookup.{get_memory_at_locator_keeps}
use jiandu.Search.{
  Filters, MemoryQueryOptions, MemoryQueryItem, MemoryQueryResult, too_long, read_lexical_index,
  as_lexical, some_or, access_log_path, compact_if, record_memory_accesses_inner,
  record_memory_accesses,
}
use jiandu.Search.Queries.{
  or_invalid_data, record_if, related_ids, add_item, query_items, query_index, query_listing,
  query_page, query_scope_inner, query_scope, query_scope_read_only,
}

abbrev Unchanged : Disk → Disk → Type 0
Unchanged d d' = d' ≡ d

unchanged : Preorder Unchanged
unchanged = record { none_done = λ d. refl; both = λ a b c h k. k ∙ h }

module _ (env : Env) where
  open env.float use {F}

  get_memory_same :
      (scope : MemoryScope) (key : Option Text) (id : Text)
      → Steps Unchanged (get_memory_at_locator env scope key id)
  get_memory_same scope key id = record { at = get_memory_at_locator_keeps env scope key id }

  related_same :
      (scope : MemoryScope) (key : Option Text) (b : Bool) (id : Text)
      → Steps Unchanged (related_ids env scope key b id)
  related_same scope key true id =
      bind-Steps unchanged _ (get_memory_same scope key id) (λ found. record { at = λ d. refl })
  related_same scope key false id = pure-Steps unchanged []

  add_item_same :
      (scope : MemoryScope) (key : Option Text) (b : Bool) (per_item : ℕ)
      (candidate : MemoryRecallCandidate F) (found : Option LexicalIndexItem)
      → Steps Unchanged (add_item env scope key b per_item candidate found)
  add_item_same scope key b per_item candidate none = pure-Steps unchanged []
  add_item_same scope key b per_item candidate (some indexed) =
      bind-Steps unchanged _ (related_same scope key b candidate.id)
        (λ related. record { at = λ d. refl })

  query_items_same :
      (scope : MemoryScope) (key : Option Text) (b : Bool) (per_item : ℕ)
      (items : List LexicalIndexItem) (candidates : List (MemoryRecallCandidate F))
      → Steps Unchanged (query_items env scope key b per_item items candidates)
  unfolding query_items
  query_items_same scope key b per_item items [] = pure-Steps unchanged []
  query_items_same scope key b per_item items (candidate ∷ candidates) =
      bind-Steps unchanged _ (add_item_same scope key b per_item candidate _) (λ item.
        bind-Steps unchanged _ (query_items_same scope key b per_item items candidates)
          (λ rest. record { at = λ d. refl }))

  read_lexical_index_same :
      (scope : MemoryScope) (key : Option Text) → Steps Unchanged (read_lexical_index env scope key)
  unfolding read_lexical_index
  read_lexical_index_same scope key =
      bind-Steps unchanged (lift (require_project_key env scope key)) (record { at = λ d. refl })
        (λ key.
          bind-Steps unchanged
            (read_artifact (join (indexes_dir env.resolver scope key) (text "lexical.json")))
            {f = λ found. lift (as_lexical found)} (record { at = λ d. refl })
            (λ found. record { at = λ d. refl }))

  query_index_same :
      (scope : MemoryScope) (key : Option Text) (query : Text) (filters : Filters)
      (options : MemoryQueryOptions)
      → Steps Unchanged (query_index env scope key query filters options)
  unfolding query_index
  query_index_same scope key query filters options =
      bind-Steps unchanged (or_invalid_data env (read_lexical_index env scope key))
        (record { at = λ d. (read_lexical_index_same scope key).at d })
        (λ read.
          bind-Steps unchanged (lift (some_or read)) (record { at = λ d. refl })
            (λ index.
              bind-Steps unchanged _ (query_items_same scope key options.include_related _ _ _)
                (λ items. record { at = λ d. refl })))

  query_listing_same :
      (scope : MemoryScope) (key query : Option Text) (filters : Filters)
      (options : MemoryQueryOptions)
      → Steps Unchanged (query_listing env scope key query filters options)
  unfolding query_listing list_memory_documents
  query_listing_same scope key query filters options =
      bind-Steps unchanged (list_memory_documents env scope key) (record { at = λ d. refl })
        (λ docs. record { at = λ d. refl })

  query_page_same :
      (scope : MemoryScope) (key query nonblank : Option Text) (filters : Filters)
      (options : MemoryQueryOptions)
      → Steps Unchanged (query_page env scope key query nonblank filters options)
  query_page_same scope key query none filters options =
      query_listing_same scope key query filters options
  query_page_same scope key query (some nonblank) filters options =
      query_index_same scope key nonblank filters options

  -- A success that leaves all but one artifact alone.
  abbrev Logged : PathBuf → Disk → Result (Unit {0}) × Disk → Type 0
  Logged path d r =
      (r.0 ≡ ok tt)
      × (r.1.files ≡ d.files)
      × (r.1.logs ≡ d.logs)
      × ((q : PathBuf) → path ≢ q → find_path q r.1.artifacts ≡ find_path q d.artifacts)

  compacted_Logged :
      (path : PathBuf) (b : Bool) (entries : List AccessLogEntry) (d x : Disk)
      → x.files ≡ d.files
      → x.artifacts ≡ d.artifacts
      → x.logs ≡ d.logs
      → Logged path d
          (next (compact_if env b entries x) (λ kept. write_artifact path (access_log kept)))
  compacted_Logged path false entries d x f a l =
      (refl, f, l, λ q n. find-set_other path q _ x.artifacts n ∙ ap (find_path q) a)
  compacted_Logged path true entries d x f a l =
      (refl, f, l, λ q n. find-set_other path q _ x.artifacts n ∙ ap (find_path q) a)

  record_inner_Logged :
      (path : PathBuf) (ids : List Text) (d : Disk)
      → Logged path d (record_memory_accesses_inner env path ids d)
  unfolding record_memory_accesses_inner
  record_inner_Logged path ids d =
      compacted_Logged path _ _ d (record d { readings = suc d.readings }) refl refl refl

  record_Logged :
      (scope : MemoryScope) (key : Option Text) (ids : List Text) (d : Disk)
      → Logged (access_log_path env scope key) d (record_memory_accesses env scope key ids d)
  record_Logged scope key [] d = (refl, refl, refl, λ q n. refl)
  record_Logged scope key (id ∷ ids) d =
      record_inner_Logged (access_log_path env scope key) (id ∷ ids) d

  -- The recorded and the unrecorded run of one query: recorded, nothing changes but how often the clock
  -- was read, and the access log of the scope with the key that the query has.
  abbrev pub Agree :
      MemoryScope
      → Option Text
      → Disk
      → Result (MemoryQueryResult F) × Disk
      → Result (MemoryQueryResult F) × Disk
      → Type 0
  Agree scope project_key d recorded unrecorded =
      (unrecorded.1 ≡ d)
      × (recorded.0 ≡ unrecorded.0)
      × (recorded.1.files ≡ d.files)
      × (recorded.1.logs ≡ d.logs)
      × ((q : PathBuf)
          → ((key : Option Text)
              → require_project_key env scope project_key ≡ ok key
              → access_log_path env scope key ≢ q)
          → find_path q recorded.1.artifacts ≡ find_path q d.artifacts)

  abbrev finish :
      Bool → MemoryScope → Option Text → MemoryQueryResult F → Action (MemoryQueryResult F)
  finish b scope key result = record_if env b scope key result.items >> return result

  module _ (scope : MemoryScope) (project_key : Option Text) where
    Agree-same :
        (d : Disk) (r : Result (MemoryQueryResult F) × Disk)
        → r.1 ≡ d
        → Agree scope project_key d r r
    Agree-same d r h = (
      h,
      refl,
      ap (λ (y : Disk). y.files) h,
      ap (λ (y : Disk). y.logs) h,
      λ q n. ap (λ (y : Disk). find_path q y.artifacts) h,
    )

    module _ (key : Option Text) (at : require_project_key env scope project_key ≡ ok key) where
      Logged-Agree :
          (result : MemoryQueryResult F) (d : Disk) (r : Result (Unit {0}) × Disk)
          → Logged (access_log_path env scope key) d r
          → Agree scope project_key d (next r (λ u. return result)) (ok result, d)
      Logged-Agree result d (ok u, x) h =
          let (o, f, l, a) = h in (refl, refl, f, l, λ q n. a q (n key at))
      Logged-Agree result d (err e, x) h = let f = h.0 in cc

      page_Agree :
          (d : Disk) (r : Result (MemoryQueryResult F) × Disk)
          → r.1 ≡ d
          → Agree scope project_key d
              (next r (finish true scope key))
              (next r (finish false scope key))
      page_Agree d (err e, x) h = Agree-same d (err e, x) h
      page_Agree d (ok result, x) h =
          subst
            (λ y.
              Agree scope project_key y (finish true scope key result x)
                (finish false scope key result x))
            h
            (Logged-Agree result x _ (
              record_Logged scope key (map (λ (item : MemoryQueryItem F). item.id) result.items) x))

      refused_Agree :
          (query : Option Text) (filters : Filters) (options : MemoryQueryOptions) (d : Disk)
          (fits : Result (Unit {0}))
          → Agree scope project_key d
              (next
                (fits, d)
                (λ u.
                  query_page env scope key query (trimmed query) filters options
                  >>= finish true scope key))
              (next
                (fits, d)
                (λ u.
                  query_page env scope key query (trimmed query) filters options
                  >>= finish false scope key))
      refused_Agree query filters options d (err e) = Agree-same d (err e, d) refl
      refused_Agree query filters options d (ok u) =
          page_Agree d _ ((query_page_same scope key query (trimmed query) filters options).at d)

  -- A query gives the same result whether it records its accesses or not. Unrecorded, it leaves the
  -- whole disk as it is; recorded, it changes no document and no audit log, and of the derived files
  -- only the access log of its scope, for the project that the query names.
  pub query_scope-read_only :
      (scope : MemoryScope) (project_key query : Option Text) (filters : Filters)
      (options : MemoryQueryOptions) (d : Disk)
      → Agree scope project_key d
          (query_scope env scope project_key query filters options d)
          (query_scope_read_only env scope project_key query filters options d)
  unfolding query_scope query_scope_read_only query_scope_inner
  query_scope-read_only scope project_key query filters options d =
      keyed (require_project_key env scope project_key) refl
    where
      keyed :
          (r : Result (Option Text))
          → require_project_key env scope project_key ≡ r
          → Agree scope project_key d
              (next
                (r, d)
                (λ key. lift (fail_if (too_long (trimmed query)) invalid_input) >>= λ u.
                  query_page env scope key query (trimmed query) filters options
                  >>= finish true scope key))
              (next
                (r, d)
                (λ key. lift (fail_if (too_long (trimmed query)) invalid_input) >>= λ u.
                  query_page env scope key query (trimmed query) filters options
                  >>= finish false scope key))
      keyed (err e) at = Agree-same scope project_key d (err e, d) refl
      keyed (ok key) at =
          refused_Agree scope project_key key at query filters options d
            (fail_if (too_long (trimmed query)) invalid_input)

-- ===== src/Gardener/Eviction.antt =====
-- Which memories the capacity pass archives.
use jiandu.Prelude.{
  ℕ, ◌+◌, ◌≤◌, ◌<◌, ◌≡◌, ◌⊎◌, inl, inr, refl, sym, ap, subst, ◌∙◌, suc, none, some, Bool, true,
  false, ◌||◌, List, [], ◌∷◌, Option, Bool-cases, All, All-imp, All-take, length, length-take,
  length-map, filter, take, ◌==◌, if◌then◌else◌, arith, is_empty,
}
use jiandu.Prelude.Places.{All-map}
use jiandu.Prelude.Sort.{sort_by-All}
use jiandu.Prelude.Classes.{nat_eq, list_eq, contains}
use jiandu.Result.{Result, ok, ok_injective}
use jiandu.Text.{Text}
use jiandu.Types.{MemoryScope, DurableMemoryDocument}
use jiandu.AccessLog.{AccessStats}
use jiandu.Store.Disk.{Env, Disk, Artifact, find_path, next-eq-ok, lift-eq-ok, lift, return, ◌>>=◌}
use jiandu.Store.Locate.{require_project_key, list_memory_documents}
use jiandu.Store.Status.{cons_if}
use jiandu.Search.{access_log_stats, access_log_path, stats_of}
use jiandu.Store.Keeps.{refresh_scope_artifacts_files}
use jiandu.Gardener.Archiving.{
  HasArchived, ChangesNone, Elsewhere, archive_each-ChangesNone, archive_each-HasArchived,
  All-HasArchived-files,
}
use jiandu.Gardener.{
  is_scorable, is_evictable, sort_evictable, archive_one, archive_each, refresh_unless, chosen_ids,
  target_of, evict, evict_if, overflows, enforce_scope_capacity,
}

-- A project memory that is Active or Stale has the id.
abbrev pub HasEvictable : List DurableMemoryDocument → Text → Type 0
HasEvictable [] id = ⊥
HasEvictable (doc ∷ docs) id =
    ((is_evictable doc ≡ true) × (doc.frontmatter.id ≡ id)) ⊎ HasEvictable docs id

abbrev OfEvictable : List DurableMemoryDocument → DurableMemoryDocument → Type 0
OfEvictable docs doc = HasEvictable docs doc.frontmatter.id

filter-HasEvictable :
    (docs : List DurableMemoryDocument) → All (OfEvictable docs) (filter is_evictable docs)
filter-HasEvictable [] = tt
filter-HasEvictable (doc ∷ docs) =
    let rest =
      All-imp (OfEvictable docs) (OfEvictable (doc ∷ docs)) (λ x h. inr h)
        (filter is_evictable docs) (filter-HasEvictable docs) in
    elim (Bool-cases (is_evictable doc)) [ inl e ↦ rw e (inl (e, refl), rest) | inr e ↦ rw e rest ]

module _ (env : Env) where
  sort_evictable-All :
      (P : DurableMemoryDocument → Type 0) (now : ℕ) (stats : List (Text × AccessStats env.float))
      (docs : List DurableMemoryDocument)
      → All P docs
      → All P (sort_evictable env now stats docs)
  unfolding sort_evictable
  sort_evictable-All P now stats docs h = sort_by-All _ P docs h

  chosen-HasEvictable :
      (target now : ℕ) (stats : List (Text × AccessStats env.float))
      (docs : List DurableMemoryDocument)
      → All (HasEvictable docs) (chosen_ids env target now stats docs)
  chosen-HasEvictable target now stats docs =
      All-map (OfEvictable docs) (HasEvictable docs)
        (λ (doc : DurableMemoryDocument). doc.frontmatter.id)
        (take target (sort_evictable env now stats (filter is_evictable docs))) (λ doc h. h)
        (All-take (OfEvictable docs) target
          (sort_evictable env now stats (filter is_evictable docs))
          (sort_evictable-All (OfEvictable docs) now stats (filter is_evictable docs)
            (filter-HasEvictable docs)))

  chosen-bounded :
      (target now : ℕ) (stats : List (Text × AccessStats env.float))
      (docs : List DurableMemoryDocument)
      → length (chosen_ids env target now stats docs) ≤ target
  chosen-bounded target now stats docs =
      let ranked = sort_evictable env now stats (filter is_evictable docs) in
      omega (
        arith,
        length-map (λ (doc : DurableMemoryDocument). doc.frontmatter.id) (take target ranked),
        length-take target ranked,
      )

  cons_if-All :
      (P : Text → Type 0) (b : Bool) (id : Text) (ids : List Text)
      → P id
      → All P ids
      → All P (cons_if b id ids)
  cons_if-All P true id ids p ps = (p, ps)
  cons_if-All P false id ids p ps = ps

  archive_each-All :
      (P : Text → Type 0) (scope : MemoryScope) (key : Option Text)
      (docs : List DurableMemoryDocument) (ids : List Text) (d d' : Disk)
      → archive_each env scope key docs d ≡ (ok ids, d')
      → All (λ (doc : DurableMemoryDocument). P doc.frontmatter.id) docs
      → All P ids
  unfolding archive_each
  archive_each-All P scope key [] ids d d' h all = subst (All P) (ok_injective (ap (λ r. r.0) h)) tt
  archive_each-All P scope key (doc ∷ docs) ids d d' h all =
      let (changed, x, _, g) = next-eq-ok (archive_one env scope key doc d) _ h in
      let (rest, y, archived, k) = next-eq-ok (archive_each env scope key docs x) _ g in
      subst (All P) (ok_injective (ap (λ r. r.0) k)) (
        cons_if-All P changed doc.frontmatter.id rest all.0
          (archive_each-All P scope key docs rest x y archived all.1))

  abbrev pub chosen_documents : List Text → List DurableMemoryDocument → List DurableMemoryDocument
  chosen_documents chosen docs =
      filter (λ (doc : DurableMemoryDocument). contains chosen doc.frontmatter.id) docs

  -- At most the allowed number of ids were chosen, and no more than the scope has over its capacity,
  -- each the id of a memory that may be evicted. Of the files, none but those of the chosen memories
  -- was changed; the ids returned are of chosen memories, whose files are archived records now.
  abbrev pub IsEviction : ℕ → ℕ → List DurableMemoryDocument → List Text → Disk → Disk → Type 0
  IsEviction capacity max_archivals docs ids d d' =
      (capacity < length (filter is_scorable docs))
      × ((chosen : List Text) × (length chosen ≤ max_archivals)
          × (length chosen + capacity ≤ length (filter is_scorable docs))
          × All (HasEvictable docs) chosen
          × All (λ id. contains chosen id ≡ true) ids
          × All (HasArchived env d' (chosen_documents chosen docs)) ids
          × ChangesNone env (Elsewhere env (chosen_documents chosen docs)) d d')

  overflows-over :
      (capacity : ℕ) (docs : List DurableMemoryDocument)
      → overflows env capacity docs ≡ true
      → capacity < length (filter is_scorable docs)
  overflows-over capacity docs h = ground arith

  filter-contains :
      (chosen : List Text) (docs : List DurableMemoryDocument)
      → All
          (λ (doc : DurableMemoryDocument). contains chosen doc.frontmatter.id ≡ true)
          (filter (λ (doc : DurableMemoryDocument). contains chosen doc.frontmatter.id) docs)
  filter-contains chosen [] = tt
  filter-contains chosen (doc ∷ docs) = elim (Bool-cases (contains chosen doc.frontmatter.id)) [
    | inl e ↦ rw e (e, filter-contains chosen docs)
    | inr e ↦ rw e (filter-contains chosen docs)
  ]

  access_log_stats-files :
      (scope : MemoryScope) (key : Option Text) (d : Disk)
      → (access_log_stats env scope key d).1.files ≡ d.files
  unfolding access_log_stats
  access_log_stats-files scope key d = read (find_path (access_log_path env scope key) d.artifacts)
    where
      read : (found : Option Artifact) → (stats_of env found d).1.files ≡ d.files
      read none = refl
      read (some artifact) = refl

  refresh_unless-files :
      (b : Bool) (scope : MemoryScope) (key : Option Text) (d : Disk)
      → (refresh_unless env b scope key d).1.files ≡ d.files
  refresh_unless-files true scope key d = refl
  refresh_unless-files false scope key d = (refresh_scope_artifacts_files env scope key).at d

  evict-IsEviction :
      (scope : MemoryScope) (key : Option Text) (capacity max_archivals now : ℕ)
      (docs : List DurableMemoryDocument) (ids : List Text) (d d' : Disk)
      → evict env scope key capacity max_archivals now docs d ≡ (ok ids, d')
      → capacity < length (filter is_scorable docs)
      → IsEviction capacity max_archivals docs ids d d'
  unfolding evict
  evict-IsEviction scope key capacity max_archivals now docs ids d d' h over =
      let (stats, x, logged, g) = next-eq-ok (access_log_stats env scope key d) _ h in
      let target = target_of env capacity max_archivals docs in
      let chosen = chosen_ids env target now stats docs in
      let left = chosen_documents chosen docs in
      let (archived_ids, y, archived, k) = next-eq-ok (archive_each env scope key left x) _ g in
      let (u, z, refreshed, l) =
        next-eq-ok (refresh_unless env (is_empty archived_ids) scope key y) _ k in
      let same_ids : archived_ids ≡ ids = ok_injective (ap (λ r. r.0) l) in
      let before : x.files ≡ d.files =
        ap (λ (r : Result (List (Text × AccessStats env.float)) × Disk). r.1.files) (sym logged)
        ∙ access_log_stats-files scope key d in
      let after : d'.files ≡ y.files =
        ap (λ (r : Result (List Text) × Disk). r.1.files) (sym l)
        ∙ ap (λ (r : Result (Unit {0}) × Disk). r.1.files) (sym refreshed)
        ∙ refresh_unless-files (is_empty archived_ids) scope key y in
      (
        over,
        (
          chosen,
          omega (arith, chosen-bounded target now stats docs),
          omega (arith, over, chosen-bounded target now stats docs),
          chosen-HasEvictable target now stats docs,
          subst (All (λ id. contains chosen id ≡ true)) same_ids (
              archive_each-All (λ id. contains chosen id ≡ true) scope key left archived_ids x y
                archived (filter-contains chosen docs)),
          subst (All (HasArchived env d' left)) same_ids (
              All-HasArchived-files env y d' left archived_ids after
                (archive_each-HasArchived env scope key left archived_ids x y archived)),
          λ p outside.
              ap (find_path p) after
              ∙ ap (λ (r : Result (List Text) × Disk). find_path p r.1.files) (sym archived)
              ∙ (archive_each-ChangesNone env scope key left).at x p outside
              ∙ ap (find_path p) before,
        ),
      )

  -- Nothing is archived and no file is changed, or some memories are evicted.
  abbrev pub Evicts : ℕ → ℕ → List DurableMemoryDocument → List Text → Disk → Disk → Type 0
  Evicts capacity max_archivals docs ids d d' =
      ((ids ≡ []) × (d'.files ≡ d.files)) ⊎ IsEviction capacity max_archivals docs ids d d'

  evict_if-Evicts :
      (b : Bool) (scope : MemoryScope) (key : Option Text) (capacity max_archivals : ℕ)
      (docs : List DurableMemoryDocument) (ids : List Text) (d d' : Disk)
      → overflows env capacity docs ≡ b
      → evict_if env b scope key capacity max_archivals docs d ≡ (ok ids, d')
      → Evicts capacity max_archivals docs ids d d'
  evict_if-Evicts false scope key capacity max_archivals docs ids d d' e h = inl (
    sym (ok_injective (ap (λ r. r.0) h)),
    ap (λ (r : Result (List Text) × Disk). r.1.files) (sym h),
  )
  evict_if-Evicts true scope key capacity max_archivals docs ids d d' e h =
      let (over, rest) =
        evict-IsEviction scope key capacity max_archivals _ docs ids
          (record d { readings = suc d.readings }) d' h (overflows-over capacity docs e) in
      inr (over, rest)

  module _ (scope : MemoryScope) (project_key : Option Text) (capacity max_archivals : ℕ)
      (ids : List Text) (d d' : Disk) where
    abbrev pub Evicted : Type 0
    Evicted =
        ((ids ≡ []) × (d'.files ≡ d.files))
        ⊎ ((key : Option Text) × (docs : List DurableMemoryDocument) × (require_project_key env
                scope project_key
              ≡ ok key)
            × (list_memory_documents env scope key d ≡ (ok docs, d))
            × IsEviction capacity max_archivals docs ids d d')

    listed_then :
        (key : Option Text) (docs : List DurableMemoryDocument)
        → require_project_key env scope project_key ≡ ok key
        → list_memory_documents env scope key d ≡ (ok docs, d)
        → Evicts capacity max_archivals docs ids d d'
        → Evicted
    listed_then key docs found listed (inl nothing) = inl nothing
    listed_then key docs found listed (inr evicted) = inr (key, docs, found, listed, evicted)

    list_memory_documents-keeps :
        (key : Option Text) → (list_memory_documents env scope key d).1 ≡ d
    unfolding list_memory_documents
    list_memory_documents-keeps key = refl

    unless_off :
        (off : Bool)
        → (if off
              then return []
              else (lift (require_project_key env scope project_key) >>= λ key.
                  list_memory_documents env scope key >>= λ docs.
                  evict_if env (overflows env capacity docs) scope key capacity max_archivals docs))
            d
          ≡ (ok ids, d')
        → Evicted
    unless_off true h = inl (
      sym (ok_injective (ap (λ r. r.0) h)),
      ap (λ (r : Result (List Text) × Disk). r.1.files) (sym h),
    )
    unless_off false h =
        let (key, found, g) = lift-eq-ok (require_project_key env scope project_key) d _ h in
        let (docs, x, listed, k) = next-eq-ok (list_memory_documents env scope key d) _ g in
        let same : x ≡ d = sym (ap (λ r. r.1) listed) ∙ list_memory_documents-keeps key in
        listed_then key docs found (listed ∙ ap (λ z. (ok docs, z)) same) (
          subst (λ z. Evicts capacity max_archivals docs ids z d') same
            (evict_if-Evicts (overflows env capacity docs) scope key capacity max_archivals docs ids
              x d' refl k))

    -- The capacity pass archives nothing and changes no file, or the scope had more Active and Stale
    -- memories than its capacity. Then it chose at most `max_archivals` memories, and no more than
    -- there were too many, all of them project memories that were Active or Stale. No file but those
    -- of the chosen memories is changed, and every memory whose id is returned is one of them and is
    -- an archived record on the disk.
    pub enforce_scope_capacity-Evicted :
        enforce_scope_capacity env scope project_key capacity max_archivals d ≡ (ok ids, d')
        → Evicted
    unfolding enforce_scope_capacity
    enforce_scope_capacity-Evicted h = unless_off (capacity == 0 || max_archivals == 0) h

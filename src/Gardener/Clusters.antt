-- ===== src/Gardener/Clusters.antt =====
-- `scan_duplicate_clusters` of memory_store/store.rs.
use jiandu.Prelude.{
  ℕ, suc, ◌+◌, ◌-◌, Bool, not, ◌&&◌, ◌||◌, List, [], ◌∷◌, ◌++◌, Option, if◌then◌else◌, length, map,
  filter, take, is_empty, max, compare,
}
use jiandu.Prelude.Classes.{nat_eq, list_eq, contains}
use jiandu.Prelude.Sort.{then_with, not_after, sort_by}
use jiandu.Prelude.Order.{text_cmp}
use jiandu.Text.{Text}
use jiandu.Float.{Float, cmp_or_equal, ge, gt}
use jiandu.Types.{MemoryScope, DurableMemoryType, DurableMemoryDocument}
use jiandu.Terms.{derive_summary}
use jiandu.Store.Disk.{Env, Action, ◌>>=◌, return, lift}
use jiandu.Store.Locate.{require_project_key, list_memory_documents}
use jiandu.Gardener.Scans.{is_active, set_of, shared}

pub record DuplicateClusterMember : Type 0 where
  pub id : Text
  pub title : Text
  pub memory_type : DurableMemoryType
  pub snippet : Text

pub record DuplicateCluster (F : Type 0) : Type 0 where
  pub members : List DuplicateClusterMember
  pub max_score : F

pub record DuplicateScanReport (F : Type 0) : Type 0 where
  pub scope : MemoryScope
  pub project_key : Option Text
  pub scanned : ℕ
  pub clustered : ℕ
  pub threshold : F
  pub clusters : List (DuplicateCluster F)

-- An active memory, at its index, with its set of keywords.
pub record Entry : Type 0 where
  pub index : ℕ
  pub doc : DurableMemoryDocument
  pub keywords : List Text

unfoldable pub entries_from : ℕ → List DurableMemoryDocument → List Entry
entries_from index [] = []
entries_from index (doc ∷ docs) =
    record { index = index; doc = doc; keywords = set_of doc.frontmatter.retrieval.keywords }
    ∷ entries_from (suc index) docs

-- `used[i] || keyword_sets[i].is_empty()`
abbrev pub is_skipped : List ℕ → Entry → Bool
is_skipped used entry = contains used entry.index || is_empty entry.keywords

module _ (float : Float) where
  open float use {F, lit, of_ℕ, mul, div, round}

  -- `clamp(0.0, 1.0)`
  abbrev pub clamp_unit : F → F
  clamp_unit x =
      if gt float (lit 0 10) x then lit 0 10 else if gt float x (lit 10 10) then lit 10 10 else x

  abbrev pub jaccard : Entry → Entry → F
  jaccard a b =
      let n = length (shared a.keywords b.keywords) in
      div (of_ℕ n) (of_ℕ ((length a.keywords + length b.keywords) - n))

  abbrev pub is_partner : F → List ℕ → Entry → Entry → Bool
  is_partner min_score used seed entry =
      not (is_skipped used entry)
      && (not (is_empty (shared seed.keywords entry.keywords))
          && ge float (jaccard seed entry) min_score)

  unfoldable pub sort_partners : Entry → List Entry → List Entry
  unfolding sort_by
  sort_partners seed = sort_by (λ left right. not_after (
      then_with (cmp_or_equal float (jaccard seed right) (jaccard seed left))
        (text_cmp left.doc.frontmatter.id right.doc.frontmatter.id)))

  -- The strongest partners of a seed among the entries after it.
  unfoldable pub partners_of : F → ℕ → List ℕ → Entry → List Entry → List Entry
  partners_of min_score max_members used seed rest =
      take (max_members - 1) (sort_partners seed (filter (is_partner min_score used seed) rest))

  abbrev pub indices : List Entry → List ℕ
  indices entries = map (λ (entry : Entry). entry.index) entries

  -- The loop over the seeds: each cluster with its seed first.
  unfoldable pub clusters_from : F → ℕ → List ℕ → List Entry → List (List Entry)
  clusters_from min_score max_members used [] = []
  clusters_from min_score max_members used (seed ∷ rest) =
      let partners = partners_of min_score max_members used seed rest in
      let skipped = clusters_from min_score max_members used rest in
      let later = clusters_from min_score max_members (indices (seed ∷ partners) ++ used) rest in
      if is_skipped used seed || is_empty partners then skipped else (seed ∷ partners) ∷ later

  abbrev pub best_score : List Entry → F
  best_score [] = lit 0 10
  best_score (seed ∷ []) = lit 0 10
  best_score (seed ∷ partner ∷ partners) = jaccard seed partner

  abbrev pub cluster_member : Entry → DuplicateClusterMember
  cluster_member entry = record {
    id = entry.doc.frontmatter.id;
    title = entry.doc.frontmatter.title;
    memory_type = entry.doc.frontmatter.memory_type;
    snippet = derive_summary entry.doc.body 200;
  }

  abbrev pub cluster_of : List Entry → DuplicateCluster F
  cluster_of entries = record {
    members = map cluster_member entries;
    max_score = div (round (mul (best_score entries) (lit 1000 10))) (lit 1000 10);
  }

  abbrev pub first_id : List DuplicateClusterMember → Text
  first_id [] = []
  first_id (member ∷ members) = member.id

  unfoldable pub sort_clusters : List (DuplicateCluster F) → List (DuplicateCluster F)
  unfolding sort_by
  sort_clusters = sort_by (λ left right. not_after (
      then_with (cmp_or_equal float right.max_score left.max_score) (
        then_with (compare (length right.members) (length left.members))
          (text_cmp (first_id left.members) (first_id right.members)))))

  abbrev pub count_members : List (List Entry) → ℕ
  count_members [] = 0
  count_members (cluster ∷ clusters) = length cluster + count_members clusters

module _ (env : Env) where
  open env.float use {F}

  unfoldable pub scan_duplicate_clusters :
      MemoryScope → Option Text → F → ℕ → ℕ → Action (DuplicateScanReport F)
  scan_duplicate_clusters scope project_key min_score max_members_per_cluster limit = do
    key ← lift (require_project_key env scope project_key)
    docs ← list_memory_documents env scope key
    let entries = entries_from 0 (filter is_active docs)
    let threshold = clamp_unit env.float min_score
    let found = clusters_from env.float threshold (max max_members_per_cluster 2) [] entries
    return (record {
      scope = scope;
      project_key = key;
      scanned = length entries;
      clustered = count_members env.float found;
      threshold = threshold;
      clusters = take (max limit 1) (sort_clusters env.float (map (cluster_of env.float) found));
    })

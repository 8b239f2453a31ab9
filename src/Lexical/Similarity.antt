-- ===== src/Lexical/Similarity.antt =====
-- `SimilarityCorpus` of memory_store/lexical_bm25.rs.
use jiandu.Prelude.{ℕ, List, [], ◌∷◌, none, some, max, length, unwrap_or, if◌then◌else◌}
use jiandu.Text.{Text}
use jiandu.Float.{Float, le, gt}
use jiandu.Assoc.{lookup, keys}
use jiandu.Lexical.Bm25.{count_terms}

pub record SimilarityCorpus : Type 0 where
  pub df : List (Text × ℕ)
  pub n : ℕ

module _ (float : Float) where
  open float use {F, lit, of_ℕ, add, mul, div, ln, sqrt, epsilon}

  count_bags : List (Text × ℕ) → List (List (Text × F)) → List (Text × ℕ)
  count_bags df [] = df
  count_bags df (bag ∷ bags) = count_bags (count_terms df (keys bag)) bags

  unfoldable pub build_similarity : List (List (Text × F)) → SimilarityCorpus
  unfolding count_bags
  build_similarity bags = record { df = count_bags [] bags; n = length bags }

  abbrev pub idf : SimilarityCorpus → Text → F
  idf corpus term =
      ln (add (lit 1 1) (div (of_ℕ corpus.n) (of_ℕ (max (unwrap_or (lookup term corpus.df) 1) 1))))

  -- The loop over the terms of `a`, with `dot` and `norm_a`.
  dot_and_norm : SimilarityCorpus → List (Text × F) → F → F → List (Text × F) → F × F
  dot_and_norm corpus b dot norm [] = (dot, norm)
  dot_and_norm corpus b dot norm ((term, wa) ∷ a) =
      let va = mul wa (idf corpus term) in
      dot_and_norm corpus b
        (elim (lookup term b) [
          | none ↦ dot
          | some wb ↦ add dot (mul va (mul wb (idf corpus term)))
        ])
        (add norm (mul va va)) a

  norm_of : SimilarityCorpus → F → List (Text × F) → F
  norm_of corpus norm [] = norm
  norm_of corpus norm ((term, wb) ∷ b) =
      let vb = mul wb (idf corpus term) in norm_of corpus (add norm (mul vb vb)) b

  abbrev clamp : F → F
  clamp x = if gt float (lit 0 1) x then lit 0 1 else if gt float x (lit 1 1) then lit 1 1 else x

  unfoldable pub cosine : SimilarityCorpus → List (Text × F) → List (Text × F) → F
  unfolding dot_and_norm norm_of
  cosine corpus a b =
      let (dot, norm_a) = dot_and_norm corpus b (lit 0 1) (lit 0 1) a in
      let denom = mul (sqrt norm_a) (sqrt (norm_of corpus (lit 0 1) b)) in
      if le float denom epsilon then lit 0 1 else clamp (div dot denom)

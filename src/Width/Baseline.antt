-- ===== src/Width/Baseline.antt =====
-- Text that no profile measures (src/width.rs): the clusters do not matter.
use qwertty.Caps.{Capabilities}
use qwertty.Prelude.{
  ℕ, Bool, ◌+◌, ◌≡◌, refl, ap, ◌∙◌, Option, none, List, [], ◌∷◌, ◌++◌, map, concat, arith,
}
use qwertty.Width.{
  Profile, profile_for, baseline_width, cluster_width, width_of, sum_of, is_clustering,
}

module _ (graphemes : List ℕ → List (List ℕ)) (char_width : ℕ → Option ℕ)
    (profiles : List Profile) where
  baseline_width-append :
      (xs ys : List ℕ)
      → baseline_width graphemes char_width profiles (xs ++ ys)
        ≡ baseline_width graphemes char_width profiles xs
          + baseline_width graphemes char_width profiles ys
  unfolding baseline_width sum_of
  baseline_width-append [] ys = omega arith
  baseline_width-append (x ∷ xs) ys = omega (arith, baseline_width-append xs ys)

  baseline_width-concat :
      (mode_2027 : Bool) (clusters : List (List ℕ))
      → sum_of (
          map
            (λ cluster. cluster_width graphemes char_width profiles cluster none mode_2027)
            clusters)
        ≡ baseline_width graphemes char_width profiles (concat clusters)
  unfolding sum_of cluster_width baseline_width
  baseline_width-concat mode_2027 [] = refl
  baseline_width-concat mode_2027 (cluster ∷ clusters) = omega (
    arith,
    baseline_width-concat mode_2027 clusters,
    baseline_width-append cluster (concat clusters),
  )

  -- Without a profile for the terminal, the width of a text is the sum of its characters' widths.
  pub width_of-baseline_width :
      (s : List ℕ) (caps : Capabilities)
      → concat (graphemes s) ≡ s
      → profile_for graphemes char_width profiles caps.identity ≡ none
      → width_of graphemes char_width profiles s caps
        ≡ baseline_width graphemes char_width profiles s
  unfolding width_of
  width_of-baseline_width s caps whole plain = rw plain (
      baseline_width-concat (is_clustering caps.grapheme_clustering.value) (graphemes s)
      ∙ ap (baseline_width graphemes char_width profiles) whole)

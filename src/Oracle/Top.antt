-- ===== src/Oracle/Top.antt =====
-- What `predict` of dee.cpp/src/oracle.cpp returns.
use dee.Prelude.{
  ℕ, zero, suc, ◌+◌, ◌≤◌, ◌≡◌, refl, sym, ap, ◌∙◌, Bool, some, List, arith, ltb, All, count,
  count-append, count-range_from, in_range, range_from, length,
}
use mathlib.Core.Path.{subst}
use dee.Kernels.{Arithmetic}
use dee.Oracle.{Vector, min_of, first, sort, OracleNet, forward, top, predict}
use dee.Oracle.Sort.{Falls, sort-Falls, Falls-append, count-sort, length-sort, first-rest}

length-range_from : (n i : ℕ) → length (range_from n i) ≡ n
unfolding range_from
length-range_from zero i = refl
length-range_from (suc n) i = ap suc (length-range_from n (suc i))

module _ (A : Arithmetic) (greater : A.Float → A.Float → Bool) (rank : A.Float → ℕ)
    (greater_rank : (a b : A.Float) → greater a b ≡ ltb (rank b) (rank a)) where
  -- The experts of a list and those left out are together each expert once; the list falls by
  -- logit, and none left out has a greater logit than one in the list.
  pub record IsTop (experts topk : ℕ) (logits : ℕ → A.Float) (out : List ℕ) : Type 0 where
    pub left : List ℕ
    pub all_once : (e : ℕ) → count e out + count e left ≡ in_range experts e
    pub size : length out ≡ min_of topk experts
    pub falls :
        Falls
          (λ a b. greater (logits a) (logits b))
          (λ e. rank (logits e))
          (λ a b. greater_rank (logits a) (logits b))
          out
    pub best : All (λ a. All (λ b. rank (logits b) ≤ rank (logits a)) left) out

  top-IsTop :
      (experts topk : ℕ) (logits : ℕ → A.Float)
      → IsTop experts topk logits (top A greater experts topk logits)
  unfolding top
  top-IsTop experts topk logits =
      let above : ℕ → ℕ → Bool = λ a b. greater (logits a) (logits b) in
      let law : (a b : ℕ)
          → greater (logits a) (logits b) ≡ ltb (rank (logits b)) (rank (logits a)) =
        λ a b. greater_rank (logits a) (logits b) in
      let sorted : List ℕ = sort above (range_from experts 0) in
      let size : length sorted ≡ experts =
        length-sort above (λ e. rank (logits e)) law (range_from experts 0)
        ∙ length-range_from experts 0 in
      let (rest, (split, len)) = first-rest (min_of topk experts) sorted (ground (arith, size)) in
      let (falls, best) =
        Falls-append above (λ e. rank (logits e)) law (first (min_of topk experts) sorted) rest
          (subst (Falls above (λ e. rank (logits e)) law) split
            (sort-Falls above (λ e. rank (logits e)) law (range_from experts 0))) in
      record {
        left = rest;
        all_once = λ e.
            sym (count-append e (first (min_of topk experts) sorted) rest)
            ∙ ap (count e) (sym split)
            ∙ count-sort above (λ x. rank (logits x)) law e (range_from experts 0)
            ∙ count-all experts e;
        size = len;
        falls = falls;
        best = best;
      }
    where
      count-all : (n e : ℕ) → count e (range_from n 0) ≡ in_range n e
      count-all n e = ground (arith, count-range_from n 0 e)

  -- For a layer that the network has, `predict` returns the experts of greatest logit: as many as
  -- asked for, or all, each at most once, by falling logit, and none left out has a greater one.
  pub predict-IsTop :
      (net : OracleNet A greater) (layer topk : ℕ) (x : ℕ → A.Float) (logits : Vector A.Float)
      → forward A greater net layer x ≡ some logits
      → (out : List ℕ) × (predict A greater net layer x topk ≡ some out)
        × IsTop net.experts topk logits.at out
  unfolding predict
  predict-IsTop net layer topk x logits e = (
    top A greater net.experts topk logits.at,
    rw (e, predict) refl,
    top-IsTop net.experts topk logits.at,
  )

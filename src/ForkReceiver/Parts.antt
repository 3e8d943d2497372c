-- ===== src/ForkReceiver/Parts.antt =====
-- The parts of a fork.
use powder_raft.Common.{
  ℕ, ap, sym, length, arith, List, All, some, subst, none, if_both, Option, ltb, refl, ◌≡◌, ◌≢◌,
  ◌∙◌, ◌++◌, ◌∷◌, ◌==◌, [], if◌then◌else◌, ltb_of_lt, append_assoc, append_nothing,
}
use powder_raft.ForkReceiver.{Part, split_parts}
use powder_raft.Types.{HalfSerializedBlock}

abbrev pub concat : List Part → Part
concat [] = []
concat (p ∷ ps) = p ++ concat ps

-- No block is lost or moved.
abbrev pub Splits : Part → Option (List Part) → Type 0
Splits blocks none = Unit {0}
Splits blocks (some parts) = (concat parts ≡ blocks) × All (λ p. p ≢ []) parts

one_part : (part : Part) → Splits part (some (if ltb 0 (length part) then part ∷ [] else []))
one_part [] = (refl, tt)
one_part (b ∷ bs) =
    rw (ltb_of_lt 0 (length (b ∷ bs)) (omega arith))
      (append_nothing (b ∷ bs), ((λ h. ground arith), tt))

nonempty : (part : Part) (b : HalfSerializedBlock) → part ++ b ∷ [] ≢ []
nonempty [] b h = ground arith
nonempty (c ∷ part) b h = ground arith

pub split_parts-Splits :
    (config : ℕ) (part : Part) (blocks : List HalfSerializedBlock)
    → Splits (part ++ blocks) (split_parts config part blocks)
unfolding split_parts
split_parts-Splits config part [] =
    subst (λ bs. Splits bs (split_parts config part [])) (sym (append_nothing part)) (one_part part)
split_parts-Splits config part (b ∷ bs) =
    if_both (Splits (part ++ b ∷ bs)) (b.config_num == config) _ _
      (subst (λ xs. Splits xs (split_parts config (part ++ b ∷ []) bs))
        (append_assoc part (b ∷ []) bs) (split_parts-Splits config (part ++ b ∷ []) bs))
      (if_both (Splits (part ++ b ∷ bs)) b.view_is_stable _ _ tt
        (go (split_parts b.config_num [] bs) (split_parts-Splits b.config_num [] bs)))
  where
    go :
        (next : Option (List Part))
        → Splits bs next
        → Splits
            (part ++ b ∷ bs)
            (elim next [ none ↦ none | some parts ↦ some ((part ++ b ∷ []) ∷ parts) ])
    go none h = tt
    go (some parts) h = (
      ap (λ xs. (part ++ b ∷ []) ++ xs) h.0 ∙ append_assoc part (b ∷ []) bs,
      (nonempty part b, h.1),
    )

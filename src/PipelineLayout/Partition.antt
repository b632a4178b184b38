-- ===== src/PipelineLayout/Partition.antt =====
-- `PipelineLayout::ParseLayerPartition` and `PipelineLayout::BuildPipelineLayout`. A string is the
-- list of its characters' codes. The search for the next comma is a split at the commas.
pub mod Spelled
pub mod Built
use infini_train.Base.{
  ℕ, zero, suc, ◌+◌, ◌-◌, ◌*◌, Bool, true, false, not, ◌&&◌, List, [], ◌∷◌, Result, ok, err, ◌>>=◌,
  ◌>>◌, ltb, leb, ◌==◌, if◌then◌else◌, length, sum, map,
}
use infini_train.Base.Int.{ℤ, pos, eqb_ℤ}
use infini_train.PipelineLayout.{
  SpecialModulePlacement, PipelineLayoutPolicy, PipelineLayout, LayoutError,
}
use infini_train.PipelineLayout.Builders.{int_max, build_default, build_contiguous}

abbrev pub comma : ℕ
comma = 44

abbrev pub is_digit : ℕ → Bool
is_digit c = leb 48 c && leb c 57

-- The first token of a text, and the tokens after it.
abbrev pub Tokens : Type 0
Tokens = List ℕ × List (List ℕ)

abbrev pub prepend : ℕ → Tokens → Tokens
prepend c ts = (c ∷ ts.0, ts.1)

unfoldable pub split : List ℕ → Tokens
split [] = ([], [])
split (c ∷ s) = let rest = split s in if c == comma then ([], rest.0 ∷ rest.1) else prepend c rest

unfoldable pub check_digits : List ℕ → Result LayoutError (Unit {0})
check_digits [] = ok tt
check_digits (c ∷ cs) =
    if not (is_digit c) then err (LayoutError.invalid_character c) else check_digits cs

-- The number that digits spell after `n`.
unfoldable pub value : ℕ → List ℕ → ℕ
value n [] = n
value n (c ∷ cs) = value (n * 10 + (c - 48)) cs

-- `std::from_chars` fails on a number that is not an `int`.
unfoldable pub from_chars : List ℕ → Result LayoutError ℕ
unfolding value
from_chars token =
    if ltb int_max (value 0 token)
    then err (LayoutError.token_not_int token)
    else ok (value 0 token)

unfoldable pub parse_token : ℕ → List ℕ → Result LayoutError ℕ
unfolding check_digits from_chars
parse_token begin token =
    if length token == 0
    then err (LayoutError.empty_token begin)
    else (check_digits token >> from_chars token)

unfoldable pub parse_tokens : ℕ → List ℕ → List (List ℕ) → Result LayoutError (List ℕ)
unfolding parse_token
parse_tokens begin token [] = do n ← parse_token begin token; ok (n ∷ [])
parse_tokens begin token (next ∷ tokens) = do
  n ← parse_token begin token
  ns ← parse_tokens (begin + length token + 1) next tokens
  ok (n ∷ ns)

unfoldable pub parse_layer_partition : List ℕ → Result LayoutError (List ℕ)
unfolding split parse_tokens
parse_layer_partition [] = err LayoutError.partition_empty
parse_layer_partition (c ∷ s) = let tokens = split (c ∷ s) in parse_tokens 0 tokens.0 tokens.1

unfoldable pub build_pipeline_layout :
    ℤ
    → ℤ
    → ℤ
    → List ℕ
    → SpecialModulePlacement
    → PipelineLayoutPolicy
    → Result LayoutError PipelineLayout
unfolding parse_layer_partition
build_pipeline_layout num_layers pp_size vpp_size [] placement policy =
    build_default num_layers pp_size vpp_size placement policy
build_pipeline_layout num_layers pp_size vpp_size (c ∷ s) placement policy =
    parse_layer_partition (c ∷ s) >>= λ pp.
    if not (eqb_ℤ (pos (length pp)) pp_size)
    then err (LayoutError.stage_count_mismatch pp_size (length pp))
    else if not (eqb_ℤ (pos (sum pp)) num_layers)
    then err (LayoutError.layer_sum_mismatch num_layers (sum pp))
    else if not (eqb_ℤ vpp_size (pos 1))
    then err (LayoutError.vpp_not_supported vpp_size)
    else build_contiguous (map pos pp) placement policy

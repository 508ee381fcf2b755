-- ===== src/Risk/Laws.antt =====
-- What the classification of risk guarantees (backend/internal/risk/engine.go).
use proxmaster.Prelude.{
  String, ◌≡◌, ◌≢◌, refl, sym, ap, ◌∙◌, ◌↔◌, ◌==◌, eq_iff, Bool, true, false, ◌||◌, ◌&&◌, not, some,
  List, [], ◌∷◌, arith, Bool-cases, inl, inr, if◌then◌else◌,
}
use proxmaster.Prelude.Text.{to_lower, to_upper, contains, one_of}
use proxmaster.Models.{Params, str, get, RiskLevel}
use proxmaster.Models.Sprint.{sprint}
use proxmaster.Risk.{
  low_tools, medium_tools, high_tools, classify, classify_lower, classify_rest, mode_text,
  hard_block_reason,
}

-- A test that fails at every word of a list.
abbrev pub none_of : (String → Bool) → List String → Bool
none_of p [] = true
none_of p (t ∷ ts) = not (p t) && none_of p ts

-- A text that passes a test is not a word that fails it.
differs : (p : String → Bool) (s t : String) → p t ≡ false → p s ≡ true → (s == t) ≡ false
differs p s t no_t yes_s = elim (Bool-cases (s == t)) [
  | inl same ↦ let e : true ≡ false = sym yes_s ∙ ap p ((eq_iff s t).0 same) ∙ no_t in cc
  | inr other ↦ other
]

differs_all :
    (p : String → Bool) (s : String) (ts : List String)
    → none_of p ts ≡ true
    → p s ≡ true
    → one_of s ts ≡ false
differs_all p s [] h e = refl
differs_all p s (t ∷ ts) h e =
    rw (differs p s t (ground arith) e) (differs_all p s ts (ground arith) e)

-- A text that is one of some words passes a test that all of them pass.
pub passes_one_of :
    (p : String → Bool) (s : String) (ts : List String)
    → none_of (λ t. not (p t)) ts ≡ true
    → one_of s ts ≡ true
    → p s ≡ true
passes_one_of p s [] h e = cc
passes_one_of p s (t ∷ ts) h e = elim (Bool-cases (s == t)) [
  | inl same ↦ ap p ((eq_iff s t).0 same) ∙ ground arith
  | inr other ↦ passes_one_of p s ts (ground arith) (ground arith)
]

-- The words that name a stop of the cluster.
abbrev pub names_stop : String → Bool
names_stop s = contains s "shutdown" || contains s "quorum"

low_names_no_stop : none_of names_stop low_tools ≡ true
low_names_no_stop = refl

medium_names_no_stop : none_of names_stop medium_tools ≡ true
medium_names_no_stop = refl

classify_lower-stop :
    (tool : String) (params : Params)
    → names_stop tool ≡ true
    → classify_lower tool params ≡ RiskLevel.high
unfolding classify_lower classify_rest
classify_lower-stop tool params h = rw (differs_all names_stop tool low_tools low_names_no_stop h) (
    rw (differs_all names_stop tool medium_tools medium_names_no_stop h) (
      rw (differs names_stop tool "policy.mode.set" refl h) (rw h (last (one_of tool high_tools)))))
  where
    last : (b : Bool) → (if b then RiskLevel.high else RiskLevel.high) ≡ RiskLevel.high
    last true = refl
    last false = refl

-- A tool whose name contains "shutdown" or "quorum", in whatever case, is a high risk, whatever
-- its parameters are.
pub classify-stop :
    (tool : String) (params : Params)
    → names_stop (to_lower tool) ≡ true
    → classify tool params ≡ RiskLevel.high
unfolding classify
classify-stop tool params h = classify_lower-stop (to_lower tool) params h

-- A call gets a reason to be held back exactly when its risk is high.
pub hard_block-iff_high :
    (tool : String) (params : Params) (risk : RiskLevel)
    → ((hard_block_reason tool params risk).0 ≡ true) ↔ (risk ≡ RiskLevel.high)
unfolding hard_block_reason
hard_block-iff_high tool params RiskLevel.high = ((λ _. refl), (λ _. refl))
hard_block-iff_high tool params RiskLevel.unset = ((λ h. cc), (λ h. cc))
hard_block-iff_high tool params _ = ((λ h. cc), (λ h. cc))

abbrev pub asks_aggressive : String → Bool
asks_aggressive s = contains (to_upper s) "AGGRESSIVE"

pub classify_mode_set :
    (params : Params) {s : String}
    → get "mode" params ≡ some (str s)
    → asks_aggressive s ≡ true
    → classify "policy.mode.set" params ≡ RiskLevel.high
unfolding classify to_lower mode_text sprint
classify_mode_set params h e = rw (h, e)

rest_not_low : (tool : String) (params : Params) → classify_rest tool params ≢ RiskLevel.low
unfolding classify_rest
rest_not_low tool params h = ground arith

first_is_low :
    (a b c : Bool) (rest : RiskLevel)
    → rest ≢ RiskLevel.low
    → (if a
        then RiskLevel.low
        else if b
        then RiskLevel.medium
        else if c
        then RiskLevel.high
        else rest)
      ≡ RiskLevel.low
    → a ≡ true
first_is_low true b c rest n h = refl
first_is_low false b c rest n h = ground arith

-- Only the listed tools are a low risk.
pub classify-low :
    (tool : String) (params : Params)
    → classify tool params ≡ RiskLevel.low
    → one_of (to_lower tool) low_tools ≡ true
unfolding classify classify_lower
classify-low tool params h =
    let t = to_lower tool in
    first_is_low (one_of t low_tools) (one_of t medium_tools) (one_of t high_tools)
      (classify_rest t params) (rest_not_low t params) h

-- ===== src/Controlplane/Switching.antt =====
-- Sequences of switches of the control plane (backend/internal/controlplane/manager.go).
use proxmaster.Prelude.{
  ℕ, String, ◌==◌, ◌≡◌, refl, ◌≢◌, ◌↔◌, eq_iff, true, not, List, [], ◌∷◌, All, Bool-cases, inl, inr,
}
use proxmaster.Controlplane.{Manager, SwitchResult, endpoint, switch_to}

-- The switches of a list, each at its time.
unfoldable pub switch_all : List (ℕ × String) → Manager → List SwitchResult × Manager
switch_all [] m = ([], m)
switch_all ((now, node) ∷ l) m =
    let (result, m') = switch_to now node m in
    let (results, m'') = switch_all l m' in (result ∷ results, m'')

-- The results follow on one another, from one node to another.
abbrev pub IsChain : String → List SwitchResult → String → Type 0
IsChain start [] end_node = start ≡ end_node
IsChain start (r ∷ rs) end_node = (r.from_node ≡ start) × IsChain r.to_node rs end_node

-- What a client is told by one result.
abbrev pub IsTruthful : String → SwitchResult → Type 0
IsTruthful address r = (r.endpoint ≡ address) × ((r.switched ≡ true) ↔ (r.from_node ≢ r.to_node))

differ_iff : (s t : String) → (not (s == t) ≡ true) ↔ (s ≢ t)
differ_iff s t = elim (Bool-cases (s == t)) [
  | inl same ↦ ((λ h e. cc), (λ ne. absurd (ne ((eq_iff s t).0 same))))
  | inr other ↦ ((λ h e. let same = (eq_iff s t).1 e in cc), (λ ne. rw other))
]

-- After any switches, clients find the control plane at the address that they had: every result
-- names it, and says that there was a switch exactly when the node is another one. The results lead
-- from the node at the start to the node at the end.
pub switch_all-IsChain :
    (l : List (ℕ × String)) (m : Manager)
    → let (results, m') = switch_all l m in
      (endpoint m' ≡ endpoint m)
      × All (IsTruthful (endpoint m)) results
      × IsChain m.current_node results m'.current_node
unfolding switch_all switch_to endpoint
switch_all-IsChain [] m = (refl, tt, refl)
switch_all-IsChain ((now, node) ∷ l) m =
    let rest = switch_all-IsChain l (record m { current_node = node }) in
    (rest.0, ((refl, differ_iff m.current_node node), rest.1), (refl, rest.2))

-- ===== src/Store/Backup/Laws.antt =====
-- Which backup policy a workload gets (backend/internal/store/memory.go).
use mathlib.Core.Path.{subst}
use mathlib.Core.List.{Mem, mem-cons_self, mem-cons_of_mem}
use proxmaster.Prelude.{
  ◌⊎◌, sym, ℕ, String, ◌==◌, ◌≡◌, refl, Bool, true, false, Option, none, some, List, [], ◌∷◌, arith,
  All, Bool-cases, inl, inr,
}
use proxmaster.Prelude.Int.{ltb_ℤ, ◌≤ℤ◌, ◌<ℤ◌}
use proxmaster.Prelude.Dict.{values}
use proxmaster.Models.{BackupPolicy, BackupDecisionLog}
use proxmaster.Store.{MemoryStore}
use proxmaster.Store.Backup.{select_policy, explained, explain_backup_policy}

abbrev pub is_for : String → BackupPolicy → Bool
is_for workload p = p.workload_id == workload

-- No policy of the workload claims precedence over the others.
abbrev pub NoOverride : String → List BackupPolicy → Type 0
NoOverride workload = All (λ p. is_for workload p ≡ true → p.override ≡ false)

-- No policy of the workload has a higher priority.
abbrev pub IsTop : String → List BackupPolicy → BackupPolicy → Type 0
IsTop workload ps p = All (λ q. is_for workload q ≡ true → q.priority ≤ℤ p.priority) ps

-- What the loop finds from a policy of the workload on.
record Found (workload : String) (start : BackupPolicy) (ps : List BackupPolicy) : Type 0 where
  policy : BackupPolicy
  result : select_policy workload (some start) ps ≡ some policy
  fits : is_for workload policy ≡ true
  member : (policy ≡ start) ⊎ Mem policy ps
  no_lower : start.priority ≤ℤ policy.priority
  top : IsTop workload ps policy

-- A policy of a list is one of a longer list.
behind : {p q : BackupPolicy} {ps : List BackupPolicy} → (q ≡ p) ⊎ Mem q ps → Mem q (p ∷ ps)
behind {p} {q} {ps} (inl same) = subst (λ r. Mem r (p ∷ ps)) (sym same) mem-cons_self
behind {p} (inr m) = mem-cons_of_mem p m

later :
    {start p q : BackupPolicy} {ps : List BackupPolicy}
    → (q ≡ start) ⊎ Mem q ps
    → (q ≡ start) ⊎ Mem q (p ∷ ps)
later (inl same) = inl same
later {p = p} (inr m) = inr (mem-cons_of_mem p m)

find_from :
    (workload : String) (start : BackupPolicy) (ps : List BackupPolicy)
    → is_for workload start ≡ true
    → NoOverride workload ps
    → Found workload start ps
unfolding select_policy
find_from workload start [] fits plain = record {
  policy = start;
  result = refl;
  fits = fits;
  member = inl refl;
  no_lower = omega arith;
  top = tt;
}
find_from workload start (p ∷ ps) fits plain = elim (Bool-cases (is_for workload p)) [
  | inr other ↦
      let rest = find_from workload start ps fits plain.1 in
      record {
        policy = rest.policy;
        result = rw (other, select_policy) rest.result;
        fits = rest.fits;
        member = later rest.member;
        no_lower = rest.no_lower;
        top = ((λ h. cc), rest.top);
      }
  | inl same ↦ elim (Bool-cases (ltb_ℤ start.priority p.priority)) [
    | inl higher ↦
        let rest = find_from workload p ps same plain.1 in
        record {
          policy = rest.policy;
          result = rw (same, higher, select_policy) rest.result;
          fits = rest.fits;
          member = inr (behind rest.member);
          no_lower = ground (arith, rest.no_lower);
          top = ((λ h. rest.no_lower), rest.top);
        }
    | inr lower ↦
        let rest = find_from workload start ps fits plain.1 in
        record {
          policy = rest.policy;
          result = rw (same, lower, plain.0 same, select_policy) rest.result;
          fits = rest.fits;
          member = later rest.member;
          no_lower = rest.no_lower;
          top = ((λ h. ground (arith, rest.no_lower)), rest.top);
        }
  ]
]

-- What is selected from a list of policies.
abbrev pub IsSelected : String → List BackupPolicy → Option BackupPolicy → Type 0
IsSelected workload ps none = All (λ q. is_for workload q ≡ false) ps
IsSelected workload ps (some p) = Mem p ps × (is_for workload p ≡ true) × IsTop workload ps p

skip-IsSelected :
    (workload : String) (p : BackupPolicy) (ps : List BackupPolicy) (o : Option BackupPolicy)
    → is_for workload p ≡ false
    → IsSelected workload ps o
    → IsSelected workload (p ∷ ps) o
skip-IsSelected workload p ps none other h = (other, h)
skip-IsSelected workload p ps (some q) other h = (mem-cons_of_mem p h.0, h.1, ((λ e. cc), h.2))

select-IsSelected :
    (workload : String) (ps : List BackupPolicy)
    → NoOverride workload ps
    → IsSelected workload ps (select_policy workload none ps)
unfolding select_policy
select-IsSelected workload [] plain = tt
select-IsSelected workload (p ∷ ps) plain = elim (Bool-cases (is_for workload p)) [
  | inl same ↦
      let rest = find_from workload p ps same plain.1 in
      rw (same, select_policy)
        (rw (rest.result) (behind rest.member, rest.fits, ((λ h. rest.no_lower), rest.top)))
  | inr other ↦
      rw (other, select_policy)
        (skip-IsSelected workload p ps _ other (select-IsSelected workload ps plain.1))
]

-- What a request for the policy of a workload answers.
abbrev pub IsExplained :
    String → List BackupPolicy → Option (BackupPolicy × BackupDecisionLog) × MemoryStore → Type 0
IsExplained workload ps (none, s) = All (λ q. is_for workload q ≡ false) ps
IsExplained workload ps (some (p, entry), s) =
    Mem p ps × (is_for workload p ≡ true) × IsTop workload ps p × (entry.policy_id ≡ p.id)

-- Where no policy of the workload overrides the others, in whatever order the policies are visited:
-- the policy that is explained is a stored one of the workload, with no lower a priority than any other of
-- its policies, and the log entry names it; none is found exactly where the workload has none.
pub explain-IsExplained :
    (now : ℕ) (workload : String) (s : MemoryStore)
    → NoOverride workload (values s.backup_policies)
    → IsExplained workload (values s.backup_policies) (explain_backup_policy now workload s)
unfolding explain_backup_policy
explain-IsExplained now workload s plain =
    go (select_policy workload none (values s.backup_policies))
      (select-IsSelected workload (values s.backup_policies) plain)
  where
    go :
        (o : Option BackupPolicy)
        → IsSelected workload (values s.backup_policies) o
        → IsExplained workload (values s.backup_policies) (explained now workload o s)
    go none h = h
    go (some p) h = (h.0, h.1, h.2, refl)

-- A policy that overrides the others loses to one of a higher priority that is visited after it,
-- and wins where it is visited last: two policies of one workload, the one an override and the
-- other of a higher priority, are selected by the order of the visit alone.
pub select-last :
    (workload : String) (p q : BackupPolicy)
    → is_for workload p ≡ true
    → is_for workload q ≡ true
    → p.override ≡ true
    → p.priority <ℤ q.priority
    → (select_policy workload none (p ∷ q ∷ []) ≡ some q)
      × (select_policy workload none (q ∷ p ∷ []) ≡ some p)
unfolding select_policy
select-last workload p q for_p for_q over lower =
    let higher : ltb_ℤ p.priority q.priority ≡ true = ground arith in
    let not_higher : ltb_ℤ q.priority p.priority ≡ false = ground arith in
    (
      rw (for_p, select_policy) (rw (for_q, higher, select_policy) refl),
      rw (for_q, select_policy) (rw (for_p, not_higher, over, select_policy) refl),
    )

-- ===== src/Engine/Laws.antt =====
-- What the engine relies on of a session: the transactions of the packet filter.
use netlane.Prelude.{List, [], ◌∷◌, ◌++◌, map, ◌≡◌, ok}
use netlane.Model.{PlannedRule}
use netlane.Engine.{PolicySession}

-- The filters of one rule, as the rule with each of its keys.
abbrev pub tagged : {K : Type 0} → PlannedRule → List K → List (PlannedRule × K)
tagged r = map λ k. (r, k)

-- `installed` is the list of filters in force within the transaction at hand, `saved` the list at
-- its `begin`. An operation that fails inside a transaction may leave any list behind, but not
-- another `saved`.
pub record IsTransactional {S K : Type 0} (p : PolicySession S K) : Type 1 where
  pub installed : S → List (PlannedRule × K)
  pub saved : S → List (PlannedRule × K)
  pub begin_installed : (s : S) → installed (p.begin s).1 ≡ installed s
  pub begin_saved : (s : S) → (p.begin s).0 ≡ ok tt → saved (p.begin s).1 ≡ installed s
  pub delete_saved : (k : K) (s : S) → saved (p.delete k s).1 ≡ saved s
  pub delete_first :
      (k : K) (s : S) (r : PlannedRule) (rest : List (PlannedRule × K))
      → installed s ≡ (r, k) ∷ rest
      → (p.delete k s).0 ≡ ok tt
      → installed (p.delete k s).1 ≡ rest
  pub add_saved : (r : PlannedRule) (s : S) → saved (p.add r s).1 ≡ saved s
  pub add_last :
      (r : PlannedRule) (s : S) (ks : List K)
      → (p.add r s).0 ≡ ok ks
      → installed (p.add r s).1 ≡ installed s ++ tagged r ks
  pub commit_installed : (s : S) → (p.commit s).0 ≡ ok tt → installed (p.commit s).1 ≡ installed s
  pub commit_saved : (s : S) → saved (p.commit s).1 ≡ saved s
  pub abort_installed : (s : S) → (p.abort s).0 ≡ ok tt → installed (p.abort s).1 ≡ saved s
  pub close_installed : (s : S) → (p.close s).0 ≡ ok tt → installed (p.close s).1 ≡ []

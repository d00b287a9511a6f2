-- ===== src/Engine/Installed.antt =====
-- What a transaction of the session installs: the block in RoutingEngine::apply of crates/netlane-core/src/engine.rs.
use mathlib.Core.List.{append-nil, append_assoc, map-append}
use mathlib.Core.Path.{subst}
use netlane.Prelude.{
  List, [], ◌∷◌, ◌++◌, map, ◌≡◌, refl, sym, ap, ◌∙◌, inl, inr, arith, ok, Result-cases,
}
use netlane.Prelude.Actions.{Action, ◌>>=◌, ◌>>◌, pure, bind_inversion, bind_state}
use netlane.Model.{PlannedRule}
use netlane.Engine.{PolicySession, active, delete_all, add_all, transaction}
use netlane.Engine.Laws.{IsTransactional, tagged}

-- The filters in force are those of the rules, rule by rule and in order.
pub data Installs {K : Type 0} : List PlannedRule → List (PlannedRule × K) → Type 0 where
  none_yet : Installs [] []
  one_more :
      {rs : List PlannedRule} {fs : List (PlannedRule × K)} (r : PlannedRule) (ks : List K)
      → Installs rs fs
      → Installs (rs ++ r ∷ []) (fs ++ tagged r ks)

abbrev pub keys_of : {K : Type 0} → List (PlannedRule × K) → List K
keys_of = map λ f. f.1

keys_of-tagged : {K : Type 0} (r : PlannedRule) (ks : List K) → keys_of (tagged r ks) ≡ ks
keys_of-tagged r [] = refl
keys_of-tagged r (k ∷ ks) = ap (◌∷◌ k) (keys_of-tagged r ks)

module _ {S K : Type 0} (p : PolicySession S K) (law : IsTransactional p) where
  open law use {
    installed, saved, begin_installed, begin_saved, delete_saved, delete_first, add_saved, add_last,
    commit_installed, commit_saved, abort_installed, close_installed,
  }

  delete_all-saved : (ks : List K) (s : S) → saved (delete_all p ks s).1 ≡ saved s
  unfolding delete_all
  delete_all-saved [] s = refl
  delete_all-saved (k ∷ ks) s =
      ground (arith, delete_saved k s, delete_all-saved ks (p.delete k s).1)

  add_all-saved :
      (rs : List PlannedRule) (keys : List K) (s : S) → saved (add_all p rs keys s).1 ≡ saved s
  unfolding add_all
  add_all-saved [] keys s = refl
  add_all-saved (r ∷ rs) keys s = elim (Result-cases (p.add r s).0) [
    | inl (ks, e) ↦ ground (arith, add_saved r s, add_all-saved rs (keys ++ ks) (p.add r s).1)
    | inr (m, e) ↦ ground (arith, add_saved r s)
  ]

  delete_all_lem :
      (ks : List K) (fs : List (PlannedRule × K)) (s : S)
      → installed s ≡ fs
      → keys_of fs ≡ ks
      → (delete_all p ks s).0 ≡ ok tt
      → installed (delete_all p ks s).1 ≡ []
  unfolding delete_all
  delete_all_lem [] [] s e f h = e
  delete_all_lem [] (x ∷ fs) s e f h = cc
  delete_all_lem (k ∷ ks) [] s e f h = cc
  delete_all_lem (k ∷ ks) ((r, j) ∷ fs) s e f h =
      ground (arith, delete_first k s r fs, delete_all_lem ks fs (p.delete k s).1)

  add_all_lem :
      (rs done : List PlannedRule) (keys out : List K) (s : S)
      → (add_all p rs keys s).0 ≡ ok out
      → Installs done (installed s)
      → keys_of (installed s) ≡ keys
      → let t = (add_all p rs keys s).1 in
        Installs (done ++ rs) (installed t) × (keys_of (installed t) ≡ out)
  unfolding add_all
  add_all_lem [] done keys out s h i k = (rw append-nil i, ground arith)
  add_all_lem (r ∷ rs) done keys out s h i k =
      let (ks, e, q) = bind_inversion (p.add r) (λ added. add_all p rs (keys ++ added)) s out h in
      let j : installed (p.add r s).1 ≡ installed s ++ tagged r ks = add_last r s ks e in
      let rest =
        add_all_lem rs (done ++ r ∷ []) (keys ++ ks) out (p.add r s).1 (ap (λ t. t.0) (sym q) ∙ h)
          (rw j (one_more r ks i)) (rw (j, map-append, k, keys_of-tagged r ks)) in
      rw (q, ◌>>=◌) (rw (append_assoc done (r ∷ []) rs) at rest)

  pub transaction-saved :
      (old : List K) (rules : List PlannedRule) (s : S)
      → saved (transaction p old rules s).1 ≡ saved s
  unfolding transaction
  transaction-saved old rules s =
      bind_state (delete_all p old) (λ _. adding >>= committing) s IsKept (delete_all-saved old s)
        λ _ _.
          bind_state adding committing t IsKept added
            λ keys _. ground (arith, commit_saved (adding t).1, added)
    where
      t : S
      t = (delete_all p old s).1

      adding : Action S (List K)
      adding = add_all p (active rules) []

      committing : List K → Action S (List K)
      committing keys = p.commit >> pure keys

      IsKept : S → Type 0
      IsKept u = saved u ≡ saved s

      added : saved (adding t).1 ≡ saved s
      added = add_all-saved (active rules) [] t ∙ delete_all-saved old s

  pub transaction_lem :
      (old out : List K) (rules : List PlannedRule) (s : S)
      → keys_of (installed s) ≡ old
      → (transaction p old rules s).0 ≡ ok out
      → let t = (transaction p old rules s).1 in
        Installs (active rules) (installed t) × (keys_of (installed t) ≡ out)
  unfolding transaction
  transaction_lem old out rules s k h =
      let (_, d, q) = bind_inversion (delete_all p old) (λ _. adding >>= committing) s out h in
      let (keys, a, q') = bind_inversion adding committing t out (ap (λ r. r.0) (sym q) ∙ h) in
      let clean : installed t ≡ [] = delete_all_lem old (installed s) s refl k d in
      let (i, ks) = add_all_lem (active rules) [] [] keys t a (rw clean none_yet) (rw clean) in
      let u = (adding t).1 in
      let (_, c, q'') =
        bind_inversion p.commit (λ _. pure keys) u out (ap (λ r. r.0) (sym (q ∙ q')) ∙ h) in
      let same : installed (p.commit u).1 ≡ installed u = commit_installed u c in
      let whole : transaction p old rules s ≡ (ok keys, (p.commit u).1) = q ∙ q' ∙ q'' in
      let e : ok keys ≡ ok out = ap (λ r. r.0) (sym whole) ∙ h in
      subst (λ r. Installs (active rules) (installed r.1) × (keys_of (installed r.1) ≡ out))
        (sym whole) (rw same i, rw same (ks ∙ cc))
    where
      t : S
      t = (delete_all p old s).1

      adding : Action S (List K)
      adding = add_all p (active rules) []

      committing : List K → Action S (List K)
      committing keys = p.commit >> pure keys

-- ===== src/Engine/Memory.antt =====
-- A policy session in memory, for the tests of crates/netlane-core/src/engine.rs and of its clients.
use netlane.Prelude.{
  ℕ, ◌+◌, Bool, List, [], ◌∷◌, ◌++◌, ◌≡◌, refl, arith, text, ok, err, ◌==◌, if◌then◌else◌,
}
use netlane.Prelude.Actions.{Action}
use netlane.Model.{PlannedRule}
use netlane.Engine.{PolicySession}
use netlane.Engine.Laws.{IsTransactional, tagged}

pub record Memory : Type 0 where
  pub filters : List (PlannedRule × ℕ)
  pub start : List (PlannedRule × ℕ)
  pub next : ℕ
  pub commits : Bool

abbrev pub delete_head : ℕ → List (PlannedRule × ℕ) → Action Memory (Unit {0})
delete_head k [] m = (err (text "unknown filter"), m)
delete_head k ((r, j) ∷ rest) m =
    if j == k then (ok tt, record m { filters = rest }) else (err (text "unknown filter"), m)

pub delete_head-start :
    (k : ℕ) (fs : List (PlannedRule × ℕ)) (m : Memory) → (delete_head k fs m).1.start ≡ m.start
delete_head-start k [] m = refl
delete_head-start k ((r, j) ∷ rest) m = ground arith

pub delete_head-filters :
    (k : ℕ) (fs : List (PlannedRule × ℕ)) (m : Memory) (r : PlannedRule)
    (rest : List (PlannedRule × ℕ))
    → fs ≡ (r, k) ∷ rest
    → (delete_head k fs m).0 ≡ ok tt
    → (delete_head k fs m).1.filters ≡ rest
delete_head-filters k [] m r rest e h = cc
delete_head-filters k ((q, j) ∷ more) m r rest e h = ground arith

abbrev pub memory_session : PolicySession Memory ℕ
memory_session = record {
  begin = λ m. (ok tt, record m { start = m.filters });
  add = λ r m. (
    ok (m.next ∷ (m.next + 1) ∷ []),
    record m { filters = m.filters ++ tagged r (m.next ∷ (m.next + 1) ∷ []); next = m.next + 2 },
  );
  delete = λ k m. delete_head k m.filters m;
  commit = λ m. if m.commits then (ok tt, m) else (err (text "commit"), m);
  abort = λ m. (ok tt, record m { filters = m.start });
  close = λ m. (ok tt, record m { filters = [] });
}

unfoldable pub memory_session-IsTransactional : IsTransactional memory_session
memory_session-IsTransactional = record {
  installed = λ m. m.filters;
  saved = λ m. m.start;
  begin_installed = λ m. refl;
  begin_saved = λ m h. refl;
  delete_saved = λ k m. delete_head-start k m.filters m;
  delete_first = λ k m r rest e h. delete_head-filters k m.filters m r rest e h;
  add_saved = λ r m. refl;
  add_last = λ r m ks h. let e : m.next ∷ (m.next + 1) ∷ [] ≡ ks = cc in rw (← e);
  commit_installed = λ m h. ground arith;
  commit_saved = λ m. ground arith;
  abort_installed = λ m h. refl;
  close_installed = λ m h. refl;
}

-- ===== src/Engine/Closed.antt =====
-- The end of an engine: `close`, and the `close` of its drop (crates/netlane-core/src/engine.rs).
use netlane.Prelude.{[], ◌≡◌, ok}
use netlane.Engine.{PolicySession, RoutingEngine, close, drop}
use netlane.Engine.Laws.{IsTransactional}

-- An engine that closes well leaves no filter in force, if closing a session without filters puts none
-- in force.
pub close-drop :
    {S K : Type 0} (p : PolicySession S K) (laws : IsTransactional p)
    → ((s : S) → laws.installed s ≡ [] → laws.installed (p.close s).1 ≡ [])
    → (e : RoutingEngine S K) → (close p e).0 ≡ ok tt
    → laws.installed (drop p (close p e).1) ≡ []
unfolding close drop
close-drop p laws again e h = again _ (laws.close_installed e.session h)

-- ===== src/Agent/Session/Cleanup.antt =====
-- What a session has left behind when its agent reports that the cleanup succeeded,
-- crates/netlane-agent/src/lib.rs.
use netlane.Prelude.{
  ℕ, Bool, true, List, [], ◌∷◌, ◌++◌, any, is_empty, Option, none, some, Text, text, ◌≡◌, refl, sym,
  ap, subst, ◌∙◌, arith, Option-cases, inl, inr, Result, ok, err, Result-cases, ensure, ◌>>◌,
}
use netlane.Model.{RoutingPolicy}
use netlane.Model.Policies.{Library, validate_policies, is_local_path}
use netlane.Engine.{PolicySession, RoutingEngine, close}
use netlane.Engine.Laws.{IsTransactional}
use netlane.Engine.Closed.{close-drop}
use netlane.Windows.Protocol.{Message}
use netlane.Windows.Flags.{RoutePolicySettings, TemporaryFlags, enable, restore}
use netlane.Windows.Flags
use netlane.Windows.Flags.Noted.{IsSettings, Noted, enable-Noted}
use netlane.Windows.Flags.Restored.{new-Noted, Noted-restore, drop-unnoted}
use netlane.Agent.Session.{
  Held, Setup, serve_opened, serve_enabled, run_block, close_engine, report, detail_of, Left,
  clean_up, refused, run_start, run_session,
}
use netlane.Agent.Session.Silent.{is_success, Silent, Silent-append, serve-Silent}

-- What the block leaves: flags that `restore` can undo, and no report of success.
record Kept {S K F V : Type 0} {f : RoutePolicySettings F} (laws : IsSettings f) (s : F)
    (held : Held S K F V) : Type 0 where
  noted : Noted laws s held.flags
  silent : Silent held.sent

module _ {S K F V : Type 0} (lib : Library) (p : PolicySession S K) {f : RoutePolicySettings F}
    (laws : IsSettings f) (process_id : ℕ) where
  serve_opened-Kept :
      (setup : Setup S V) (path : Text) (policies : List (RoutingPolicy V))
      (flags : TemporaryFlags F) (opened : Result S) (s : F)
      → Noted laws s flags
      → Kept laws s (serve_opened lib p f process_id setup path policies flags opened).1
  unfolding serve_opened
  serve_opened-Kept setup path policies flags (err m) s h = record { noted = h; silent = refl }
  serve_opened-Kept setup path policies flags (ok k) s h = record {
    noted = h;
    silent = serve-Silent lib p process_id path setup.events _ refl;
  }

  serve_enabled-Kept :
      (setup : Setup S V) (path : Text) (policies : List (RoutingPolicy V)) (r : Result (Unit {0}))
      (flags : TemporaryFlags F) (s : F)
      → Noted laws s flags
      → Kept laws s (serve_enabled lib p f process_id setup path policies (r, flags)).1
  unfolding serve_enabled
  serve_enabled-Kept setup path policies (err m) flags s h = record { noted = h; silent = refl }
  serve_enabled-Kept setup path policies (ok u) flags s h =
      serve_opened-Kept setup path policies flags setup.opened s h

  run_block-Kept :
      (setup : Setup S V) (path : Text) (policies : List (RoutingPolicy V)) (allow : Bool) (s : F)
      → Kept laws s (run_block lib p f process_id setup path policies allow (Flags.new f s)).1
  unfolding run_block
  run_block-Kept setup path policies allow s =
      let o = enable f allow (Flags.new f s) in
      elim (Result-cases (
        ensure (is_local_path path) (text "Caminho remoto/dispositivo recusado.")
        >> validate_policies lib policies
        >> setup.lease)) [
          | inr (m, e) ↦ simp (e, run_block) (record { noted = new-Noted laws s; silent = refl })
          | inl (u, e) ↦
              simp (e, run_block)
                (serve_enabled-Kept setup path policies o.0 o.1 s (enable-Noted laws allow s))
        ]

-- No filter of the session is in force.
abbrev pub Unfiltered :
    {S K : Type 0} {p : PolicySession S K} → IsTransactional p → Option S → Type 0
Unfiltered laws none = Unit
Unfiltered laws (some s) = laws.installed s ≡ []

-- The filters are gone and every family has the value of `s`.
abbrev pub IsClean :
    {S K F V : Type 0} {p : PolicySession S K} {f : RoutePolicySettings F}
    → IsTransactional p
    → IsSettings f
    → F
    → Left S F V
    → Type 0
IsClean filters flags s left =
    Unfiltered filters left.filter
    × ((g : Text) → flags.value g left.flags.settings ≡ flags.value g s)

report-last :
    (V : Type 0) (result : Result (Unit {0})) (b : Bool) (d : Text)
    → any is_success (report {V = V} result ++ Message.stopped b d ∷ []) ≡ b
report-last V (ok u) b d = ground arith
report-last V (err m) b d = ground arith

empty-append : {A : Type 0} (xs ys : List A) → is_empty (xs ++ ys) ≡ true → (xs ≡ []) × (ys ≡ [])
empty-append [] [] h = (refl, refl)
empty-append [] (y ∷ ys) h = cc
empty-append (x ∷ xs) ys h = cc

module _ {S K : Type 0} {p : PolicySession S K} (filters : IsTransactional p)
    (again : (s : S) → filters.installed s ≡ [] → filters.installed (p.close s).1 ≡ []) where
  close_engine-Unfiltered :
      (e : Option (RoutingEngine S K))
      → (close_engine p e).0 ≡ []
      → Unfiltered filters (close_engine p e).1
  unfolding close_engine
  close_engine-Unfiltered none h = tt
  close_engine-Unfiltered (some e) h = elim (Result-cases (close p e).0) [
    | inl (u, q) ↦ close-drop p filters again e q
    | inr (m, q) ↦ absurd (ground (arith, h, q))
  ]

  clean_up-IsClean :
      {F V : Type 0} {f : RoutePolicySettings F} (flags : IsSettings f) (result : Result (Unit {0}))
      (held : Held S K F V) (s : F)
      → Kept flags s held
      → any is_success (clean_up p f result held).sent ≡ true
      → IsClean filters flags s (clean_up p f result held)
  unfolding clean_up
  clean_up-IsClean {V = V} {f = f} flags result held s kept h =
      let errors = (close_engine p held.engine).0 ++ (restore f held.flags).0 in
      let tail = report result ++ Message.stopped (is_empty errors) (detail_of errors) ∷ [] in
      let reported : is_empty errors ≡ true =
        sym (report-last V result (is_empty errors) (detail_of errors))
        ∙ sym (Silent-append held.sent tail kept.silent)
        ∙ h in
      let (closed, restored) =
        empty-append (close_engine p held.engine).0 (restore f held.flags).0 reported in
      let undone = Noted-restore flags s held.flags kept.noted restored in
      let dropped = drop-unnoted f (restore f held.flags).1 (λ g. (undone g).1) in
      (
        close_engine-Unfiltered held.engine closed,
        λ g. ap (λ t. flags.value g t.settings) dropped ∙ (undone g).0,
      )

  module _ {F V : Type 0} {f : RoutePolicySettings F} (flags : IsSettings f) (lib : Library)
      (process_id : ℕ) where
    refused-IsClean :
        (s : F) (m : Text) (left : Left S F V)
        → some (refused f s m) ≡ some left
        → any is_success left.sent ≡ true
        → IsClean filters flags s left
    refused-IsClean s m left h k =
        let e : refused f s m ≡ left = cc in
        absurd (ground (arith, ap (λ l. any is_success l.sent) e, k))

    run_start-IsClean :
        (setup : Setup S V) (s : F) (m : Message V) (left : Left S F V)
        → run_start lib p f process_id setup s m ≡ some left
        → any is_success left.sent ≡ true
        → IsClean filters flags s left
    unfolding run_start
    run_start-IsClean setup s (Message.start path policies allow) left h k =
        let b = run_block lib p f process_id setup path policies allow (Flags.new f s) in
        let kept = run_block-Kept lib p flags process_id setup path policies allow s in
        elim (Option-cases b.0) [
          | inl q ↦ absurd (ground (arith, h, q))
          | inr (r, q) ↦
              let e : clean_up p f r b.1 ≡ left = ground (arith, h, q) in
              subst (IsClean filters flags s) e
                (clean_up-IsClean flags r b.1 s kept (ap (λ l. any is_success l.sent) e ∙ k))
        ]
    run_start-IsClean setup s m left h k = refused-IsClean s _ left h k

    -- What `run_session` leaves when it has told the panel that the cleanup succeeded, whatever failed on
    -- the way: no filter of its session is in force, and every family has the route policy that it had
    -- before. It relies on the packet filter's transactions, and on settings that answer with their value
    -- and change one family at a time.
    pub run_session-IsClean :
        (setup : Setup S V) (s : F) (left : Left S F V)
        → run_session lib p f process_id setup s ≡ some left
        → any is_success left.sent ≡ true
        → IsClean filters flags s left
    unfolding run_session
    run_session-IsClean setup s left h k = elim (Result-cases (setup.connected >> setup.request)) [
      | inl (m, e) ↦ run_start-IsClean setup s m left (ground (arith, h, e)) k
      | inr (m, e) ↦ refused-IsClean s m left (ground (arith, h, e)) k
    ]

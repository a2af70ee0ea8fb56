-- ===== src/Execution/Recorded.antt =====
-- crates/asmodeus-control-plane/src/execution.rs: the record of a run on a runner, from the worker to the
-- audit store.
use asmodeus.AuditStore.Present.{get-update}
use asmodeus.AuditStore.{
  AuditStore, StoreError, Write, written, rolled_back, torn, append_to_file, persist, publish,
  published, commit_changed, commit, sign, update,
}
use asmodeus.AuditStore.Durable.{is_torn}
use asmodeus.Dispatch.{
  RunnerEvent, Status, DispatchOutcome, Wake, Loop, finished, started, concluded, dispatch,
  kind_completed, kind_rejected,
}
use asmodeus.Dsl.Plan.{Action}
use asmodeus.Execution.Closed.{Agrees, Comes, settled_of-Comes, end_of-state}
use asmodeus.Execution.{ExecutionError, disappeared}
use asmodeus.Execution.Finish.{
  Settled, settled_of, closed_record, RunState, without, answer_of, saved_run, close,
}
use asmodeus.Runner.{is_terminal}
use asmodeus.Runner.Reported.{
  sent, Delivered, Concludes, dispatch-Concludes, end_of, worker-Story, end-confirmed,
}
use asmodeus.Runner.Work.{Answers, run_worker}
use asmodeus.Telemetry.Audit.{AuditRecord, get}
use asmodeus.Prelude.{
  ◌≡◌, ◌⊎◌, refl, sym, ap, ◌∙◌, subst, arith, ℕ, Bool, true, false, Bool-cases, inl, inr, Option,
  none, some, is_some, List, Text, text, text_eq, text_eq_iff, nat_eq, Result, ok, err, >>=-eq-ok,
  if◌then◌else◌,
}

concluded-refused :
    (last : RunnerEvent) (o : DispatchOutcome) (done : Bool)
    → o.rejected ≡ none
    → nat_eq last.kind kind_completed ≡ done
    → is_some (concluded last o).rejected ≡ true
    → done ≡ false
unfolding concluded
concluded-refused last o done e k h = elim (Bool-cases (nat_eq last.kind kind_rejected)) [
  | inl t ↦ ground arith
  | inr t ↦ cc (rw (t, e) at h)
]

-- The outcome of a dispatch to which all events of a worker are delivered.
dispatch-Agrees :
    (to_uppercase : Text → Text) (run_id : Text) (action : Action) (a : Answers) (ws : List Wake)
    (now : ℕ)
    → ((t : Text) → is_terminal t ≡ true → to_uppercase t ≡ t)
    → Delivered (sent (run_worker run_id action a).0) ws
    → (l : Loop) × (o : DispatchOutcome) × (dispatch to_uppercase run_id ws (started now)
        ≡ finished l (ok o))
      × Agrees (end_of run_id action a a.sandbox_created).1 (run_worker run_id action a).1 o
unfolding Concludes Agrees concluded started run_worker
dispatch-Agrees to_uppercase run_id action a ws now upper d =
    let (last, done) = end_of run_id action a a.sandbox_created in
    let (m, o, e, named, rejected) =
      dispatch-Concludes to_uppercase run_id last _ ws (started now) refl d
        (worker-Story run_id action a) in
    let (confirmed, completed, cleaned) = end-confirmed run_id action a a.sandbox_created in
    let (terminal, state) = end_of-state run_id action a a.sandbox_created in
    (
      m,
      concluded last o,
      e,
      (
        refl,
        completed,
        confirmed,
        ap (λ t. text_eq t (text "COMPLETED")) (named ∙ upper last.state terminal) ∙ state,
        concluded-refused last o done rejected completed,
        cleaned,
      ),
    )

sign-kept :
    (signature : AuditRecord → Result StoreError (Text × Text)) (x r : AuditRecord)
    → sign signature x ≡ ok r
    → (r.status ≡ x.status) × (r.cleanup_status ≡ x.cleanup_status)
unfolding sign
sign-kept signature x r e =
    let (hex, drawn, k) = >>=-eq-ok (signature x) _ e in (ground (arith, k), ground (arith, k))

module _ (to_line : AuditRecord → Text)
    (signature : AuditRecord → Result StoreError (Text × Text)) where
  -- The trail and the aggregate are as they were, and so is the log, unless a write that failed could not
  -- be undone.
  unfoldable pub IsKept : Write → AuditStore → AuditStore → Type 0
  IsKept w store audit =
      (audit.trail ≡ store.trail)
      × (audit.aggregate ≡ store.aggregate)
      × (is_torn w ≡ false → audit ≡ store)

  kept : (w : Write) (store : AuditStore) → IsKept w store store
  unfolding IsKept
  kept w store = (refl, refl, λ t. refl)

  -- An update of the store that gives no record has changed nothing; one that gives a record has made
  -- it of the one before.
  unfoldable Updates :
      Write
      → Text
      → (AuditRecord → Result StoreError AuditRecord)
      → AuditStore
      → AuditStore × Result StoreError (Option AuditRecord)
      → Type 0
  Updates w run_id change store (audit, err e) = IsKept w store audit
  Updates w run_id change store (audit, ok none) = IsKept w store audit
  Updates w run_id change store (audit, ok (some r)) =
      (get run_id audit.trail ≡ some r) × ((old : AuditRecord) × (change old ≡ ok r))

  persist-kept :
      (w : Write) (r : AuditRecord) (q file : Option Text) (e : StoreError)
      → persist to_line w r q ≡ (file, err e)
      → is_torn w ≡ false
      → file ≡ q
  unfolding persist append_to_file is_torn
  persist-kept w r none file e h t = cc
  persist-kept written r (some bytes) file e h t = cc
  persist-kept rolled_back r (some bytes) file e h t = cc
  persist-kept (torn n) r (some bytes) file e h t = cc

  published-Updates :
      (w : Write) (run_id : Text) (change : AuditRecord → Result StoreError AuditRecord)
      (old r : AuditRecord) (store : AuditStore)
      → get run_id store.trail ≡ some old
      → change old ≡ ok r
      → r.run_id ≡ run_id
      → Updates w run_id change store
          (published to_line (some r) old r store (persist to_line w r store.file))
  unfolding published publish Updates IsKept
  published-Updates w run_id change old r store g made is = go (persist to_line w r store.file) refl
    where
      go :
          (p : Option Text × Result StoreError (Unit {0}))
          → persist to_line w r store.file ≡ p
          → Updates w run_id change store (published to_line (some r) old r store p)
      go (file, err e) p = (
        refl,
        refl,
        λ t. ap (λ f. record store { file = f }) (persist-kept w r store.file file e p t),
      )
      go (file, ok u) p = (
        subst (λ i. get i (publish to_line old r file store).trail ≡ some r) is
            (get-update r old store.trail (subst (λ i. get i store.trail ≡ some old) (sym is) g)),
        (old, made),
      )

  commit-Updates :
      (w : Write) (run_id : Text) (change : AuditRecord → Result StoreError AuditRecord)
      (old : Option AuditRecord) (store : AuditStore)
      → get run_id store.trail ≡ old
      → Updates w run_id change store (commit to_line w run_id change old store)
  unfolding commit commit_changed Updates
  commit-Updates w run_id change none store g = kept w store
  commit-Updates w run_id change (some old) store g = go (change old) refl
    where
      go :
          (q : Result StoreError AuditRecord)
          → change old ≡ q
          → Updates w run_id change store (commit_changed to_line w run_id old q store)
      go (err e) made = kept w store
      go (ok r) made = elim (Bool-cases (text_eq r.run_id run_id)) [
        | inl t ↦ rw t (
            published-Updates w run_id change old r store g made
              ((text_eq_iff r.run_id run_id).0 t))
        | inr t ↦ rw t (kept w store)
      ]

  -- What the end of a run leaves: a failure that has changed no record; or the revised record, which
  -- says whether all was done and cleaned up, with the run not active any more.
  unfoldable pub Leaves :
      Write → Bool → Bool → Text → RunState → RunState × Result ExecutionError AuditRecord → Type 0
  Leaves w done cleaned run_id s (after, answer) =
      ((e : ExecutionError) × (answer ≡ err e) × IsKept w s.audit after.audit)
      ⊎ ((r : AuditRecord) × (get run_id after.audit.trail ≡ some r)
          × (text_eq r.status (text "COMPLETED") ≡ done)
          × (text_eq r.cleanup_status (text "SUCCESS") ≡ cleaned)
          × (after.runs ≡ without run_id s.runs)
          × (done ≡ true → answer ≡ ok r))

  cleaned-status :
      (cleaned : Bool)
      → text_eq (if cleaned then text "SUCCESS" else text "UNCONFIRMED") (text "SUCCESS") ≡ cleaned
  unfolding text_eq
  cleaned-status true = refl
  cleaned-status false = refl

  closed-Leaves :
      (w : Write) (now run_id : Text) (s : RunState) (settled : Settled) (done cleaned : Bool)
      (u : AuditStore × Result StoreError (Option AuditRecord))
      → Comes done cleaned settled
      → Updates w run_id (λ r. sign signature (closed_record now true settled r)) s.audit u
      → Leaves w done cleaned run_id s (saved_run to_line signature run_id settled u s)
  unfolding Leaves saved_run answer_of Updates Comes closed_record
  closed-Leaves w now run_id s settled done cleaned (audit, err e) c h = inl (_, refl, h)
  closed-Leaves w now run_id s settled done cleaned (audit, ok none) c h =
      inl (disappeared, refl, h)
  closed-Leaves w now run_id s settled done cleaned (audit, ok (some r)) (named, clean, right)
        (is, (old, made)) =
      let (status, cleanup) = sign-kept signature (closed_record now true settled old) r made in
      inr (
        r,
        is,
        ap (λ t. text_eq t (text "COMPLETED")) status ∙ named,
        ap (λ t. text_eq t (text "SUCCESS")) cleanup ∙ cleaned-status settled.cleaned ∙ clean,
        refl,
        λ d. rw (right d) refl,
      )

  -- If every event of a worker is delivered, in order and with any ticks between them, then the
  -- dispatch of its run ends with an outcome, and the end of the run leaves one of two things: an
  -- error, with the audit store as it was, but for what a write that could not be undone has left in
  -- the log; or a record that is COMPLETED exactly if the sandbox was
  -- made, the action succeeded and every cleanup worked, whose cleanup is SUCCESS exactly if the
  -- worker has cleaned up, with the run not active any more, and with the record as the answer if all
  -- was done. The states of a worker must be their own upper case.
  pub run_is_recorded :
      (to_uppercase : Text → Text) (to_string : Status → Text) (run_id now : Text) (action : Action)
      (a : Answers) (ws : List Wake) (from : ℕ) (w : Write) (s : RunState)
      → ((t : Text) → is_terminal t ≡ true → to_uppercase t ≡ t)
      → Delivered (sent (run_worker run_id action a).0) ws
      → (l : Loop) × (o : DispatchOutcome) × (dispatch to_uppercase run_id ws (started from)
          ≡ finished l (ok o))
        × Leaves w
            (end_of run_id action a a.sandbox_created).1
            (run_worker run_id action a).1
            run_id
            s
            (close to_line signature w now run_id true (settled_of to_string true (ok o)) s)
  unfolding close update
  run_is_recorded to_uppercase to_string run_id now action a ws from w s upper d =
      let (l, o, e, agrees) = dispatch-Agrees to_uppercase run_id action a ws from upper d in
      let settled = settled_of to_string true (ok o) in
      (
        l,
        o,
        e,
        closed-Leaves w now run_id s settled _ _ _ (settled_of-Comes to_string _ _ o agrees) (
            commit-Updates w run_id (λ r. sign signature (closed_record now true settled r))
              (get run_id s.audit.trail) s.audit refl),
      )

-- ===== src/Polr/Threads.antt =====
-- `Create`, `Update` and `Delete` of pkg/api/polr.go as threads. The API server runs each request in a goroutine of
-- its own; the storage makes each of its calls one step under its mutex, and so does the broadcaster. A
-- thread is what a handler has yet to do; one step runs it up to and with its next such call.
pub mod Rest
pub mod Alone
pub mod Vacancy
pub mod Counts
pub mod Gains
pub mod Race
pub mod Balance
pub mod Aimed
pub mod Winner
pub mod Lost
pub mod Overtaken
pub mod Ends
pub mod Quiet
pub mod Told
use policy_server.Prelude.{
  ℕ, zero, suc, ◌≡◌, ◌⊎◌, inl, inr, Bool, true, false, Option, none, some, List, [], ◌∷◌, ◌++◌,
  if◌then◌else◌,
}
use policy_server.Prelude.Texts.{Text, codes}
use policy_server.Result.{
  attempt, not_found, Error, Result, ok, err, panicked, wrapped, pure, lift, or_fail, ◌>>=◌, ◌>>◌,
}
use policy_server.Strconv.{parse_int}
use policy_server.Storage.{Storage}
use policy_server.Report.{Platform, report}
use policy_server.Handler.{
  must_report, deleted, WriteOptions, is_dry_run, added, ReportOf, ObjectOf, State, Handler, stored,
  broadcast, check_validation, as_report, UpdatedObjectInfo, raise_if,
}
use policy_server.Polr.{
  update_polr, delete_polr, polr_to_obj, invalid_resource, cannot_delete, key, get_polr,
  create_polr, next_version, default_namespace, cannot_create,
}

module _ (P : Platform) (S : Storage) where
  -- What a thread has done to the storage: it created a report, removed one, updated one, or only tried.
  pub data Work : Type 0 where
    creates removes : ReportOf P → Work
    updates tries : Work

  pub record CreateRequest : Type 0 where
    pub validate_new : ObjectOf P → Option Error
    pub create_namespace : Text
    pub new_object : ObjectOf P
    pub create_options : WriteOptions

  pub record UpdateRequest : Type 0 where
    pub info : UpdatedObjectInfo P S
    pub validate_change : Option (ObjectOf P) → ReportOf P → Option Error
    pub update_namespace : Text
    pub update_name : Text
    pub update_options : WriteOptions

  pub record DeleteRequest : Type 0 where
    pub validate_removal : ReportOf P → Option Error
    pub delete_namespace : Text
    pub delete_name : Text
    pub delete_options : WriteOptions

  pub data Thread : Type 0 where
    create_asked : CreateRequest → Thread
    update_asked : UpdateRequest → Thread
    -- An `Update` with `forceAllowCreate`.
    force_asked : UpdateRequest → Thread
    delete_asked : DeleteRequest → Thread
    -- `updatePolr` is called, and reads the old version next.
    versioning : ReportOf P → Thread
    -- The report has its new version, and is written next.
    writing : ReportOf P → Thread
    -- `updatePolr` is called with `force` next.
    forcing : ReportOf P → Thread
    -- `deletePolr` is called next.
    deleting : ReportOf P → Thread
    -- The report is stored, and the watchers are told next.
    telling : Work → ReportOf P → Thread
    -- The report is removed, and the watchers are told next.
    telling_removed : ReportOf P → Thread
    finished : Work → Result (ObjectOf P) → Thread

  -- A handler goes on with a report, or is done with an object.
  abbrev pub Outcome : Type 0
  Outcome = ReportOf P ⊎ ObjectOf P

  -- `Create` up to and with its storage call.
  unfoldable pub create_step : CreateRequest → Handler P S Outcome
  create_step q = do
    check_validation P S (q.validate_new q.new_object) q.create_options.field_validation
    polr ← as_report P S (codes "failed to validate policy report") (some q.new_object)
    let r = default_namespace P S q.create_namespace polr
    if is_dry_run q.create_options
        then pure (inr (report r))
        else do r' ← or_fail (cannot_create P S) (create_polr P S r); pure (inl r')

  -- `Update` without `forceAllowCreate`, up to `updatePolr`.
  unfoldable pub update_step : UpdateRequest → Handler P S Outcome
  update_step q = do
    old ← get_polr P S q.update_name q.update_namespace
    let obj = (q.info (some old)).0
    raise_if P S (q.info (some old)).1
    check_validation P S (q.validate_change obj old) q.update_options.field_validation
    polr ← as_report P S (codes "failed to validate policy report") obj
    let r = default_namespace P S q.update_namespace polr
    if is_dry_run q.update_options then pure (inr (report r)) else pure (inl r)

  -- The first half of `updatePolr`, in `Update`.
  unfoldable pub version_step : ReportOf P → Handler P S Outcome
  version_step r = do r' ← or_fail (cannot_create P S) (next_version P S r false); pure (inl r')

  -- The second half of `updatePolr`.
  unfoldable pub write_version : ReportOf P → Handler P S (ReportOf P)
  write_version r = do
    val ← or_fail (wrapped (codes "could not marshal report")) (lift (P.marshal r))
    stored P S
        (S.update (key P.group_version r.name r.namespace) (parse_int r.resource_version).0 val)
    pure r

  unfoldable pub write_step : ReportOf P → Handler P S Outcome
  write_step r = do r' ← or_fail (cannot_create P S) (write_version r); pure (inl r')

  unfoldable pub tell_step : ReportOf P → Handler P S Outcome
  tell_step r = do broadcast P S added (report r); pure (inr (report r))

  -- `Update` with `forceAllowCreate`, up to `updatePolr`.
  unfoldable pub force_step : UpdateRequest → Handler P S Outcome
  force_step q = do
    old ← attempt (get_polr P S q.update_name q.update_namespace)
    polr ← must_report P S (q.info old).0
    pure (inl polr)

  -- `updatePolr` with `force`, whose error is dropped.
  unfoldable pub force_write : ReportOf P → Handler P S Outcome
  force_write r = do
    attempt (update_polr P S r true)
    pure (inl (record r { resource_version = codes "1" }))

  -- `Delete` up to `deletePolr`, and to its end in a dry run.
  unfoldable pub delete_step : DeleteRequest → Handler P S Outcome
  delete_step q = do
    polr ←
        or_fail (λ _. not_found (codes "policyreports") q.delete_name)
          (get_polr P S q.delete_name q.delete_namespace)
    raise_if P S (invalid_resource P S (q.validate_removal polr))
    if is_dry_run q.delete_options
        then (do obj ← polr_to_obj P S polr; pure (inr obj))
        else pure (inl polr)

  -- `deletePolr`, in `Delete`.
  unfoldable pub remove_step : ReportOf P → Handler P S Outcome
  remove_step r = do or_fail (cannot_delete P S) (delete_polr P S r); pure (inl r)

  -- The event of `Delete`, and the conversion of its result.
  unfoldable pub tell_removed_step : ReportOf P → Handler P S Outcome
  tell_removed_step r = do broadcast P S deleted (report r); obj ← polr_to_obj P S r; pure (inr obj)

  -- The thread after a step: `next` where the handler goes on.
  abbrev pub settle : Work → (ReportOf P → Thread) → Result Outcome × State P S → Thread × State P S
  settle work next (ok (inl r), t) = (next r, t)
  settle work next (ok (inr obj), t) = (finished work (ok obj), t)
  settle work next (err e, t) = (finished work (err e), t)
  settle work next (panicked, t) = (finished work panicked, t)

  -- One step of a thread; a finished one stands still.
  unfoldable pub advance : Thread → State P S → Thread × State P S
  advance (create_asked q) s = settle tries (λ r. telling (creates r) r) (create_step q s)
  advance (update_asked q) s = settle tries versioning (update_step q s)
  advance (versioning r) s = settle tries writing (version_step r s)
  advance (writing r) s = settle tries (telling updates) (write_step r s)
  advance (force_asked q) s = settle tries forcing (force_step q s)
  advance (forcing r) s = settle tries (telling updates) (force_write r s)
  advance (delete_asked q) s = settle tries deleting (delete_step q s)
  advance (deleting r) s = settle tries telling_removed (remove_step r s)
  advance (telling_removed r) s = settle (removes r) telling_removed (tell_removed_step r s)
  advance (telling work r) s = settle work (telling work) (tell_step r s)
  advance (finished work x) s = (finished work x, s)

  -- Threads over one store.
  pub record System : Type 0 where
    pub shared : State P S
    pub threads : List Thread

  abbrev pub IsRunning : Thread → Type 0
  IsRunning (finished work x) = ⊥
  IsRunning p = Unit

  -- Any thread that runs may be next.
  pub data Step (s t : System) : Type 0 where
    pick :
        (before : List Thread) (p : Thread) (after : List Thread)
        → s.threads ≡ before ++ (p ∷ after)
        → IsRunning p
        → t.threads ≡ before ++ ((advance p s.shared).0 ∷ after)
        → t.shared ≡ (advance p s.shared).1
        → Step s t

  pub data Schedule (s : System) : ℕ → System → Type 0 where
    begin : Schedule s zero s
    next : {n : ℕ} {t u : System} → Schedule s n t → Step t u → Schedule s (suc n) u

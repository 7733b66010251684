-- ===== src/Handler.antt =====
-- What the report handlers of pkg/api/polr.go and pkg/api/cpolr.go share: their state, their
-- options, and the steps that both write out.
pub mod Calls
pub mod Silent
pub mod Frame
use policy_server.Prelude.{
  ℕ, suc, Bool, Option, none, some, List, [], ◌∷◌, ◌++◌, map, if◌then◌else◌, false, ◌≡◌, refl, ◌⊎◌,
  inl, inr, arith,
}
use policy_server.Prelude.Texts.{Text, codes, text_eq, contains}
use policy_server.Result.Steps.{Still, Total, still_rules}
use policy_server.Result.{Error, Result, ok, err, panicked, bad_request, Exec, pure, raise, lift}
use policy_server.Storage.{Value, Storage}
use policy_server.Report.{Report, ReportList, Object, report, Platform}

-- `metav1.CreateOptions`, `UpdateOptions` and `DeleteOptions`
pub record WriteOptions : Type 0 where
  pub dry_run : List Text
  pub field_validation : Text

-- `isDryRun := slices.Contains(options.DryRun, "All")`
unfoldable pub is_dry_run : WriteOptions → Bool
is_dry_run options = contains options.dry_run (codes "All")

pub data EventType : Type 0 where
  added deleted : EventType

module _ (P : Platform) where
  abbrev pub ReportOf : Type 0
  ReportOf = Report P.Body

  abbrev pub ObjectOf : Type 0
  ObjectOf = Object P.Body P.Unstructured P.Foreign

  -- A call to the broadcaster.
  pub data Call : Type 0 where
    action : EventType → ObjectOf → Call
    watched : Call

  -- `metainternalversion.ListOptions`
  pub record ListOptions : Type 0 where
    pub label_selector : Option P.Selector

  -- `json.Unmarshal(data, &report)` with a variable of its own.
  unfoldable pub decode : Text → Result ReportOf
  decode bytes = elim (P.unmarshal bytes P.zero_cell P.empty_heap) [
    | ok (cell, heap) ↦ ok (P.view heap cell)
    | err e ↦ err e
    | panicked ↦ panicked
  ]

  -- The loop of `listPolr` and `listCpolr`: one variable serves every round, and its maps and slices
  -- are shared with the items that were copied from it before.
  unfoldable pub decode_loop :
      List Value → P.Cell → P.Heap → List P.Cell → Result (List P.Cell × P.Heap)
  decode_loop [] cell heap items = ok (items, heap)
  decode_loop (v ∷ vs) cell heap items = elim (P.unmarshal v.value_data cell heap) [
    | ok (cell', heap') ↦ decode_loop vs cell' heap' (items ++ (cell' ∷ []))
    | err e ↦ err e
    | panicked ↦ panicked
  ]

  abbrev pub listing : List ReportOf → ReportList P.Body
  listing items = record {
    items = items;
    list_resource_version = [];
    list_self_link = [];
    continue_token = [];
  }

  unfoldable pub decode_list : List Value → Result (ReportList P.Body)
  unfolding decode_loop
  decode_list vs = elim (decode_loop vs P.zero_cell P.empty_heap []) [
    | ok (cells, heap) ↦ ok (listing (map (P.view heap) cells))
    | err e ↦ err e
    | panicked ↦ panicked
  ]

  -- `labelSelector := labels.Everything()`, or the one in the options.
  unfoldable pub selector_of : Option ListOptions → P.Selector
  selector_of none = P.everything
  selector_of (some options) = elim options.label_selector [
    | none ↦ P.everything
    | some selector ↦ selector
  ]

  -- The loop of `List`: an item with nil labels ends it, and the whole list is returned.
  unfoldable pub select_loop :
      P.Selector → ReportList P.Body → List ReportOf → List ReportOf → ReportList P.Body
  select_loop selector all [] kept = listing kept
  select_loop selector all (r ∷ rs) kept =
      let rest =
        select_loop selector all rs
          (if P.matches selector r.labels then kept ++ (r ∷ []) else kept) in
      elim r.labels [ none ↦ all | some _ ↦ rest ]

module _ (P : Platform) (S : Storage) where
  -- A report store: the storage, the calls made to its broadcaster, and the outside world.
  pub record State : Type 0 where
    pub store : S.State
    pub calls : List (Call P)
    pub world : P.World

  abbrev pub Handler : Type 0 → Type 0
  Handler A = Exec State A

  -- A call of the storage.
  abbrev pub stored : {A : Type 0} → Exec S.State A → Handler A
  stored m s = let (r, t) = m s.store in (r, record s { store = t })

  -- `broadcaster.Action(...)`
  abbrev pub broadcast : EventType → ObjectOf P → Handler (Unit {0})
  broadcast kind object s = (ok tt, record s { calls = s.calls ++ (action kind object ∷ []) })

  abbrev pub fresh_uid : Handler Text
  fresh_uid s = let (uid, w) = P.new_uuid s.world in (ok uid, record s { world = w })

  abbrev pub current_time : Handler ℕ
  current_time s = let (t, w) = P.now s.world in (ok t, record s { world = w })

  -- `switch options.FieldValidation`: only "Strict" returns the validation's error.
  unfoldable pub check_validation : Option Error → Text → Handler (Unit {0})
  check_validation none mode = pure tt
  check_validation (some e) mode = if text_eq mode (codes "Strict") then raise e else pure tt

  -- `report, ok := obj.(*PolicyReport)`
  unfoldable pub as_report : Text → Option (ObjectOf P) → Handler (ReportOf P)
  as_report message (some (report r)) = pure r
  as_report message _ = raise (bad_request message)

  -- `obj.(*PolicyReport)` panics at any other type.
  unfoldable pub must_report : Option (ObjectOf P) → Handler (ReportOf P)
  must_report (some (report r)) = pure r
  must_report _ = lift panicked

  -- What `UpdatedObject` returns, from the old report or the nil pointer.
  abbrev pub UpdatedObjectInfo : Type 0
  UpdatedObjectInfo = Option (ReportOf P) → Option (ObjectOf P) × Option Error

  unfoldable pub raise_if : Option Error → Handler (Unit {0})
  raise_if none = pure tt
  raise_if (some e) = raise e

  abbrev pub call_count : List (Call P) → ℕ
  call_count [] = 0
  call_count (c ∷ cs) = suc (call_count cs)

  -- `return p.broadcaster.Watch()`
  unfoldable pub watch_broadcaster : Handler P.Watcher
  watch_broadcaster s =
      (P.subscribe (call_count s.calls), record s { calls = s.calls ++ (watched ∷ []) })

  -- Storage and broadcaster are as before.
  abbrev pub Untouched : State → State → Type 0
  Untouched s t = (t.store ≡ s.store) × (t.calls ≡ s.calls)

  pub Untouched-refl : (s : State) → Untouched s s
  Untouched-refl s = (refl, refl)

  -- The validation's answer lets a handler go on.
  abbrev pub Accepts : Option Error → WriteOptions → Type 0
  Accepts answer options =
      (answer ≡ none) ⊎ (text_eq options.field_validation (codes "Strict") ≡ false)

  pub check_validation-Accepts :
      (answer : Option Error) (options : WriteOptions) (s : State)
      → Accepts answer options
      → check_validation answer options.field_validation s ≡ (ok tt, s)
  unfolding check_validation pure
  check_validation-Accepts none options s h = refl
  check_validation-Accepts (some e) options s (inl h) = cc
  check_validation-Accepts (some e) options s (inr h) = rw h refl

  pub check_validation-Still :
      (answer : Option Error) (mode : Text) (s : State) → Still (check_validation answer mode) s
  unfolding check_validation
  check_validation-Still none mode s = search still_rules
  check_validation-Still (some e) mode s = search still_rules

  pub as_report-Still :
      (message : Text) (obj : Option (ObjectOf P)) (s : State) → Still (as_report message obj) s
  unfolding as_report
  as_report-Still message none s = search still_rules
  as_report-Still message (some (report r)) s = search still_rules
  as_report-Still message (some _) s = search still_rules

  pub raise_if-Still : (e : Option Error) (s : State) → Still (raise_if e) s
  unfolding raise_if
  raise_if-Still none s = search still_rules
  raise_if-Still (some e) s = search still_rules

  pub broadcast-Total : (kind : EventType) (object : ObjectOf P) → Total (broadcast kind object)
  broadcast-Total kind object = record { returns = λ s f. f }

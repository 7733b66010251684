-- ===== src/Report.antt =====
-- The objects that the handlers of pkg/api serve, and what the handlers take from other packages.
use policy_server.Prelude.{ℕ, Bool, Option, List}
use policy_server.Prelude.Texts.{Text}
use policy_server.Result.{Error, Result}
use policy_server.Strconv.{ℤ}
use policy_server.Storage.GoMap.{GoMap}

-- `PolicyReportSummary`
pub record Summary : Type 0 where
  pub pass : ℤ
  pub fail : ℤ
  pub warn : ℤ
  pub error : ℤ
  pub skip : ℤ

-- `PolicyReport` or `ClusterPolicyReport`: the fields that the handlers read or write, and `body`
-- for all the others. Labels are a map that may be nil; a time is in nanoseconds.
pub record Report (Body : Type 0) : Type 0 where
  pub name : Text
  pub namespace : Text
  pub uid : Text
  pub resource_version : Text
  pub creation_timestamp : ℕ
  pub self_link : Text
  pub labels : Option (GoMap Text)
  pub summary : Summary
  pub body : Body

-- `PolicyReportList` or `ClusterPolicyReportList`
pub record ReportList (Body : Type 0) : Type 0 where
  pub items : List (Report Body)
  pub list_resource_version : Text
  pub list_self_link : Text
  pub continue_token : Text

-- `runtime.Object`, by its dynamic type.
pub data Object (Body Unstructured Foreign : Type 0) : Type 0 where
  report : Report Body → Object Body Unstructured Foreign
  report_list : ReportList Body → Object Body Unstructured Foreign
  unstructured : Unstructured → Object Body Unstructured Foreign
  foreign_object : Foreign → Object Body Unstructured Foreign

-- What a package of handlers imports and does not implement.
pub record Platform : Type 1 where
  -- The report's other fields, and the objects of other types.
  pub Body : Type 0
  pub Unstructured : Type 0
  pub Foreign : Type 0
  -- `SchemeGroupVersion` of the API package, as text.
  pub group_version : Text
  -- `json.Marshal` at the report's type.
  pub marshal : Report Body → Result Text
  -- `json.Unmarshal` into a variable of the report's type. It fills the variable that it is given,
  -- whose maps and slices stand in `Heap`, and keeps what the JSON does not name.
  pub Cell : Type 0
  pub Heap : Type 0
  pub zero_cell : Cell
  pub empty_heap : Heap
  pub unmarshal : Text → Cell → Heap → Result (Cell × Heap)
  pub view : Heap → Cell → Report Body
  -- `json.Unmarshal` into `unstructured.Unstructured`, with `DeepCopyObject`.
  pub to_unstructured : Text → Result Unstructured
  -- `labels.Selector`
  pub Selector : Type 0
  pub everything : Selector
  pub matches : Selector → Option (GoMap Text) → Bool
  -- `uuid.NewUUID` and `metav1.Now`
  pub World : Type 0
  pub new_uuid : World → Text × World
  pub now : World → ℕ × World
  -- `Broadcaster.Watch`, from the number of calls made to the broadcaster before.
  pub Watcher : Type 0
  pub subscribe : ℕ → Result Watcher
  -- `err.Error()`
  pub error_text : Error → Text

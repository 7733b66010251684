-- ===== src/Tests.antt =====
-- A platform with a small JSON stand-in: fields in order, texts behind their lengths. As in Go, a
-- decoder that meets a map in its variable adds to that map. The children hold the theorems at
-- concrete inputs.
mod Setup
mod Reports
mod Removal
mod Filing
mod Stores
mod Cluster
mod Program
mod Versions
mod Safety
mod Progress
mod Threads
mod Service
use policy_server.Prelude.{
  ℕ, zero, suc, ◌+◌, ◌≡◌, refl, ap, sym, ◌∙◌, Bool, true, false, Option, none, some, List, [], ◌∷◌,
  ◌++◌, arith, if◌then◌else◌,
}
use policy_server.Prelude.Texts.{Text, codes}
use policy_server.Result.{Error, Result, ok, err, panicked, bad_request}
use policy_server.Strconv.{pos}
use policy_server.Storage.GoMap.{GoMap, lookup, insert}
use policy_server.Report.{Report, Summary, Platform}
use policy_server.Handler.{ReportOf, decode}
use policy_server.Polr.Serve.{KeepsNames}

abbrev length : Text → ℕ
length [] = 0
length (b ∷ t) = suc (length t)

abbrev put_text : Text → Text → Text
put_text t rest = length t ∷ (t ++ rest)

abbrev split : ℕ → Text → Text × Text
split zero s = ([], s)
split (suc n) [] = ([], [])
split (suc n) (b ∷ s) = let (t, rest) = split n s in (b ∷ t, rest)

abbrev get_text : Text → Text × Text
get_text [] = ([], [])
get_text (n ∷ s) = split n s

abbrev put_pairs : GoMap Text → Text → Text
put_pairs [] rest = 0 ∷ rest
put_pairs ((k, v) ∷ m) rest = 1 ∷ put_text k (put_text v (put_pairs m rest))

-- At most `fuel` pairs.
abbrev get_pairs : ℕ → Text → GoMap Text × Text
get_pairs (suc fuel) (suc _ ∷ s) =
    let (k, s1) = get_text s in
    let (v, s2) = get_text s1 in let (m, rest) = get_pairs fuel s2 in ((k, v) ∷ m, rest)
get_pairs _ (zero ∷ s) = ([], s)
get_pairs _ s = ([], s)

abbrev put_labels : Option (GoMap Text) → Text → Text
put_labels none rest = 0 ∷ rest
put_labels (some m) rest = 1 ∷ put_pairs m rest

abbrev get_labels : Text → Option (GoMap Text) × Text
get_labels (suc _ ∷ s) = let (m, rest) = get_pairs 100 s in (some m, rest)
get_labels (zero ∷ s) = (none, s)
get_labels [] = (none, [])

abbrev to_json : Report ℕ → Text
to_json r = put_text r.name (
    put_text r.namespace (
      put_text r.uid
        (put_text r.resource_version (r.creation_timestamp ∷ put_labels r.labels (r.body ∷ [])))))

-- The variable: its plain fields, and where its label map stands.
record Cell : Type 0 where
  pub plain : Report ℕ
  pub label_map : Option ℕ

abbrev Maps : Type 0
Maps = List (GoMap Text)

abbrev map_at : ℕ → Maps → GoMap Text
map_at n [] = []
map_at zero (m ∷ ms) = m
map_at (suc n) (m ∷ ms) = map_at n ms

abbrev add_all : GoMap Text → GoMap Text → GoMap Text
add_all m [] = m
add_all m ((k, v) ∷ extra) = add_all (insert k v m) extra

abbrev add_at : ℕ → GoMap Text → Maps → Maps
add_at n extra [] = []
add_at zero extra (m ∷ ms) = add_all m extra ∷ ms
add_at (suc n) extra (m ∷ ms) = m ∷ add_at n extra ms

abbrev size : Maps → ℕ
size [] = 0
size (m ∷ ms) = suc (size ms)

abbrev head_or_zero : Text → ℕ
head_or_zero [] = 0
head_or_zero (n ∷ s) = n

abbrev tail : Text → Text
tail [] = []
tail (n ∷ s) = s

abbrev no_summary : Summary
no_summary = record { pass = pos 0; fail = pos 0; warn = pos 0; error = pos 0; skip = pos 0 }

abbrev place_labels : Option (GoMap Text) → Option ℕ → Maps → Option ℕ × Maps
place_labels none at ms = (at, ms)
place_labels (some m) none ms = (some (size ms), ms ++ (m ∷ []))
place_labels (some m) (some n) ms = (some n, add_at n m ms)

abbrev from_json : Text → Cell → Maps → Result (Cell × Maps)
from_json bytes cell ms =
    let (name, s1) = get_text bytes in
    let (namespace, s2) = get_text s1 in
    let (uid, s3) = get_text s2 in
    let (version, s4) = get_text s3 in
    let (labels, s5) = get_labels (tail s4) in
    let (at, ms') = place_labels labels cell.label_map ms in
    ok (
      record {
        plain = record {
          name = name;
          namespace = namespace;
          uid = uid;
          resource_version = version;
          creation_timestamp = head_or_zero s4;
          self_link = [];
          labels = none;
          summary = no_summary;
          body = head_or_zero s5;
        };
        label_map = at;
      },
      ms',
    )

abbrev see : Maps → Cell → Report ℕ
see ms cell = record cell.plain {
  labels = elim cell.label_map [ none ↦ none | some n ↦ some (map_at n ms) ];
}

abbrev empty_report : Report ℕ
empty_report = record {
  name = [];
  namespace = [];
  uid = [];
  resource_version = [];
  creation_timestamp = 0;
  self_link = [];
  labels = none;
  summary = no_summary;
  body = 0;
}

-- A selector asks for a label's name; the empty name accepts everything.
abbrev accepts : Text → Option (GoMap Text) → Bool
accepts [] labels = true
accepts (b ∷ k) none = false
accepts (b ∷ k) (some m) = elim (lookup (b ∷ k) m) [ none ↦ false | some _ ↦ true ]

abbrev describe : Error → Text
describe (bad_request t) = t
describe _ = codes "error"

abbrev sample : Platform
sample = record {
  Body = ℕ;
  Unstructured = Text;
  Foreign = Unit {0};
  group_version = codes "wgpolicyk8s.io/v1alpha2";
  marshal = λ r. ok (to_json r);
  Cell = Cell;
  Heap = Maps;
  zero_cell = record { plain = empty_report; label_map = none };
  empty_heap = [];
  unmarshal = from_json;
  view = see;
  to_unstructured = λ bytes. ok bytes;
  Selector = Text;
  everything = [];
  matches = accepts;
  World = ℕ;
  new_uuid = λ w. (w ∷ [], w + 1);
  now = λ w. (w, w + 1);
  Watcher = ℕ;
  subscribe = λ n. ok n;
  error_text = describe;
}

abbrev named : Text → Text → Report ℕ
named name namespace = record empty_report { name = name; namespace = namespace }

split-length : (t rest : Text) → split (length t) (t ++ rest) ≡ (t, rest)
split-length [] rest = refl
split-length (b ∷ t) rest = ap (λ (p : Text × Text). (b ∷ p.0, p.1)) (split-length t rest)

sample-KeepsNames : KeepsNames sample
unfolding decode
sample-KeepsNames r back d m e =
    let json : to_json r ≡ d = cc in
    let name_read : (get_text d).0 ≡ back.name =
      ap (λ (x : Result (ReportOf sample)). elim x [ ok b ↦ b.name | _ ↦ [] ]) e in
    let namespace_read : (get_text (get_text d).1).0 ≡ back.namespace =
      ap (λ (x : Result (ReportOf sample)). elim x [ ok b ↦ b.namespace | _ ↦ [] ]) e in
    (
      sym name_read ∙ (rw (← json) (rw split-length refl)),
      sym namespace_read ∙ (rw (← json) (rw split-length (rw split-length refl))),
    )

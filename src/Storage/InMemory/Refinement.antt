-- ===== src/Storage/InMemory/Refinement.antt =====
-- The in-memory database of pkg/storage/inmemory/client.go against its abstract specification: a
-- function from keys to bytes. Clock, entry order and timestamps are forgotten.
use mathlib.Core.Path.{fun_ext}
use policy_server.Prelude.{
  ◌≡◌, refl, ap, ◌∙◌, ◌⊎◌, inl, inr, Option, none, some, List, [], ◌∷◌, if◌then◌else◌,
}
use policy_server.Prelude.Texts.{Text, text_eq}
use policy_server.Result.{Error, Result, ok, err, panicked, not_found, already_exists}
use policy_server.Strconv.{ℤ}
use policy_server.Storage.{Value}
use policy_server.Storage.GoMap.{lookup}
use policy_server.Storage.InMemory.{InMemoryDb, get, put, create, update, delete, group_resource}
use policy_server.Storage.InMemory.Laws.{
  contents, IsOpen, get_present, get_absent, assign_open, assign-IsOpen, create_absent,
  create_again, absent_value, present_value, update_present, update_absent, delete_present,
  delete_absent, lookup-contents-remove, create-IsOpen, update-IsOpen, delete-IsOpen,
}

pub data Command : Type 0 where
  read : Text → Command
  write : Text → Text → Command
  add : Text → Text → Command
  replace : Text → ℤ → Text → Command
  drop : Text → ℤ → Command

pub data Reply : Type 0 where
  found : Text → Reply
  done : Reply
  failed : Error → Reply
  crashed : Reply

-- The specification's state.
abbrev pub Mapping : Type 0
Mapping = Text → Option Text

abbrev pub with_key : Text → Option Text → Mapping → Mapping
with_key k v m j = if text_eq k j then v else m j

-- The reply and the new mapping, from what the mapping has at the command's key.
abbrev at_key : Command → Option Text → Mapping → Reply × Mapping
at_key (read k) none m = (failed (not_found group_resource k), m)
at_key (read k) (some d) m = (found d, m)
at_key (write k d) _ m = (done, with_key k (some d) m)
at_key (add k d) none m = (done, with_key k (some d) m)
at_key (add k d) (some _) m = (failed (already_exists group_resource k), m)
at_key (replace k r d) none m = (failed (not_found group_resource k), m)
at_key (replace k r d) (some _) m = (done, with_key k (some d) m)
at_key (drop k r) none m = (failed (not_found group_resource k), m)
at_key (drop k r) (some _) m = (done, with_key k none m)

abbrev key_of : Command → Text
key_of (read k) = k
key_of (write k d) = k
key_of (add k d) = k
key_of (replace k r d) = k
key_of (drop k r) = k

abbrev pub spec_step : Command → Mapping → Reply × Mapping
spec_step c m = at_key c (m (key_of c)) m

abbrev value_reply : Result Value → Reply
value_reply (ok v) = found v.value_data
value_reply (err e) = failed e
value_reply panicked = crashed

abbrev unit_reply : Result (Unit {0}) → Reply
unit_reply (ok _) = done
unit_reply (err e) = failed e
unit_reply panicked = crashed

-- The operation that a command calls.
abbrev pub run : Command → InMemoryDb → Reply × InMemoryDb
run (read k) s = let (r, t) = get k s in (value_reply r, t)
run (write k d) s = let (r, t) = put k d s in (unit_reply r, t)
run (add k d) s = let (r, t) = create k d s in (unit_reply r, t)
run (replace k v d) s = let (r, t) = update k v d s in (unit_reply r, t)
run (drop k v) s = let (r, t) = delete k v s in (unit_reply r, t)

abbrev pub mapping_of : InMemoryDb → Mapping
mapping_of s j = lookup j (contents s)

-- The step's reply and mapping are the specification's, and the database stays open.
pub record Refines (c : Command) (s : InMemoryDb) : Type 0 where
  pub same_reply : (run c s).0 ≡ (spec_step c (mapping_of s)).0
  pub same_mapping : (j : Text) → mapping_of (run c s).1 j ≡ (spec_step c (mapping_of s)).1 j
  pub still_open : IsOpen (run c s).1

lookup-cases :
    (k : Text) (s : InMemoryDb) → (mapping_of s k ≡ none) ⊎ ((d : Text) × (mapping_of s k ≡ some d))
lookup-cases k s = go (mapping_of s k) refl
  where
    go :
        (x : Option Text)
        → mapping_of s k ≡ x
        → (mapping_of s k ≡ none) ⊎ ((d : Text) × (mapping_of s k ≡ some d))
    go none e = inl e
    go (some d) e = inr (d, e)

read-Refines : (k : Text) (s : InMemoryDb) → IsOpen s → Refines (read k) s
read-Refines k s o = elim (lookup-cases k s) [
  | inl e ↦ record {
    same_reply = rw (get_absent k s e) (rw e refl);
    same_mapping = λ j. rw (get_absent k s e) (rw e refl);
    still_open = rw (get_absent k s e) o;
  }
  | inr (d, e) ↦
      let (v, g, p) = get_present k s d e in
      record {
        same_reply = rw g (rw e (ap found p));
        same_mapping = λ j. rw g (rw e refl);
        still_open = rw g o;
      }
]

write-Refines : (k d : Text) (s : InMemoryDb) → IsOpen s → Refines (write k d) s
unfolding put
write-Refines k d s o =
    let (e, kept) = assign_open k d s o in
    record { same_reply = ap unit_reply e; same_mapping = kept; still_open = assign-IsOpen k d s o }

add-Refines : (k d : Text) (s : InMemoryDb) → IsOpen s → Refines (add k d) s
add-Refines k d s o = elim (lookup-cases k s) [
  | inl e ↦
      let (w, kept) = assign_open k d s o in
      let c = create_absent k d s (absent_value k s e) in
      record {
        same_reply = rw c (rw e (ap unit_reply w));
        same_mapping = λ j. rw c (rw e (kept j));
        still_open = create-IsOpen k d s o;
      }
  | inr (old, e) ↦
      let (v, g, _) = present_value k s old e in
      let c = create_again k d s v g in
      record {
        same_reply = rw c (rw e refl);
        same_mapping = λ j. rw c (rw e refl);
        still_open = create-IsOpen k d s o;
      }
]

replace-Refines : (k d : Text) (r : ℤ) (s : InMemoryDb) → IsOpen s → Refines (replace k r d) s
replace-Refines k d r s o = elim (lookup-cases k s) [
  | inl e ↦
      let c = update_absent k d r s (absent_value k s e) in
      record {
        same_reply = rw c (rw e refl);
        same_mapping = λ j. rw c (rw e refl);
        still_open = update-IsOpen k d r s o;
      }
  | inr (old, e) ↦
      let (w, kept) = assign_open k d s o in
      let (v, g, _) = present_value k s old e in
      let c = update_present k d r s v g in
      record {
        same_reply = rw c (rw e (ap unit_reply w));
        same_mapping = λ j. rw c (rw e (kept j));
        still_open = update-IsOpen k d r s o;
      }
]

drop-Refines : (k : Text) (r : ℤ) (s : InMemoryDb) → IsOpen s → Refines (drop k r) s
drop-Refines k r s o = elim (lookup-cases k s) [
  | inl e ↦
      let c = delete_absent k r s (absent_value k s e) in
      record {
        same_reply = rw c (rw e refl);
        same_mapping = λ j. rw c (rw e refl);
        still_open = delete-IsOpen k r s o;
      }
  | inr (old, e) ↦
      let (v, g, _) = present_value k s old e in
      let c = delete_present k r s v g in
      record {
        same_reply = rw c (rw e refl);
        same_mapping = λ j. rw c (rw e (lookup-contents-remove k s o j));
        still_open = delete-IsOpen k r s o;
      }
]

pub step-Refines : (c : Command) (s : InMemoryDb) → IsOpen s → Refines c s
step-Refines (read k) s o = read-Refines k s o
step-Refines (write k d) s o = write-Refines k d s o
step-Refines (add k d) s o = add-Refines k d s o
step-Refines (replace k r d) s o = replace-Refines k d r s o
step-Refines (drop k r) s o = drop-Refines k r s o

-- The replies to a sequence of commands.
abbrev pub replies : List Command → InMemoryDb → List Reply
replies [] s = []
replies (c ∷ cs) s = let (r, t) = run c s in r ∷ replies cs t

abbrev pub spec_replies : List Command → Mapping → List Reply
spec_replies [] m = []
spec_replies (c ∷ cs) m = let (r, t) = spec_step c m in r ∷ spec_replies cs t

-- An open database answers any sequence of `Get`, `Put`, `Create`, `Update` and `Delete` calls as a plain
-- function from keys to bytes does, with each error in its place.
pub replies-spec_replies :
    (cs : List Command) (s : InMemoryDb) → IsOpen s → replies cs s ≡ spec_replies cs (mapping_of s)
replies-spec_replies [] s o = refl
replies-spec_replies (c ∷ cs) s o =
    let r = step-Refines c s o in
    let next : mapping_of (run c s).1 ≡ (spec_step c (mapping_of s)).1 = fun_ext r.same_mapping in
    let rest = replies-spec_replies cs (run c s).1 r.still_open in
    rw (r.same_reply) (
      ap (λ (l : List Reply). (spec_step c (mapping_of s)).0 ∷ l)
        (rest ∙ ap (spec_replies cs) next))

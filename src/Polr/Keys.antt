-- ===== src/Polr/Keys.antt =====
-- The storage keys of policy reports (`key` and `keyForList` of pkg/api/polr.go).
use mathlib.Core.List.{append_assoc}
use policy_server.Prelude.{◌≡◌, ◌≢◌, sym, ◌∙◌, true, ◌∷◌, ◌++◌, ◌↔◌}
use policy_server.Prelude.Texts.{
  Text, codes, NoSlash, append_cancel, segment_injective, has_prefix, has_prefix-append,
  has_prefix_split,
}
use policy_server.Polr.{key, key_for_list}

-- The text of a `schema.GroupVersion`: two slash-free names with a slash between them.
pub record IsGroupVersion (gv : Text) : Type 0 where
  pub group : Text
  pub version : Text
  pub group_plain : NoSlash group
  pub version_plain : NoSlash version
  pub spelled : gv ≡ group ++ (b'/' ∷ version)

-- After the API group and version, the namespace and the name can be read back.
tail_injective :
    (name name' namespace namespace' : Text)
    → NoSlash namespace
    → NoSlash namespace'
    → namespace ++ (codes "/policyreports/" ++ name)
      ≡ namespace' ++ (codes "/policyreports/" ++ name')
    → (namespace ≡ namespace') × (name ≡ name')
tail_injective name name' namespace namespace' h h' e =
    let (p, q) = segment_injective namespace namespace' _ _ h h' e in
    (p, append_cancel (codes "policyreports/") name name' q)

-- Under one API version, reports with different names or namespaces have different keys.
pub key_injective :
    (gv name name' namespace namespace' : Text)
    → NoSlash namespace
    → NoSlash namespace'
    → key gv name namespace ≡ key gv name' namespace'
    → (namespace ≡ namespace') × (name ≡ name')
unfolding key
key_injective gv name name' namespace namespace' h h' e =
    tail_injective name name' namespace namespace' h h' (
      append_cancel (codes "/namespaces/") _ _
        (append_cancel gv _ _ (append_cancel (codes "/apis/") _ _ e)))

group_version_injective :
    (g v g' v' s t : Text)
    → NoSlash g
    → NoSlash v
    → NoSlash g'
    → NoSlash v'
    → (g ++ (b'/' ∷ v)) ++ (b'/' ∷ s) ≡ (g' ++ (b'/' ∷ v')) ++ (b'/' ∷ t)
    → (g ≡ g') × (v ≡ v') × (s ≡ t)
group_version_injective g v g' v' s t ng nv ng' nv' e =
    let regrouped : g ++ (b'/' ∷ (v ++ (b'/' ∷ s))) ≡ g' ++ (b'/' ∷ (v' ++ (b'/' ∷ t))) =
      sym (append_assoc g (b'/' ∷ v) (b'/' ∷ s)) ∙ (e ∙ append_assoc g' (b'/' ∷ v') (b'/' ∷ t)) in
    let (p, q) = segment_injective g g' _ _ ng ng' regrouped in
    let (p', q') = segment_injective v v' s t nv nv' q in (p, p', q')

-- For group versions of two slash-free parts and slash-free namespaces, a storage key determines
-- the API version, the namespace and the name of its report.
pub key_determines :
    (gv gv' name name' namespace namespace' : Text)
    → IsGroupVersion gv
    → IsGroupVersion gv'
    → NoSlash namespace
    → NoSlash namespace'
    → key gv name namespace ≡ key gv' name' namespace'
    → (gv ≡ gv') × (namespace ≡ namespace') × (name ≡ name')
unfolding key
key_determines gv gv' name name' namespace namespace' v v' h h' e =
    let spelled : (v.group ++ (b'/' ∷ v.version))
          ++ (codes "/namespaces/" ++ (namespace ++ (codes "/policyreports/" ++ name)))
        ≡ (v'.group ++ (b'/' ∷ v'.version))
          ++ (codes "/namespaces/" ++ (namespace' ++ (codes "/policyreports/" ++ name'))) =
      rw (← v.spelled, ← v'.spelled) (append_cancel (codes "/apis/") _ _ e) in
    let (p, q, r) =
      group_version_injective v.group v.version v'.group v'.version _ _ v.group_plain
        v.version_plain v'.group_plain v'.version_plain spelled in
    let (m, n) =
      tail_injective name name' namespace namespace' h h'
        (append_cancel (codes "namespaces/") _ _ r) in
    (v.spelled ∙ (cc (p, q) ∙ sym v'.spelled), m, n)

pub key-eq-append :
    (gv name namespace : Text) → key gv name namespace ≡ key_for_list gv namespace ++ name
unfolding key key_for_list
key-eq-append gv name namespace = simp append_assoc

-- For slash-free namespaces, a key lies under the listing prefix of a namespace exactly if it is a
-- key of that namespace.
pub has_prefix-key :
    (gv name namespace namespace' : Text)
    → NoSlash namespace
    → NoSlash namespace'
    → (has_prefix (key gv name namespace) (key_for_list gv namespace') ≡ true)
      ↔ (namespace ≡ namespace')
has_prefix-key gv name namespace namespace' h h' = (
  λ p.
      let (r, e) = has_prefix_split (key gv name namespace) (key_for_list gv namespace') p in
      (key_injective gv name r namespace namespace' h h'
        (e ∙ sym (key-eq-append gv r namespace'))).0,
  λ e. rw (← e, key-eq-append) (has_prefix-append (key_for_list gv namespace) name),
)

-- Reports of two API versions have different keys, whatever their namespaces.
pub key-ne-version :
    (gv gv' name name' namespace namespace' : Text)
    → IsGroupVersion gv
    → IsGroupVersion gv'
    → gv ≢ gv'
    → key gv name namespace ≢ key gv' name' namespace'
unfolding key
key-ne-version gv gv' name name' namespace namespace' v v' apart e =
    let spelled : (v.group ++ (b'/' ∷ v.version))
          ++ (codes "/namespaces/" ++ (namespace ++ (codes "/policyreports/" ++ name)))
        ≡ (v'.group ++ (b'/' ∷ v'.version))
          ++ (codes "/namespaces/" ++ (namespace' ++ (codes "/policyreports/" ++ name'))) =
      rw (← v.spelled, ← v'.spelled) (append_cancel (codes "/apis/") _ _ e) in
    let (p, q, r) =
      group_version_injective v.group v.version v'.group v'.version _ _ v.group_plain
        v.version_plain v'.group_plain v'.version_plain spelled in
    apart (v.spelled ∙ (cc (p, q) ∙ sym v'.spelled))

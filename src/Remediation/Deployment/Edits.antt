-- ===== src/Remediation/Deployment/Edits.antt =====
-- What a plan of src/payops/remediation/deployment.py changes.
use pay_ops.Base.{
  String, Bool, true, false, not, ◌≡◌, refl, sym, ap, ◌∙◌, subst, List, [], ◌∷◌, string_eq,
  Bool-cases, inl, inr, ◌⊎◌, not-eq-false, arith,
}
use pay_ops.Base.Result.{ok, raise_if, raise_if-eq-ok, >>=-eq-ok, ok_inj}
use pay_ops.Base.Json.{
  pos, Json, null, boolean, integer, real, text, array, object, Items, nil, item, Members, empty,
  member, lookup, has_key, is_text,
}
use pay_ops.Base.Dicts.{
  at_key, get_or, set_member, erase, object_value, object_list, objects, lookup-set_member,
  erase-set_member,
}
use pay_ops.Policy.Records.{
  Action, ActionType, restart_deployment, scale_deployment, rollback_deployment,
  pause_synthetic_traffic,
}
use pay_ops.Remediation.Deployment.{
  Mapping, image_of, rollback_image, with_image, rollback_template, restart_template,
}

-- An object that was there, or none where a missing one reads as empty.
abbrev pub IsObject : Json → Members → Type 0
IsObject x n = (x ≡ object n) ⊎ (x ≡ null) × (n ≡ empty)

-- `m'` is `m` but for the value at a path of keys, whose old and new values are related by `P`.
abbrev pub EditedAt : String → List String → (Json → Json → Type 0) → Members → Members → Type 0
EditedAt k [] P m m' = (erase k m' ≡ erase k m) × P (lookup k m) (lookup k m')
EditedAt k (j ∷ js) P m m' =
    (erase k m' ≡ erase k m)
    × (n : Members) × (n' : Members) × IsObject (lookup k m) n
    × (lookup k m' ≡ object n')
    × EditedAt j js P n n'

-- The one container of a deployment gets the image that the operator has approved for the revision.
pub record IsRolledBack (is_image : String → String → Bool) (revisions : Mapping)
    (revision : String) (old new : Json) : Type 0 where
  pub container : Members
  pub changed : Members
  pub was : old ≡ array (item (object container) nil)
  pub now : new ≡ array (item (object changed) nil)
  pub named : is_text "sandbox" (lookup "name" container) ≡ true
  pub edited :
      EditedAt "image" [] (λ _ v. v ≡ text (image_of (revisions revision))) container changed
  pub approved : is_image revision (image_of (revisions revision)) ≡ true

-- The approved change of a spec, by the kind of action.
abbrev pub Changes :
    (String → String → Bool) → Mapping → String → ActionType → Members → Members → Type 0
Changes is_image revisions key (scale_deployment n) before after =
    EditedAt "replicas" [] (λ _ v. v ≡ integer (pos n)) before after
Changes is_image revisions key (rollback_deployment revision) before after =
    EditedAt "template" ("spec" ∷ "containers" ∷ []) (IsRolledBack is_image revisions revision)
      before after
Changes is_image revisions key restart_deployment before after =
    EditedAt "template" ("metadata" ∷ "annotations" ∷ "payops.dev/remediation" ∷ [])
      (λ _ v. v ≡ text key) before after
Changes is_image revisions key pause_synthetic_traffic before after = ⊥

pub at_key-lookup : (k : String) (m : Members) (x : Json) → at_key k m ≡ ok x → x ≡ lookup k m
at_key-lookup k m x e = ground (arith, e)

pub object_value-object : (x : Json) (n : Members) → object_value x ≡ ok n → x ≡ object n
object_value-object (object m) n e = ap object (ok_inj e)
object_value-object null n e = absurd (cc)
object_value-object (boolean b) n e = absurd (cc)
object_value-object (integer z) n e = absurd (cc)
object_value-object (real r) n e = absurd (cc)
object_value-object (text t) n e = absurd (cc)
object_value-object (array xs) n e = absurd (cc)

missing-lookup : (k : String) (m : Members) → has_key k m ≡ false → lookup k m ≡ null
missing-lookup k empty h = refl
missing-lookup k (member j v rest) h = ground (arith, missing-lookup k rest, h)

-- A subscript that is an object.
pub subscript :
    (k : String) (m n : Members) (x : Json)
    → at_key k m ≡ ok x
    → object_value x ≡ ok n
    → IsObject (lookup k m) n
subscript k m n x e f = inl (sym (at_key-lookup k m x e) ∙ object_value-object x n f)

get_or-IsObject :
    (k : String) (m n : Members)
    → object_value (get_or k (object empty) m) ≡ ok n
    → IsObject (lookup k m) n
get_or-IsObject k m n e = elim (Bool-cases (has_key k m)) [
  | inl h ↦
      let f : get_or k (object empty) m ≡ lookup k m = rw h refl in
      inl (object_value-object (lookup k m) n (subst (λ x. object_value x ≡ ok n) f e))
  | inr h ↦
      let f : get_or k (object empty) m ≡ object empty = rw h refl in
      inr (missing-lookup k m h, sym (ok_inj (subst (λ x. object_value x ≡ ok n) f e)))
]

module _ (k : String) (m : Members) where
  pub set-EditedAt :
      (v : Json) (P : Json → Json → Type 0)
      → P (lookup k m) v
      → EditedAt k [] P m (set_member k v m)
  set-EditedAt v P p =
      (erase-set_member k v m, subst (P (lookup k m)) (sym (lookup-set_member k v m)) p)

  pub within-EditedAt :
      (j : String) (js : List String) (P : Json → Json → Type 0) (n n' : Members)
      → IsObject (lookup k m) n
      → EditedAt j js P n n'
      → EditedAt k (j ∷ js) P m (set_member k (object n') m)
  within-EditedAt j js P n n' o e =
      (erase-set_member k (object n') m, n, n', o, lookup-set_member k (object n') m, e)

module _ (digest : Action → String) (is_image : String → String → Bool) where
  pub restart_template-EditedAt :
      (key : String) (t t' : Members)
      → restart_template digest is_image key t ≡ ok t'
      → EditedAt "metadata"
          ("annotations" ∷ "payops.dev/remediation" ∷ [])
          (λ _ v. v ≡ text key)
          t
          t'
  unfolding restart_template
  restart_template-EditedAt key t t' e =
      let (found, e1, e) = >>=-eq-ok (at_key "metadata" t) _ e in
      let (metadata, e2, e) = >>=-eq-ok (object_value found) _ e in
      let (annotations, e3, e) =
        >>=-eq-ok (object_value (get_or "annotations" (object empty) metadata)) _ e in
      subst
        (EditedAt "metadata" ("annotations" ∷ "payops.dev/remediation" ∷ []) (λ _ v. v ≡ text key)
          t)
        (ok_inj e)
        (within-EditedAt "metadata" t "annotations" ("payops.dev/remediation" ∷ [])
          (λ _ v. v ≡ text key) metadata
          (set_member "annotations"
            (object (set_member "payops.dev/remediation" (text key) annotations)) metadata)
          (subscript "metadata" t metadata found e1 e2)
          (within-EditedAt "annotations" metadata "payops.dev/remediation" [] (λ _ v. v ≡ text key)
            annotations (set_member "payops.dev/remediation" (text key) annotations)
            (get_or-IsObject "annotations" metadata annotations e3)
            (set-EditedAt "payops.dev/remediation" annotations (text key) (λ _ v. v ≡ text key)
              refl)))

  rollback_image-approved :
      (revision : String) (revisions : Mapping) (image : String)
      → rollback_image digest is_image revision revisions ≡ ok image
      → (image ≡ image_of (revisions revision))
        × (is_image revision (image_of (revisions revision)) ≡ true)
  unfolding rollback_image
  rollback_image-approved revision revisions image e =
      let (_, h, e) =
        >>=-eq-ok (raise_if (not (is_image revision (image_of (revisions revision)))) _) _ e in
      (sym (ok_inj e), (not-eq-false _).0 ((raise_if-eq-ok _ _).0 h))

  one_object : (xs : Items) (c : Members) → objects xs ≡ ok (c ∷ []) → xs ≡ item (object c) nil
  one_object nil c e = absurd (cc)
  one_object (item x nil) c e =
      let (m, f, e) = >>=-eq-ok (object_value x) _ e in
      ap (λ y. item y nil) (object_value-object x m f ∙ ap object (head (ok_inj e)))
    where
      head : {m c : Members} → m ∷ [] ≡ c ∷ [] → m ≡ c
      head e = cc
  one_object (item x (item y rest)) c e =
      let (m, f, e) = >>=-eq-ok (object_value x) _ e in
      let (ms, g, e) = >>=-eq-ok (objects (item y rest)) _ e in
      let (m', f', g) = >>=-eq-ok (object_value y) _ g in
      let (ms', g', g) = >>=-eq-ok (objects rest) _ g in absurd (cc (ok_inj e, ok_inj g))

  listed-array :
      (x : Json) (c : Members) → object_list x ≡ ok (c ∷ []) → x ≡ array (item (object c) nil)
  listed-array (array xs) c e = ap array (one_object xs c e)
  listed-array (object m) c e = absurd (cc)
  listed-array null c e = absurd (cc)
  listed-array (boolean b) c e = absurd (cc)
  listed-array (integer z) c e = absurd (cc)
  listed-array (real r) c e = absurd (cc)
  listed-array (text t) c e = absurd (cc)

  with_image-IsRolledBack :
      (revision : String) (revisions : Mapping) (cs : List Members) (old new : Json)
      → object_list old ≡ ok cs
      → with_image digest is_image cs (rollback_image digest is_image revision revisions) ≡ ok new
      → IsRolledBack is_image revisions revision old new
  with_image-IsRolledBack revision revisions [] old new l e = absurd (cc)
  with_image-IsRolledBack revision revisions (c ∷ []) old new l e =
      let (_, named, e) = >>=-eq-ok (raise_if (not (is_text "sandbox" (lookup "name" c))) _) _ e in
      let (image, found, e) = >>=-eq-ok (rollback_image digest is_image revision revisions) _ e in
      let (same, approved) = rollback_image-approved revision revisions image found in
      record {
        container = c;
        changed = set_member "image" (text image) c;
        was = listed-array old c l;
        now = sym (ok_inj e);
        named = (not-eq-false _).0 ((raise_if-eq-ok _ _).0 named);
        edited =
            set-EditedAt "image" c (text image) (λ _ v. v ≡ text (image_of (revisions revision)))
              (ap text same);
        approved = approved;
      }
  with_image-IsRolledBack revision revisions (c ∷ d ∷ cs) old new l e = absurd (cc)

  pub rollback_template-EditedAt :
      (revision : String) (revisions : Mapping) (t t' : Members)
      → rollback_template digest is_image revision revisions t ≡ ok t'
      → EditedAt "spec" ("containers" ∷ []) (IsRolledBack is_image revisions revision) t t'
  unfolding rollback_template
  rollback_template-EditedAt revision revisions t t' e =
      let (found, e1, e) = >>=-eq-ok (at_key "spec" t) _ e in
      let (spec, e2, e) = >>=-eq-ok (object_value found) _ e in
      let (listed, e3, e) = >>=-eq-ok (at_key "containers" spec) _ e in
      let (cs, e4, e) = >>=-eq-ok (object_list listed) _ e in
      let (new, e5, e) =
        >>=-eq-ok
          (with_image digest is_image cs (rollback_image digest is_image revision revisions)) _ e in
      let done = with_image-IsRolledBack revision revisions cs listed new e4 e5 in
      subst (EditedAt "spec" ("containers" ∷ []) (IsRolledBack is_image revisions revision) t)
        (ok_inj e)
        (within-EditedAt "spec" t "containers" [] (IsRolledBack is_image revisions revision) spec
          (set_member "containers" new spec) (subscript "spec" t spec found e1 e2)
          (set-EditedAt "containers" spec new (IsRolledBack is_image revisions revision) (
            subst (λ x. IsRolledBack is_image revisions revision x new)
              (at_key-lookup "containers" spec listed e3) done)))

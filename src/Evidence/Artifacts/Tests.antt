-- ===== src/Evidence/Artifacts/Tests.antt =====
-- One artifact in the store of src/payops/evidence/artifacts.py, on a platform whose payloads have a text
-- as their only member, and are written as that text.
use pay_ops.Base.{
  String, Bool, true, false, ◌≡◌, refl, sym, subst, some, [], ◌∷◌, ◌==◌, string_eq, if◌then◌else◌,
  Bool-cases, inl, inr,
}
use pay_ops.Base.Result.{Result, ok, err, value_error}
use pay_ops.Base.Json.{
  Json, null, boolean, integer, real, text, array, object, Members, empty, member, lookup, is_text,
}
use pay_ops.Contracts.{EvidenceItem}
use pay_ops.Evidence.Artifacts.{Platform, address, write_artifact, verify_artifact}
use pay_ops.Evidence.Artifacts.Retention.{here, next, write_artifact-verify_artifact}
use pay_ops.Remediation.Examples.{pod_status}

abbrev one_text : String → Json → Members → Result String
one_text key (text value) empty = if key == "evidence" then ok value else err value_error
one_text key value rest = err value_error

abbrev dumps : Members → Result String
dumps empty = err value_error
dumps (member key value rest) = one_text key value rest

abbrev loads : String → Members
loads value = member "evidence" (text value) empty

abbrev equal : Json → Json → Bool
equal (text a) b = is_text a b
equal a b = false

dumps-loads : (p : Members) (content : String) → dumps p ≡ ok content → loads content ≡ p
dumps-loads empty content e = absurd (cc)
dumps-loads (member key (text value) empty) content e = elim (Bool-cases (key == "evidence")) [
  | inl t ↦ cc (rw t at e, (string_eq.beq_iff key "evidence").0 t)
  | inr f ↦ absurd (cc (rw f at e))
]
dumps-loads (member key (text value) (member k v rest)) content e = absurd (cc)
dumps-loads (member key null rest) content e = absurd (cc)
dumps-loads (member key (boolean b) rest) content e = absurd (cc)
dumps-loads (member key (integer n) rest) content e = absurd (cc)
dumps-loads (member key (real r) rest) content e = absurd (cc)
dumps-loads (member key (array xs) rest) content e = absurd (cc)
dumps-loads (member key (object m) rest) content e = absurd (cc)

abbrev texts : Platform String
texts = record {
  dumps = dumps;
  loads = λ content. some (loads content);
  size = λ content. 2;
  sha256_hex = λ content. content;
  is_digest = λ digest. true;
  equal = equal;
  dump_item = λ item. text item.evidence_id;
  loads-dumps = λ p content e. (
    loads content,
    refl,
    λ key value h. subst (λ q. equal (lookup key q) value ≡ true) (sym (dumps-loads p content e)) h,
  );
}

abbrev item : EvidenceItem
item = record pod_status { artifact_uri = address "ev-1"; artifact_sha256 = "ev-1" }

written :
    write_artifact texts (λ digest. true) (loads "ev-1") []
    ≡ (ok (item.artifact_uri, item.artifact_sha256), ("ev-1", "ev-1") ∷ [])
unfolding write_artifact
written = refl

-- Another artifact is written before the first one is verified.
write_artifact-verify_artifact_example :
    (read : Members) × (verify_artifact texts
        (λ digest. true)
        item
        (write_artifact texts (λ digest. true) (loads "ev-2") (("ev-1", "ev-1") ∷ [])).1
      ≡ ok read)
    × (equal (lookup "evidence" read) (text "ev-1") ≡ true)
write_artifact-verify_artifact_example =
    write_artifact-verify_artifact texts (λ digest. true) (loads "ev-1") item []
      (("ev-1", "ev-1") ∷ []) _ "evidence" (text "ev-1") written refl (next here (loads "ev-2"))
      refl

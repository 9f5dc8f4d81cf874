-- ===== src/Evidence/Artifacts/Retention.antt =====
-- What is written to the store of src/payops/evidence/artifacts.py stays readable.
use pay_ops.Base.{
  String, Bool, true, false, ◌≡◌, refl, sym, ap, ◌∙◌, subst, Option, none, some, Eq, ◌!=◌,
  string_eq, ltb, ne-eq-false, String_discrete,
}
use pay_ops.Base.Result.{
  Result, ok, err, integrity, raise_if, raise_if-then, raise_if-eq-ok, >>=-eq-ok, ok_inj, ◌>>◌,
}
use pay_ops.Base.Json.{Json, Members, lookup}
use pay_ops.Base.Table.{find_row, find_row-cons_ne, find_row-cons_self}
use pay_ops.Contracts.{EvidenceItem}
use pay_ops.Evidence.Artifacts.{
  Platform, address, max_artifact_bytes, Files, path_for, publish_over, publish_once, write_sized,
  write_content, write_artifact, verify_artifact,
}

module _ {Bytes : Type 0} ⦃bytes_eq : Eq Bytes⦄ (platform : Platform Bytes)
    (inside : String → Bool) where
  -- Any number of writes by any processes.
  pub data Written (start : Files platform inside) : Files platform inside → Type 0 where
    here : Written start start
    next :
        {files : Files platform inside}
        → Written start files
        → (payload : Members) → Written start (write_artifact platform inside payload files).1

  publish_once-keeps :
      (digest : String) (content : Bytes) (name : String) (kept : Bytes)
      (files : Files platform inside)
      → find_row name files ≡ some kept
      → find_row name (publish_once platform inside digest content files).1 ≡ some kept
  unfolding publish_once
  publish_once-keeps digest content name kept files h = go (find_row digest files) refl
    where
      go :
          (old : Option Bytes)
          → find_row digest files ≡ old
          → find_row name (publish_over platform inside digest content old files).1 ≡ some kept
      go (some old) e = h
      go none e = elim (String_discrete digest name) [
        | yes same ↦ absurd (cc (e, h, same))
        | no other ↦ find_row-cons_ne digest name content files other ∙ h
      ]

  write_artifact-keeps :
      (payload : Members) (name : String) (kept : Bytes) (files : Files platform inside)
      → find_row name files ≡ some kept
      → find_row name (write_artifact platform inside payload files).1 ≡ some kept
  unfolding write_artifact
  write_artifact-keeps payload name kept files h = go (platform.dumps payload)
    where
      sized :
          (content : Bytes) (r : Result (Unit {0}))
          → find_row name (write_sized platform inside content r files).1 ≡ some kept
      sized content (err e) = h
      sized content (ok _) =
          publish_once-keeps (platform.sha256_hex content) content name kept files h

      go : (r : Result Bytes) → find_row name (write_content platform inside r files).1 ≡ some kept
      go (err e) = h
      go (ok content) = sized content (
          raise_if (ltb max_artifact_bytes (platform.size content)) integrity
          >> path_for platform inside (platform.sha256_hex content))

  Written-keeps :
      {start files : Files platform inside} (name : String) (kept : Bytes)
      → Written start files
      → find_row name start ≡ some kept
      → find_row name files ≡ some kept
  Written-keeps name kept here h = h
  Written-keeps name kept (next w payload) h =
      write_artifact-keeps payload name kept _ (Written-keeps name kept w h)

  -- What a write that returned has left.
  pub record IsRetained (payload : Members) (uri digest : String) (files : Files platform inside)
      : Type 0 where
    pub content : Bytes
    pub dumped : platform.dumps payload ≡ ok content
    pub small : ltb max_artifact_bytes (platform.size content) ≡ false
    pub path : path_for platform inside digest ≡ ok tt
    pub named : digest ≡ platform.sha256_hex content
    pub address : uri ≡ address digest
    pub found : find_row digest files ≡ some content

  retained :
      {payload : Members} {uri digest : String} {files : Files platform inside} (content : Bytes)
      → platform.dumps payload ≡ ok content
      → ltb max_artifact_bytes (platform.size content) ≡ false
      → path_for platform inside (platform.sha256_hex content) ≡ ok tt
      → ◌≡◌ {A = String × String}
          (address (platform.sha256_hex content), platform.sha256_hex content)
          (uri, digest)
      → find_row (platform.sha256_hex content) files ≡ some content
      → IsRetained payload uri digest files
  retained {files = files} content d small path e f =
      let named = ap (λ x. x.1) e in
      record {
        content = content;
        dumped = d;
        small = small;
        path = subst (λ n. path_for platform inside n ≡ ok tt) named path;
        named = sym named;
        address = sym (ap (λ x. x.0) e) ∙ ap address named;
        found = subst (λ n. find_row n files ≡ some content) named f;
      }

  write_artifact-IsRetained :
      (payload : Members) (uri digest : String) (files files' : Files platform inside)
      → write_artifact platform inside payload files ≡ (ok (uri, digest), files')
      → IsRetained payload uri digest files'
  unfolding write_artifact publish_once
  write_artifact-IsRetained payload uri digest files files' e =
      of_dump (platform.dumps payload) refl e
    where
      pair :
          {r r' : Result (String × String)} {f f' : Files platform inside}
          → ◌≡◌ {A = Result (String × String) × Files platform inside} (r, f) (r', f')
          → (r ≡ r') × (f ≡ f')
      pair e = (ap (λ x. x.0) e, ap (λ x. x.1) e)

      of_old :
          (content : Bytes) (old : Option Bytes)
          → platform.dumps payload ≡ ok content
          → ltb max_artifact_bytes (platform.size content) ≡ false
          → path_for platform inside (platform.sha256_hex content) ≡ ok tt
          → find_row (platform.sha256_hex content) files ≡ old
          → publish_over platform inside (platform.sha256_hex content) content old files
            ≡ (ok (uri, digest), files')
          → IsRetained payload uri digest files'
      of_old content (some old) d small path f e =
          let (e0, e1) = pair e in
          let (_, same, e0) = >>=-eq-ok (raise_if (old != content) integrity) _ e0 in
          let one = (ne-eq-false old content).0 ((raise_if-eq-ok _ _).0 same) in
          retained content d small path (ok_inj e0) (
            subst (λ t. find_row (platform.sha256_hex content) t ≡ some content) e1
              (f ∙ ap some one))
      of_old content none d small path f e =
          let (e0, e1) = pair e in
          retained content d small path (ok_inj e0) (
            subst (λ t. find_row (platform.sha256_hex content) t ≡ some content) e1
              (find_row-cons_self (platform.sha256_hex content) content files))

      of_check :
          (content : Bytes) (c : Result (Unit {0}))
          → platform.dumps payload ≡ ok content
          → (raise_if (ltb max_artifact_bytes (platform.size content)) integrity
              >> path_for platform inside (platform.sha256_hex content))
            ≡ c
          → write_sized platform inside content c files ≡ (ok (uri, digest), files')
          → IsRetained payload uri digest files'
      of_check content (err x) d c e = absurd (cc (ap (λ y. y.0) e))
      of_check content (ok _) d c e =
          let (small, path) = (raise_if-then _ integrity _).0 c in
          of_old content (find_row (platform.sha256_hex content) files) d small path refl e

      of_dump :
          (r : Result Bytes)
          → platform.dumps payload ≡ r
          → write_content platform inside r files ≡ (ok (uri, digest), files')
          → IsRetained payload uri digest files'
      of_dump (err x) d e = absurd (cc (ap (λ y. y.0) e))
      of_dump (ok content) d e = of_check content _ d refl e

  -- An observation whose artifact has been written verifies from then on, whatever is written to the
  -- store after it: `verify` returns what was written, in which a member that was written with a value
  -- is equal to that value.
  -- The payload's member `evidence` is the dump of the observation, and the observation names the
  -- address and digest that `write` returned.
  pub write_artifact-verify_artifact :
      (payload : Members) (item : EvidenceItem) (files files1 files2 : Files platform inside)
      (key : String) (value : Json)
      → write_artifact platform inside payload files
        ≡ (ok (item.artifact_uri, item.artifact_sha256), files1)
      → platform.equal (lookup "evidence" payload) (platform.dump_item item) ≡ true
      → Written files1 files2
      → platform.equal (lookup key payload) value ≡ true
      → (read : Members) × (verify_artifact platform inside item files2 ≡ ok read)
        × (platform.equal (lookup key read) value ≡ true)
  unfolding verify_artifact
  write_artifact-verify_artifact payload item files files1 files2 key value e owns later member =
      let r =
        write_artifact-IsRetained payload item.artifact_uri item.artifact_sha256 files files1 e in
      let found = Written-keeps item.artifact_sha256 r.content later r.found in
      let (read, loaded, equal) = platform.loads-dumps payload r.content r.dumped in
      let uri : (item.artifact_uri != address item.artifact_sha256) ≡ false =
        (ne-eq-false _ _).1 r.address in
      let digest : (platform.sha256_hex r.content != item.artifact_sha256) ≡ false =
        (ne-eq-false _ _).1 (sym r.named) in
      (
        read,
        rw
            (
              uri,
              r.path,
              found,
              r.small,
              digest,
              loaded,
              equal "evidence" (platform.dump_item item) owns,
            )
            refl,
        equal key value member,
      )

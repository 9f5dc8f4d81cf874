-- ===== src/Evidence/Artifacts.antt =====
-- src/payops/evidence/artifacts.py: evidence files that are named by the digest of their content. The files
-- are a table from digests to contents; publication by a hard link never replaces one.
pub mod Retention
mod Tests
use pay_ops.Base.{
  ℕ, String, Bool, true, false, not, ◌||◌, ◌≡◌, Option, none, some, List, [], ◌∷◌, Eq, ◌==◌, ◌!=◌,
  string_eq, ltb, if◌then◌else◌,
}
use Prim.Native.String.{◌++◌}
use pay_ops.Base.Result.{Result, ok, err, Error, integrity, value_error, raise_if, ◌>>=◌, ◌>>◌}
use pay_ops.Base.Action.{Exec}
use pay_ops.Base.Json.{Json, Members, lookup}
use pay_ops.Base.Table.{find_row}
use pay_ops.Contracts.{EvidenceItem}

-- `json.dumps` with sorted keys, its inverse, SHA-256 in hexadecimal, the pattern of digests, Python's
-- `==`, and pydantic's dump of an item without its artifact.
pub record Platform (Bytes : Type 0) : Type 0 where
  pub dumps : Members → Result Bytes
  pub loads : Bytes → Option Members
  pub size : Bytes → ℕ
  pub sha256_hex : Bytes → String
  pub is_digest : String → Bool
  pub equal : Json → Json → Bool
  pub dump_item : EvidenceItem → Json
  -- What is read back has members that are equal to those that were written.
  pub loads-dumps :
      (p : Members) (content : Bytes)
      → dumps p ≡ ok content
      → (q : Members) × (loads content ≡ some q)
        × ((key : String) (value : Json)
            → equal (lookup key p) value ≡ true
            → equal (lookup key q) value ≡ true)

abbrev pub max_artifact_bytes : ℕ
max_artifact_bytes = 1048576

-- `f"sha256://{digest}"`
abbrev pub address : String → String
address digest = "sha256://" ++ digest

module _ {Bytes : Type 0} ⦃bytes_eq : Eq Bytes⦄ (platform : Platform Bytes)
    (inside : String → Bool) where
  abbrev pub Files : Type 0
  Files = List (String × Bytes)

  -- `path_for`, where `inside` tells whether the path stays in the store.
  unfoldable pub path_for : String → Result (Unit {0})
  path_for digest = do
    raise_if (not (platform.is_digest digest)) integrity
    raise_if (not (inside digest)) integrity

  abbrev pub publish_over : String → Bytes → Option Bytes → Exec Files (String × String)
  publish_over digest content (some old) files =
      (raise_if (old != content) integrity >> ok (address digest, digest), files)
  publish_over digest content none files = (ok (address digest, digest), (digest, content) ∷ files)

  -- `publish_once`
  unfoldable pub publish_once : String → Bytes → Exec Files (String × String)
  publish_once digest content files = publish_over digest content (find_row digest files) files

  abbrev pub write_sized : Bytes → Result (Unit {0}) → Exec Files (String × String)
  write_sized content (err e) files = (err e, files)
  write_sized content (ok _) files = publish_once (platform.sha256_hex content) content files

  abbrev pub write_content : Result Bytes → Exec Files (String × String)
  write_content (err e) files = (err e, files)
  write_content (ok content) files =
      write_sized content
        (raise_if (ltb max_artifact_bytes (platform.size content)) integrity
          >> path_for (platform.sha256_hex content))
        files

  -- `ArtifactStore.write`
  unfoldable pub write_artifact : Members → Exec Files (String × String)
  unfolding publish_once path_for
  write_artifact payload files = write_content (platform.dumps payload) files

  abbrev pub parsed : EvidenceItem → Option Members → Result Members
  parsed item none = err value_error
  parsed item (some payload) = do
    raise_if (not (platform.equal (lookup "evidence" payload) (platform.dump_item item))) integrity
    ok payload

  abbrev pub read_content : EvidenceItem → Option Bytes → Result Members
  read_content item none = err integrity
  read_content item (some content) = do
    raise_if
        (ltb max_artifact_bytes (platform.size content)
          || platform.sha256_hex content != item.artifact_sha256)
        integrity
    parsed item (platform.loads content)

  -- `ArtifactStore.verify`
  unfoldable pub verify_artifact : EvidenceItem → Files → Result Members
  unfolding path_for
  verify_artifact item files = do
    raise_if (item.artifact_uri != address item.artifact_sha256) integrity
    path_for item.artifact_sha256
    read_content item (find_row item.artifact_sha256 files)

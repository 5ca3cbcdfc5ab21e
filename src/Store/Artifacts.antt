-- ===== src/Store/Artifacts.antt =====
-- crates/mahi-data/src/store.rs: `ArtifactStore` of `SqliteBackend`. `f` is the JSON of an artifact.
use mahi_ai.Prelude.{Option, Text, text, text_eq}
use mahi_ai.Contracts.Types.{Uuid}
use mahi_ai.Contracts.Errors.{ContractError}
use mahi_ai.Contracts.Records.{Artifact}
use mahi_ai.Contracts.Result.{Result, ok, ◌>>=◌}
use mahi_ai.Store.{SqliteBackend}
use mahi_ai.Store.Crypto.{Bytes, Primitives}
use mahi_ai.Store.Sealed.{Format, Fault, fetch, put}

abbrev pub collection : Text
collection = text "artifacts"

module _ (p : Primitives) (f : Format Artifact) where
  unfoldable pub write :
      Fault → (drawn : Bytes) → Artifact → SqliteBackend → Result ContractError SqliteBackend
  write fault drawn artifact s =
      put p f s.root collection fault drawn (p.uuid_text artifact.id) tt artifact s.artifacts
      >>= λ table. ok (record (s) { artifacts = table })

  unfoldable pub read : Fault → Uuid → SqliteBackend → Result ContractError (Option Artifact)
  read fault id s = fetch p f s.root collection fault (p.uuid_text id) s.artifacts

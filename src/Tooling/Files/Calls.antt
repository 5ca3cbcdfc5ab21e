-- ===== src/Tooling/Files/Calls.antt =====
-- What a file tool of crates/mahi-tooling/src/tools/file.rs does: its calls of the file system, in their
-- order, and its stream.
use Prim.Native.String.{String}
use mahi_ai.Prelude.{◌≡◌, refl, All, false, List, [], ◌∷◌, Text}
use mahi_ai.Contracts.Types.{ComputeMode}
use mahi_ai.Contracts.Errors.{ContractError}
use mahi_ai.Contracts.Result.{Result, ok, err}
use mahi_ai.Json.{Json, entry, json_object, word}
use mahi_ai.Tooling.Streams.{Events, tool_error, contract_error}
use mahi_ai.Tooling.Files.Path.{PathBuf}

pub data FsCall : Type 0 where
  reads : PathBuf → FsCall
  writes : PathBuf → Text → FsCall
  creates : PathBuf → FsCall
  scans : PathBuf → FsCall

pub record Outcome : Type 0 where
  pub calls : List FsCall
  pub events : Events Json

abbrev pub silent : Events Json → Outcome
silent events = record { calls = []; events = events }

abbrev pub after : FsCall → Outcome → Outcome
after call outcome = record outcome { calls = call ∷ outcome.calls }

-- `match r { Ok(a) => ..., Err(msg) => return tool_error(msg, false) }`
abbrev pub or_report {ℓ} : {A : Type ℓ} → Result Text A → (A → Outcome) → Outcome
or_report (ok a) k = k a
or_report (err message) k = silent (tool_error message false)

-- `match r { Ok(a) => ..., Err(e) => return contract_error(e) }`
abbrev pub or_refuse {ℓ} : {A : Type ℓ} → Result ContractError A → (A → Outcome) → Outcome
or_refuse (ok a) k = k a
or_refuse (err e) k = silent (contract_error e)

-- `FILE_MODES`
abbrev pub file_modes : List ComputeMode
file_modes = ComputeMode.on_device ∷ ComputeMode.mac_lan ∷ ComputeMode.mac_remote ∷ []

abbrev pub typed : String → Json
typed t = json_object (entry "type" (word t) ∷ [])

abbrev pub described : (type description : String) → Json
described t d = json_object (entry "type" (word t) ∷ entry "description" (word d) ∷ [])

abbrev pub path_schema_property : Json
path_schema_property =
    described "string" "Path relative to the allowed root (absolute paths must stay inside it)"

-- What holds of the calls after each success holds of the calls of the whole.
pub or_report-found {ℓ κ} :
    {A : Type ℓ} (P : FsCall → Type κ) (r : Result Text A) (k : A → Outcome)
    → ((a : A) → r ≡ ok a → All P (k a).calls)
    → All P (or_report r k).calls
or_report-found P (ok a) k h = h a refl
or_report-found P (err e) k h = tt

pub or_report-calls {ℓ κ} :
    {A : Type ℓ} (P : FsCall → Type κ) (r : Result Text A) (k : A → Outcome)
    → ((a : A) → All P (k a).calls)
    → All P (or_report r k).calls
or_report-calls P r k h = or_report-found P r k (λ a e. h a)

pub or_refuse-calls {ℓ κ} :
    {A : Type ℓ} (P : FsCall → Type κ) (r : Result ContractError A) (k : A → Outcome)
    → ((a : A) → r ≡ ok a → All P (k a).calls)
    → All P (or_refuse r k).calls
or_refuse-calls P (ok a) k h = h a refl
or_refuse-calls P (err e) k h = tt

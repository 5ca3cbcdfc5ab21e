-- ===== src/Tooling/Files/Tools.antt =====
-- The four file tools of crates/mahi-tooling/src/tools/file.rs as one family.
use mahi_ai.Prelude.{Text}
use mahi_ai.Contracts.Result.{Result}
use mahi_ai.Contracts.Tooling.{ToolDescriptor}
use mahi_ai.Json.{Json}
use mahi_ai.Tooling.Files.Scope.{Disk, FileScope}
use mahi_ai.Tooling.Files.Calls.{Outcome}
use mahi_ai.Tooling.Files.Read.{FileReadArgs, read_descriptor, run_read}
use mahi_ai.Tooling.Files.Write.{FileWriteArgs, write_descriptor, run_write}
use mahi_ai.Tooling.Files.Edit.{FileEditArgs, edit_descriptor, run_edit}
use mahi_ai.Tooling.Files.Search.{FileSearchArgs, search_descriptor, run_search}

pub data FileTool : Type 0 where
  file_read file_write file_edit file_search : FileTool

-- The readers of the arguments, which `serde` derives.
pub record Readers : Type 0 where
  pub read_from : Json → Result Text FileReadArgs
  pub write_from : Json → Result Text FileWriteArgs
  pub edit_from : Json → Result Text FileEditArgs
  pub search_from : Json → Result Text FileSearchArgs

abbrev pub descriptor_of_tool : FileTool → ToolDescriptor Json
descriptor_of_tool file_read = read_descriptor
descriptor_of_tool file_write = write_descriptor
descriptor_of_tool file_edit = edit_descriptor
descriptor_of_tool file_search = search_descriptor

-- `Tool::run`
abbrev pub run_tool : Readers → Disk → FileScope → FileTool → Json → Outcome
run_tool readers disk scope file_read = run_read readers.read_from disk scope
run_tool readers disk scope file_write = run_write readers.write_from disk scope
run_tool readers disk scope file_edit = run_edit readers.edit_from disk scope
run_tool readers disk scope file_search = run_search readers.search_from disk scope

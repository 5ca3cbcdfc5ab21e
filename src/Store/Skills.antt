-- ===== src/Store/Skills.antt =====
-- crates/mahi-data/src/store.rs: `SkillStore` of `SqliteBackend`. `f` is the JSON of a skill.
use mahi_ai.Prelude.{Option, List, ◌++◌, Text, text, text_eq, ◌==◌, keep}
use mahi_ai.Contracts.Types.{Uuid}
use mahi_ai.Contracts.Errors.{ContractError}
use mahi_ai.Contracts.Records.{Skill, SkillScope}
use mahi_ai.Contracts.Result.{Result, ok, ◌>>=◌}
use mahi_ai.Store.{SqliteBackend}
use mahi_ai.Store.Crypto.{Bytes, Primitives}
use mahi_ai.Store.Rows.{Table, delete_by_id}
use mahi_ai.Store.Sealed.{Format, Fault, statement, fetch, put, open_rows}

abbrev pub collection : Text
collection = text "skills"

abbrev pub scope_key : Primitives → SkillScope → Text
scope_key p SkillScope.global = text "global"
scope_key p (SkillScope.space id) = text "space:" ++ p.uuid_text id
scope_key p (SkillScope.user id) = text "user:" ++ p.uuid_text id

-- `WHERE scope = ?1`
abbrev pub in_scope : Text → Table Text → Table Text
in_scope key table = keep (λ r. r.columns == key) table

module _ (p : Primitives) (f : Format Skill) where
  unfoldable pub get : Fault → Uuid → SqliteBackend → Result ContractError (Option Skill)
  get fault id s = fetch p f s.root collection fault (p.uuid_text id) s.skills

  unfoldable pub list_by_scope :
      Fault → SkillScope → SqliteBackend → Result ContractError (List Skill)
  list_by_scope fault scope s =
      statement fault (in_scope (scope_key p scope) s.skills) >>= open_rows p f s.root collection

  unfoldable pub upsert :
      Fault → (drawn : Bytes) → Skill → SqliteBackend → Result ContractError SqliteBackend
  upsert fault drawn skill s =
      put p f s.root collection fault drawn (p.uuid_text skill.id) (scope_key p skill.scope) skill
        s.skills
      >>= λ table. ok (record (s) { skills = table })

unfoldable pub delete :
    Primitives → Fault → Uuid → SqliteBackend → Result ContractError SqliteBackend
delete p fault id s =
    statement fault (record (s) { skills = delete_by_id (p.uuid_text id) s.skills })

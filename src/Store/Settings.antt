-- ===== src/Store/Settings.antt =====
-- crates/mahi-data/src/store.rs: `SettingsStore` of `SqliteBackend`. `V` is the type of JSON values and `f` the JSON of a
-- setting.
use mahi_ai.Prelude.{Option, Text, text, text_eq}
use mahi_ai.Contracts.Errors.{ContractError}
use mahi_ai.Contracts.Records.{Setting}
use mahi_ai.Contracts.Result.{Result, ok, ◌>>=◌}
use mahi_ai.Store.{SqliteBackend}
use mahi_ai.Store.Crypto.{Bytes, Primitives}
use mahi_ai.Store.Sealed.{Format, Fault, fetch, put}

abbrev pub collection : Text
collection = text "settings"

module _ (p : Primitives) {V : Type 0} (f : Format (Setting V)) where
  unfoldable pub get :
      Fault → (key : Text) → SqliteBackend → Result ContractError (Option (Setting V))
  get fault key s = fetch p f s.root collection fault key s.settings

  unfoldable pub set :
      Fault → (drawn : Bytes) → Setting V → SqliteBackend → Result ContractError SqliteBackend
  set fault drawn setting s =
      put p f s.root collection fault drawn setting.key tt setting s.settings >>= λ table.
      ok (record (s) { settings = table })

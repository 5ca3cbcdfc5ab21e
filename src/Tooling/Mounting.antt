-- ===== src/Tooling/Mounting.antt =====
-- Mounting a connector's tools (crates/mahi-tooling/src/registry.rs, `mount_connector`).
use mahi_ai.Prelude.{
  if◌then◌else◌, text_beq, ◌≡◌, ◌≢◌, ◌⊎◌, ◌↔◌, refl, ◌∙◌, ap, inl, inr, Bool, true, false,
  Bool-cases, ℕ, suc, length, Option, none, some, List, [], ◌∷◌, All, map, arith, Text,
  text_beq_iff, text_eq,
}
use mathlib.Core.Path.{subst}
use mahi_ai.Dict.{lookup}
use mahi_ai.Dict.Sorted.{insert_sorted, lookup-insert_sorted}
use mahi_ai.Contracts.Errors.{ContractError}
use mahi_ai.Contracts.Result.{Result, ok, err}
use mahi_ai.Contracts.Tooling.{ToolDescriptor}
use mahi_ai.Tooling.Registry.{
  Tool, Connector, ToolRegistry, registered, register, register_each, register_between,
  after_register, connector_tool, taken, taken_error, push_connector, mount_connector,
}
use mahi_ai.Tooling.Catalog.{IsCatalog, register-IsCatalog}

module _ {V : Type 0} where
  -- No two descriptors have one id.
  abbrev pub DistinctIds : List (ToolDescriptor V) → Type 0
  DistinctIds [] = Unit
  DistinctIds (d ∷ ds) = All (λ x. x.id ≢ d.id) ds × DistinctIds ds

  abbrev Free : ToolRegistry V → List (ToolDescriptor V) → Type 0
  Free registry ds = All (λ d. lookup d.id registry.tools ≡ none) ds

  registered_iff-free :
      (id : Text) (registry : ToolRegistry V)
      → (registered id registry ≡ false) ↔ (lookup id registry.tools ≡ none)
  registered_iff-free id registry = go (lookup id registry.tools)
    where
      go :
          (o : Option (Tool V))
          → ((elim o as (λ _. Bool) [ none ↦ false | some _ ↦ true ]) ≡ false) ↔ (o ≡ none)
      go none = (λ h. refl, λ h. refl)
      go (some tool) = (λ h. absurd (cc h), λ h. absurd (cc h))

  taken_cases :
      (ds : List (ToolDescriptor V)) (registry : ToolRegistry V)
      → ((id : Text) × (taken ds registry ≡ some id))
        ⊎ ((taken ds registry ≡ none) × Free registry ds)
  taken_cases [] registry = inr (refl, tt)
  taken_cases (d ∷ ds) registry = elim (Bool-cases (registered d.id registry)) [
    | inl found ↦ inl (d.id, rw found refl)
    | inr free ↦ elim (taken_cases ds registry) [
      | inl (id, e) ↦ inl (id, rw free e)
      | inr (none_taken, rest) ↦
          inr (rw free none_taken, ((registered_iff-free d.id registry).0 free, rest))
    ]
  ]

  register_free :
      (tool : Tool V) (registry : ToolRegistry V)
      → lookup tool.descriptor.id registry.tools ≡ none
      → register tool registry
        ≡ (ok tt, record registry { tools = insert_sorted tool.descriptor.id tool registry.tools })
  unfolding register
  register_free tool registry free =
      rw ((registered_iff-free tool.descriptor.id registry).1 free, register) refl

  Free-insert :
      (tool : Tool V) (registry : ToolRegistry V) (ds : List (ToolDescriptor V))
      → All (λ x. x.id ≢ tool.descriptor.id) ds
      → Free registry ds
      → Free (record registry { tools = insert_sorted tool.descriptor.id tool registry.tools }) ds
  Free-insert tool registry [] other free = tt
  Free-insert tool registry (d ∷ ds) other free = (
    ground (
      arith,
      free.0,
      other.0,
      text_beq_iff tool.descriptor.id d.id,
      lookup-insert_sorted tool.descriptor.id d.id tool registry.tools,
    ),
    Free-insert tool registry ds other.1 free.1,
  )

  -- An id of one of these descriptors leads into the connector, any other to what it led to before.
  abbrev pub contributed :
      Connector V → List (ToolDescriptor V) → Text → Option (Tool V) → Option (Tool V)
  contributed connector [] j before = before
  contributed connector (d ∷ ds) j before =
      if text_beq d.id j
      then some (connector_tool connector d)
      else contributed connector ds j before

  -- What registering the tools of a connector does, where all their ids are free.
  abbrev pub Mounts :
      Connector V → List (ToolDescriptor V) → ToolRegistry V → ToolRegistry V → Type 0
  Mounts connector ds before after =
      ((j : Text) → lookup j after.tools ≡ contributed connector ds j (lookup j before.tools))
      × (after.connectors ≡ before.connectors)

  contributed_new :
      (connector : Connector V) (ds : List (ToolDescriptor V)) (j : Text) (o : Option (Tool V))
      → All (λ d. d.id ≢ j) ds
      → contributed connector ds j o ≡ o
  contributed_new connector [] j o h = refl
  contributed_new connector (d ∷ ds) j o h =
      ground (arith, h.0, text_beq_iff d.id j, contributed_new connector ds j o h.1)

  contributed_step :
      (connector : Connector V) (d : ToolDescriptor V) (ds : List (ToolDescriptor V)) (j : Text)
      (o : Option (Tool V))
      → All (λ x. x.id ≢ d.id) ds
      → contributed connector ds j
          (if text_beq d.id j then some (connector_tool connector d) else o)
        ≡ contributed connector (d ∷ ds) j o
  contributed_step connector d ds j o h = elim (Bool-cases (text_beq d.id j)) [
    | inl here ↦ rw here (
        contributed_new connector ds j (some (connector_tool connector d))
          (subst (λ x. All (λ y. y.id ≢ x) ds) ((text_beq_iff d.id j).0 here) h))
    | inr other ↦ rw other refl
  ]

  register_each-Mounts :
      (connector : Connector V) (ds : List (ToolDescriptor V)) (registry : ToolRegistry V)
      → DistinctIds ds
      → Free registry ds
      → (after : ToolRegistry V) × (register_each (map (connector_tool connector) ds) registry
          ≡ (ok tt, after))
        × Mounts connector ds registry after
  unfolding register_each
  register_each-Mounts connector [] registry distinct free = (registry, refl, ((λ j. refl), refl))
  register_each-Mounts connector (d ∷ ds) registry distinct free =
      let tool = connector_tool connector d in
      let next : ToolRegistry V = record registry {
        tools = insert_sorted d.id tool registry.tools;
      } in
      let (after, made, (leads, same)) =
        register_each-Mounts connector ds next distinct.1
          (Free-insert tool registry ds distinct.0 free.1) in
      (
        after,
        ap (after_register (register_each (map (connector_tool connector) ds)))
              (register_free tool registry free.0)
            ∙ made,
        (
          λ j.
              leads j
              ∙ ap (contributed connector ds j) (lookup-insert_sorted d.id j tool registry.tools)
              ∙ contributed_step connector d ds j (lookup j registry.tools) distinct.0,
          same,
        ),
      )

  after_register-ext :
      (f g : ToolRegistry V → Result ContractError (Unit {0}) × ToolRegistry V)
      (r : Result ContractError (Unit {0}) × ToolRegistry V)
      → ((next : ToolRegistry V) → f next ≡ g next)
      → after_register f r ≡ after_register g r
  after_register-ext f g (ok _, next) same = same next
  after_register-ext f g (err e, next) same = refl

  -- Where nothing happens in between, the tools are registered one after the other.
  register_between-register_each :
      (meanwhile : ℕ → ToolRegistry V → ToolRegistry V) (tools : List (Tool V))
      (registry : ToolRegistry V)
      → ((n : ℕ) (r : ToolRegistry V) → meanwhile n r ≡ r)
      → register_between meanwhile tools registry ≡ register_each tools registry
  unfolding register_between register_each
  register_between-register_each meanwhile [] registry quiet = refl
  register_between-register_each meanwhile (tool ∷ tools) registry quiet =
      ap (λ r. after_register (register_between meanwhile tools) (register tool r))
        (quiet (suc (length tools)) registry)
      ∙ after_register-ext (register_between meanwhile tools) (register_each tools)
          (register tool registry)
          (λ next. register_between-register_each meanwhile tools next quiet)

  -- As long as no other thread changes the registry between the locks that it takes, mounting a connector
  -- whose own tool ids are distinct is all or nothing. Either every tool of the connector is registered and
  -- dispatches into it, every other id leads to what it led to, and the connector is listed last; or the
  -- answer is an error and the registry does not change.
  pub mount_connector-Mounts :
      (meanwhile : ℕ → ToolRegistry V → ToolRegistry V) (connector : Connector V)
      (registry : ToolRegistry V)
      → ((n : ℕ) (r : ToolRegistry V) → meanwhile n r ≡ r)
      → DistinctIds connector.tools
      → ((after : ToolRegistry V) × (mount_connector meanwhile connector registry
            ≡ (ok tt, push_connector connector after))
          × Mounts connector connector.tools registry after)
        ⊎ ((e : ContractError) × (mount_connector meanwhile connector registry ≡ (err e, registry)))
  unfolding mount_connector
  mount_connector-Mounts meanwhile connector registry quiet distinct =
      elim (taken_cases connector.tools registry) [
        | inl (id, found) ↦ inr (taken_error connector.id id, rw (found, mount_connector) refl)
        | inr (none_taken, free) ↦
            let (after, made, mounts) =
              register_each-Mounts connector connector.tools registry distinct free in
            let alone =
              register_between-register_each meanwhile
                (map (connector_tool connector) connector.tools) registry quiet
              ∙ made in
            inl (after, rw (none_taken, mount_connector) (rw (alone, quiet 0 after) refl), mounts)
      ]

  after_register-IsCatalog :
      (rest : ToolRegistry V → Result ContractError (Unit {0}) × ToolRegistry V)
      (r : Result ContractError (Unit {0}) × ToolRegistry V)
      → IsCatalog r.1
      → ((next : ToolRegistry V) → IsCatalog next → IsCatalog (rest next).1)
      → IsCatalog (after_register rest r).1
  after_register-IsCatalog rest (ok _, next) h keeps = keeps next h
  after_register-IsCatalog rest (err e, next) h keeps = h

  register_between-IsCatalog :
      (meanwhile : ℕ → ToolRegistry V → ToolRegistry V) (tools : List (Tool V))
      (registry : ToolRegistry V)
      → ((n : ℕ) (r : ToolRegistry V) → IsCatalog r → IsCatalog (meanwhile n r))
      → IsCatalog registry
      → IsCatalog (register_between meanwhile tools registry).1
  unfolding register_between
  register_between-IsCatalog meanwhile [] registry keeps h = h
  register_between-IsCatalog meanwhile (tool ∷ tools) registry keeps h =
      after_register-IsCatalog (register_between meanwhile tools)
        (register tool (meanwhile (suc (length tools)) registry))
        (register-IsCatalog tool (meanwhile (suc (length tools)) registry) (keeps _ registry h)).0
        (λ next k. register_between-IsCatalog meanwhile tools next keeps k)

  -- Mounting any connector keeps a catalogue, also where it fails in the middle, if the other threads do.
  pub mount_connector-IsCatalog :
      (meanwhile : ℕ → ToolRegistry V → ToolRegistry V) (connector : Connector V)
      (registry : ToolRegistry V)
      → ((n : ℕ) (r : ToolRegistry V) → IsCatalog r → IsCatalog (meanwhile n r))
      → IsCatalog registry
      → IsCatalog (mount_connector meanwhile connector registry).1
  unfolding mount_connector
  mount_connector-IsCatalog meanwhile connector registry keeps h =
      elim (taken_cases connector.tools registry) [
        | inl (id, found) ↦ rw (found, mount_connector) h
        | inr (none_taken, free) ↦
            rw (none_taken, mount_connector)
              (after_register-IsCatalog (λ r. (ok tt, push_connector connector (meanwhile 0 r)))
                (register_between meanwhile (map (connector_tool connector) connector.tools)
                  registry)
                (register_between-IsCatalog meanwhile
                  (map (connector_tool connector) connector.tools) registry keeps h)
                (λ next k. keeps 0 next k))
      ]

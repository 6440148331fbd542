-- ===== src/Approval/Tools.antt =====
-- packages/shared/src/mcp-authority.ts: what a tool of the MCP server needs.
use verglos_cli.Prelude.{
  ◌≡◌, refl, sym, ap, inl, inr, Bool, true, false, List, [], ◌∷◌, if◌then◌else◌, In,
}
use verglos_cli.Text.{Text, codes, text_eq}
use verglos_cli.Text.Order.{text_eq_iff}
use verglos_cli.Text.Sets.{has}
use verglos_cli.Approval.{
  AgentAction, inspect, propose, execute, network, sign, ActionAuthority, matrix,
}

-- TOOL_ACTIONS, with an empty list where a tool has no network targets.
pub record ToolAction : Type 0 where
  pub tool : Text
  pub action : AgentAction
  pub network_targets : List Text

abbrev package_lookup_network : List Text
package_lookup_network = codes "https://api.osv.dev" ∷ codes "https://registry.npmjs.org" ∷ []

abbrev tool_row : Text → AgentAction → List Text → ToolAction
tool_row t a n = record { tool = t; action = a; network_targets = n }

abbrev pub tool_actions : List ToolAction
tool_actions =
    tool_row (codes "verglos_check_before_write") inspect []
    ∷ tool_row (codes "verglos_check_package") network package_lookup_network
    ∷ tool_row (codes "verglos_scan") network package_lookup_network
    ∷ tool_row (codes "verglos_explain_finding") propose []
    ∷ tool_row (codes "verglos_policy_check") inspect []
    ∷ tool_row (codes "verglos_hunt_finding") execute []
    ∷ tool_row (codes "verglos_hunt_report") execute []
    ∷ tool_row (codes "verglos_hunt_before_write") execute []
    ∷ tool_row (codes "verglos_hunt_explain_verdict") propose []
    ∷ tool_row (codes "verglos_attest") sign []
    ∷ []

pub record McpToolAuthority : Type 0 where
  pub authority : ActionAuthority
  pub network_targets : List Text

-- What every JavaScript object answers to, the table included.
abbrev inherited : List Text
inherited =
    codes "constructor"
    ∷ codes "hasOwnProperty"
    ∷ codes "isPrototypeOf"
    ∷ codes "propertyIsEnumerable"
    ∷ codes "toLocaleString"
    ∷ codes "toString"
    ∷ codes "valueOf"
    ∷ codes "__proto__"
    ∷ codes "__defineGetter__"
    ∷ codes "__defineSetter__"
    ∷ codes "__lookupGetter__"
    ∷ codes "__lookupSetter__"
    ∷ []

-- The authority of a tool, undefined, or the error for an action that is none.
pub data ToolLookup : Type 0 where
  authorised : McpToolAuthority → ToolLookup
  undefined_tool unknown_action : ToolLookup

abbrev tool_in : List ToolAction → Text → ToolLookup
tool_in [] t = if has t inherited then unknown_action else undefined_tool
tool_in (r ∷ rows) t =
    let rest = tool_in rows t in
    if text_eq t r.tool
    then authorised (record { authority = matrix r.action; network_targets = r.network_targets })
    else rest

-- `mcpToolAuthority`
unfoldable pub mcp_tool_authority : Text → ToolLookup
mcp_tool_authority t = tool_in tool_actions t

authorised_injective : {x y : McpToolAuthority} → authorised x ≡ authorised y → x ≡ y
authorised_injective e = cc

-- The action of a tool stands in the table, and with it what the tool needs.
tool_in-In :
    (rows : List ToolAction) (t : Text) (a : McpToolAuthority)
    → tool_in rows t ≡ authorised a
    → (r : ToolAction) × In r rows × (t ≡ r.tool) × (a.authority ≡ matrix r.action)
tool_in-In [] t a h = absurd (no_row (has t inherited) h)
  where
    no_row : (b : Bool) → (if b then unknown_action else undefined_tool) ≡ authorised a → ⊥
    no_row true e = cc
    no_row false e = cc
tool_in-In (r ∷ rows) t a h = pick (text_eq t r.tool) refl h (tool_in-In rows t a)
  where
    pick :
        (b : Bool)
        → text_eq t r.tool ≡ b
        → (if b
            then authorised
                (record { authority = matrix r.action; network_targets = r.network_targets })
            else tool_in rows t)
          ≡ authorised a
        → (tool_in rows t ≡ authorised a
            → (s : ToolAction) × In s rows × (t ≡ s.tool) × (a.authority ≡ matrix s.action))
        → (s : ToolAction) × In s (r ∷ rows) × (t ≡ s.tool) × (a.authority ≡ matrix s.action)
    pick true e k later = (
      r,
      inl refl,
      (text_eq_iff t r.tool).0 e,
      sym (ap McpToolAuthority.authority (authorised_injective k)),
    )
    pick false e k later = let (s, m, n, q) = later k in (s, inr m, n, q)

-- A tool that has an authority is a row of the table, and it needs what the action of its row needs.
pub mcp_tool_authority-In :
    (t : Text) (a : McpToolAuthority)
    → mcp_tool_authority t ≡ authorised a
    → (r : ToolAction) × In r tool_actions × (t ≡ r.tool) × (a.authority ≡ matrix r.action)
unfolding mcp_tool_authority
mcp_tool_authority-In t a h = tool_in-In tool_actions t a h

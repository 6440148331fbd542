-- ===== src/Approval/Actions.antt =====
-- packages/shared/src/action-authority.ts: the actions of an agent and what each of them needs.
use verglos_cli.Prelude.{Bool, true, false, Option, none, some, List, [], ◌∷◌, if◌then◌else◌}
use verglos_cli.Text.{Text, codes, text_eq}

-- AGENT_ACTIONS
pub data AgentAction : Type 0 where
  inspect propose mutate install execute network : AgentAction
  except sign publish upload policy billing : AgentAction

pub data SideEffect : Type 0 where
  no_effect filesystem process network_access hosted identity : SideEffect

pub record ActionAuthority : Type 0 where
  pub action : AgentAction
  pub approval_required : Bool
  pub side_effect : SideEffect

abbrev pub authority_row : AgentAction → Bool → SideEffect → ActionAuthority
authority_row a b e = record { action = a; approval_required = b; side_effect = e }

-- MATRIX
abbrev pub matrix : AgentAction → ActionAuthority
matrix inspect = authority_row inspect false no_effect
matrix propose = authority_row propose false no_effect
matrix mutate = authority_row mutate true filesystem
matrix install = authority_row install true filesystem
matrix execute = authority_row execute true process
matrix network = authority_row network true network_access
matrix except = authority_row except true identity
matrix sign = authority_row sign true identity
matrix publish = authority_row publish true hosted
matrix upload = authority_row upload true network_access
matrix policy = authority_row policy true identity
matrix billing = authority_row billing true hosted

abbrev pub action_text : AgentAction → Text
action_text inspect = codes "inspect"
action_text propose = codes "propose"
action_text mutate = codes "mutate"
action_text install = codes "install"
action_text execute = codes "execute"
action_text network = codes "network"
action_text except = codes "except"
action_text sign = codes "sign"
action_text publish = codes "publish"
action_text upload = codes "upload"
action_text policy = codes "policy"
action_text billing = codes "billing"

abbrev pub agent_actions : List AgentAction
agent_actions =
    inspect ∷ propose ∷ mutate ∷ install ∷ execute ∷ network ∷ except ∷ sign ∷ publish ∷ upload
    ∷ policy ∷ billing ∷ []

abbrev action_in : List AgentAction → Text → Option AgentAction
action_in [] t = none
action_in (a ∷ rows) t =
    let rest = action_in rows t in if text_eq t (action_text a) then some a else rest

-- `parseAgentAction` of a text; the error for one that is no action is none.
unfoldable pub parse_agent_action : Text → Option AgentAction
parse_agent_action t = action_in agent_actions t

-- `receipt.action !== action`
unfoldable pub action_eq : AgentAction → AgentAction → Bool
action_eq a b = text_eq (action_text a) (action_text b)

-- ===== src/Tests/Nodes.antt =====
-- A node that answers calls from a list, for the runs of the protocols.
use agent_execution_platform.Prelude.{ℕ, Option, some, List, [], ◌∷◌}
use agent_execution_platform.Prelude.Text.{Text, text}
use agent_execution_platform.Prelude.Results.{ok, err}
use agent_execution_platform.Prelude.Actions.{Action, raise}
use agent_execution_platform.Types.{Chain}
use agent_execution_platform.Crates.{Provider}

-- The replies that are still to come.
abbrev pub Replies : Type 0
Replies = List (List ℕ)

abbrev pub next_reply : Action Replies Text (List ℕ)
next_reply [] = (err (text "no reply"), [])
next_reply (r ∷ rs) = (ok r, rs)

abbrev pub node : Provider Replies
node = record {
  call = λ tx. next_reply;
  estimate_gas = λ tx. raise (text "not asked");
  get_code = λ a. raise (text "not asked");
  get_chainid = raise (text "not asked");
  latest_base_fee = raise (text "not asked");
}

abbrev pub on_ethereum : Chain → Option (Provider Replies)
on_ethereum chain = some node

-- ===== src/Wallets/Names.antt =====
-- src/agent_wallet/mod.rs: two agents have two names, within one API key and across them.
use agent_execution_platform.Prelude.{
  append_assoc, ℕ, ◌<◌, ◌^◌, ◌≡◌, sym, ap, ◌∙◌, List, ◌++◌, length, take, drop, take-append_length,
  drop-append_length,
}
use agent_execution_platform.Prelude.Text.{Text, text}
use agent_execution_platform.Wallets.{namespaced}

module _ {A : Type 0} where
  -- Two lists with fronts of one length are the same where both parts are.
  same_parts :
      (xs ys ps qs : List A) → length xs ≡ length ys → xs ++ ps ≡ ys ++ qs → (xs ≡ ys) × (ps ≡ qs)
  same_parts xs ys ps qs len h = (
    sym (take-append_length xs ps)
        ∙ ap (take (length xs)) h
        ∙ ap (λ n. take n (ys ++ qs)) len
        ∙ take-append_length ys qs,
    sym (drop-append_length xs ps)
        ∙ ap (drop (length xs)) h
        ∙ ap (λ n. drop n (ys ++ qs)) len
        ∙ drop-append_length ys qs,
  )

-- `Uuid` is a number of 128 bits.
abbrev pub IsUuid : ℕ → Type 0
IsUuid u = u < 2 ^ 128

-- The name of an agent determines its API key and its agent id, whatever characters the id has, where
-- the texts of two `Uuid`s differ and all have one length.
pub namespaced_injective :
    (uuid_text : ℕ → Text) (uuid_length : ℕ)
    → ((u : ℕ) → IsUuid u → length (uuid_text u) ≡ uuid_length)
    → ((u v : ℕ) → IsUuid u → IsUuid v → uuid_text u ≡ uuid_text v → u ≡ v)
    → (key1 key2 : ℕ) → IsUuid key1
    → IsUuid key2
    → (agent1 agent2 : Text) → namespaced uuid_text key1 agent1 ≡ namespaced uuid_text key2 agent2
    → (key1 ≡ key2) × (agent1 ≡ agent2)
namespaced_injective uuid_text uuid_length fixed apart key1 key2 is1 is2 agent1 agent2 h =
    let (keys, rest) =
      same_parts (uuid_text key1) (uuid_text key2) (text "::" ++ agent1) (text "::" ++ agent2)
        (fixed key1 is1 ∙ sym (fixed key2 is2)) (sides key1 agent1 ∙ h ∙ sym (sides key2 agent2)) in
    (apart key1 key2 is1 is2 keys, ap (drop 2) rest)
  where
    sides :
        (key : ℕ) (agent : Text)
        → uuid_text key ++ (text "::" ++ agent) ≡ namespaced uuid_text key agent
    sides key agent = sym (append_assoc (uuid_text key) (text "::") agent)

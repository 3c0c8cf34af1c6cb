-- ===== src/Wallets/Registry.antt =====
-- src/agent_wallet/mod.rs: `get_or_create` and what it calls.
use agent_execution_platform.Prelude.{
  ℕ, Option, none, some, List, [], ◌∷◌, ◌++◌, take, drop, length, ltb, true, false,
}
use agent_execution_platform.Prelude.Text.{Text}
use agent_execution_platform.Prelude.Results.{Result, ok, err, or_err, map_err}
use agent_execution_platform.Prelude.Actions.{Action, pure, lift, raise_as, ◌>>=◌, ◌>>◌}
use agent_execution_platform.Service.{Service}
use agent_execution_platform.Crates.{Hex, U256, Ethers, Provider, address, uint}
use agent_execution_platform.Wallets.{
  AgentWalletRow, AgentWallet, Statement, select_wallet, insert_wallet, Answer, row, done,
  wallet_apply, namespaced,
}
use agent_execution_platform.Wallets.Ciphers.{Cipher, CipherError, encrypt_key_hex}

pub data WalletError : Type 0 where
  connection unexpected_answer corrupt_address short_reply invalid_private_key : WalletError
  signing_failed invalid_hex wrong_key_length : WalletError
  factory_call : Text → WalletError
  cipher_failed : CipherError → WalletError

-- The draws from the random number generators: a private key, a nonce and a `Uuid`.
pub record Draws (N : Type 0) : Type 0 where
  pub new_key : N → List ℕ × N
  pub new_nonce : N → List ℕ × N
  pub new_uuid : N → ℕ × N

-- The state of the database and that of the node and the generators.
pub record Store (D N : Type 0) : Type 0 where
  pub db : D
  pub net : N

-- `pub struct AgentWalletRegistry`, with the crates that its methods call.
pub record AgentWalletRegistry (D N : Type 0) : Type 0 where
  pub db_pool : Service wallet_apply D
  pub encryption_key : List ℕ
  pub factory_address : List ℕ
  pub provider : Provider N
  pub hex : Hex
  pub u256 : U256
  pub eth : Ethers u256
  pub cipher : Cipher
  pub draws : Draws N
  pub uuid_text : ℕ → Text
  -- The address of a private key.
  pub address_of_key : List ℕ → List ℕ
  -- `LocalWallet::from_str` and `sign_hash`.
  pub parse_key : Text → Option (List ℕ)
  pub sign_hash : List ℕ → List ℕ → Option (List ℕ)

abbrev pub or_fresh : AgentWallet → Option AgentWallet → AgentWallet
or_fresh fresh none = fresh
or_fresh fresh (some existing) = existing

module _ {D N : Type 0} (reg : AgentWalletRegistry D N) where
  abbrev in_net : {A : Type 0} → Action N WalletError A → Action (Store D N) WalletError A
  in_net m w = let (r, n) = m w.net in (r, record w { net = n })

  abbrev draw : {A : Type 0} → (N → A × N) → Action (Store D N) WalletError A
  draw f w = let (a, n) = f w.net in (ok a, record w { net = n })

  unfoldable pub execute : Statement → Action (Store D N) WalletError Answer
  execute c w = let (o, d) = reg.db_pool.call c w.db in (or_err o connection, record w { db = d })

  abbrev pub wallet_of : AgentWalletRow → Result WalletError AgentWallet
  wallet_of r =
      let eoa = or_err (reg.eth.parse_address r.eoa_address) corrupt_address in
      let smart = or_err (reg.eth.parse_address r.smart_wallet_address) corrupt_address in
      elim eoa [
        | err e ↦ err e
        | ok eoa_address ↦ elim smart [
          | err e ↦ err e
          | ok smart_wallet_address ↦ ok (record {
            id = r.id;
            api_key_id = r.api_key_id;
            agent_id = r.agent_id;
            namespaced_id = r.namespaced_id;
            eoa_address = eoa_address;
            smart_wallet_address = smart_wallet_address;
            signing_key_encrypted = r.signing_key_encrypted;
          })
        ]
      ]

  abbrev pub loaded : Answer → Result WalletError (Option AgentWallet)
  loaded (row none) = ok none
  loaded (row (some r)) = elim (wallet_of r) [ ok w ↦ ok (some w) | err e ↦ err e ]
  loaded done = err unexpected_answer

  unfoldable pub load_wallet : Text → Action (Store D N) WalletError (Option AgentWallet)
  load_wallet namespaced_id = do a ← execute (select_wallet namespaced_id); lift (loaded a)

  -- The address is the last twenty bytes of the first word.
  abbrev address_in : List ℕ → Result WalletError (List ℕ)
  address_in reply = elim (ltb (length reply) 32) [
    | true ↦ err short_reply
    | false ↦ ok (drop 12 (take 32 reply))
  ]

  unfoldable pub compute_smart_wallet_address_with :
      Provider N → List ℕ → List ℕ → Action N WalletError (List ℕ)
  compute_smart_wallet_address_with node factory owner = do
    reply ← raise_as factory_call (
        node.call (record {
          from = none;
          to = factory;
          calldata =
              (0x8c ∷ 0xb8 ∷ 0x4e ∷ 0x18 ∷ [])
              ++ reg.eth.encode_tokens (address owner ∷ uint 0 ∷ []);
          value = none;
        }))
    lift (address_in reply)

  abbrev pub compute_smart_wallet_address : List ℕ → Action N WalletError (List ℕ)
  compute_smart_wallet_address owner =
      compute_smart_wallet_address_with reg.provider reg.factory_address owner

  -- The row of a fresh wallet: its key is drawn, and its address asked for at the factory.
  unfoldable pub fresh_row :
      ℕ → Text → Text → Action (Store D N) WalletError (AgentWalletRow × AgentWallet)
  fresh_row api_key_id agent_id namespaced_id = do
    signing_key ← draw reg.draws.new_key
    let eoa_address = reg.address_of_key signing_key
    smart_wallet_address ← in_net (compute_smart_wallet_address eoa_address)
    nonce ← draw reg.draws.new_nonce
    encrypted ← lift (
        map_err cipher_failed
          (encrypt_key_hex reg.cipher reg.encryption_key nonce (reg.hex.encode signing_key)))
    wallet_id ← draw reg.draws.new_uuid
    pure (
      record {
        id = wallet_id;
        api_key_id = api_key_id;
        agent_id = agent_id;
        namespaced_id = namespaced_id;
        signing_key_encrypted = encrypted;
        eoa_address = reg.eth.print_address eoa_address;
        smart_wallet_address = reg.eth.print_address smart_wallet_address;
      },
      record {
        id = wallet_id;
        api_key_id = api_key_id;
        agent_id = agent_id;
        namespaced_id = namespaced_id;
        eoa_address = eoa_address;
        smart_wallet_address = smart_wallet_address;
        signing_key_encrypted = encrypted;
      },
    )

  -- The insert does nothing if another request was faster, and then its wallet is answered.
  unfoldable pub store_row :
      AgentWalletRow → AgentWallet → Action (Store D N) WalletError AgentWallet
  store_row r fresh = do
    execute (insert_wallet r)
    found ← load_wallet r.namespaced_id
    pure (or_fresh fresh found)

  unfoldable pub provision_wallet : ℕ → Text → Text → Action (Store D N) WalletError AgentWallet
  provision_wallet api_key_id agent_id namespaced_id = do
    (r, fresh) ← fresh_row api_key_id agent_id namespaced_id
    store_row r fresh

  abbrev pub found_or_new :
      ℕ → Text → Text → Option AgentWallet → Action (Store D N) WalletError AgentWallet
  found_or_new api_key_id agent_id namespaced_id (some wallet) = pure wallet
  found_or_new api_key_id agent_id namespaced_id none =
      provision_wallet api_key_id agent_id namespaced_id

  unfoldable pub get_or_create : ℕ → Text → Action (Store D N) WalletError AgentWallet
  get_or_create api_key_id agent_id = do
    let namespaced_id = namespaced reg.uuid_text api_key_id agent_id
    found ← load_wallet namespaced_id
    found_or_new api_key_id agent_id namespaced_id found

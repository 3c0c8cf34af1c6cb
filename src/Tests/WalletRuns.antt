-- ===== src/Tests/WalletRuns.antt =====
-- Runs of the registry of wallets, over a cipher that adds a tag, and a factory that answers one
-- address.
use agent_execution_platform.Prelude.{
  ℕ, ◌+◌, ◌-◌, ◌*◌, ◌≡◌, refl, ap, sym, ◌∙◌, some, List, [], ◌∷◌, ◌++◌, length, replicate, take,
  length-append, take-append_length, arith,
}
use mathlib.Core.Option.{some-injective}
use agent_execution_platform.Prelude.Text.{Text, text}
use agent_execution_platform.Prelude.Results.{Result, ok, err}
use agent_execution_platform.Prelude.Actions.{pure, raise}
use agent_execution_platform.Crates.{Provider}
use agent_execution_platform.Tests.Fixtures.{instant}
use agent_execution_platform.Tests.CrateFixtures.{
  hex, u256, eth, encode, decode, big_endian, big_endian-len, big_endian-bytes, bytes_value,
  bytes_value-big_endian,
}
use agent_execution_platform.Tests.HexDigits.{decode-encode}
use agent_execution_platform.Wallets.{AgentWalletRow, AgentWallet, wallet_apply}
use agent_execution_platform.Wallets.Ciphers.{
  Cipher, is_utf8, encrypt_key_hex, decrypt_key_hex, decrypt_key_hex-encrypt_key_hex,
}
use agent_execution_platform.Wallets.Registry.{
  wrong_key_length, WalletError, AgentWalletRegistry, Draws, Store, load_wallet, execute,
  provision_wallet, fresh_row, compute_smart_wallet_address_with, store_row, get_or_create,
}
use agent_execution_platform.Wallets.Canonical.{get_or_create_stable}
use agent_execution_platform.Wallets.Keys.{new, decrypt_and_sign, decrypt_and_sign-fresh_row}
use agent_execution_platform.Wallets.Names.{IsUuid, namespaced_injective}

abbrev tag : List ℕ
tag = replicate 16 0

cut_tag : (plain : List ℕ) → take (length (plain ++ tag) - 16) (plain ++ tag) ≡ plain
cut_tag plain =
    ap (λ n. take n (plain ++ tag)) (omega (arith, length-append plain tag))
    ∙ take-append_length plain tag

abbrev tagging : Cipher
tagging = record {
  encrypt = λ key nonce plain. some (plain ++ tag);
  decrypt = λ key nonce c. some (take (length c - 16) c);
  base64_encode = λ b. b;
  base64_decode = λ s. some s;
  decrypt_encrypt =
      λ key nonce plain c h. rw (← some-injective (plain ++ tag) c h) (ap some (cut_tag plain));
  tagged = λ key nonce plain c h.
      rw (← some-injective (plain ++ tag) c h) (omega (arith, length-append plain tag));
  decode_encode = λ b. refl;
}

abbrev master_key : List ℕ
master_key = replicate 32 7

abbrev nonce : List ℕ
nonce = replicate 12 5

decrypt_key_hex-encrypt_key_hex_example :
    decrypt_key_hex tagging master_key (nonce ++ text "0f1e" ++ tag) ≡ ok (text "0f1e")
unfolding encrypt_key_hex is_utf8
decrypt_key_hex-encrypt_key_hex_example =
    decrypt_key_hex-encrypt_key_hex tagging master_key nonce (text "0f1e")
      (nonce ++ text "0f1e" ++ tag) refl refl refl

encode_len : (b : List ℕ) → length (encode b) ≡ 2 * length b
unfolding encode
encode_len [] = refl
encode_len (b ∷ bs) = omega (arith, encode_len bs)

abbrev uuid_text : ℕ → Text
uuid_text u = encode (big_endian 16 u)

uuid_text-length : (u : ℕ) → IsUuid u → length (uuid_text u) ≡ 32
uuid_text-length u h = omega (arith, encode_len (big_endian 16 u), big_endian-len 16 u)

uuid_text_apart : (u v : ℕ) → IsUuid u → IsUuid v → uuid_text u ≡ uuid_text v → u ≡ v
uuid_text_apart u v hu hv e =
    sym (bytes_value-big_endian 16 u hu) ∙ ap (bytes_value 0) same ∙ bytes_value-big_endian 16 v hv
  where
    same : big_endian 16 u ≡ big_endian 16 v
    same = some-injective (big_endian 16 u) (big_endian 16 v) (
        sym (decode-encode (big_endian 16 u) (big_endian-bytes 16 u))
        ∙ ap decode e
        ∙ decode-encode (big_endian 16 v) (big_endian-bytes 16 v))

namespaced_injective_example : (◌≡◌ {A = ℕ} 7 7) × (text "a::b" ≡ text "a::b")
namespaced_injective_example =
    namespaced_injective uuid_text 32 uuid_text-length uuid_text_apart 7 7 (omega arith)
      (omega arith) (text "a::b") (text "a::b") refl

abbrev factory : Provider ℕ
factory = record {
  call = λ tx. pure (replicate 31 0 ++ (9 ∷ []));
  estimate_gas = λ tx. raise (text "not asked");
  get_code = λ a. raise (text "not asked");
  get_chainid = raise (text "not asked");
  latest_base_fee = raise (text "not asked");
}

abbrev one_key : List ℕ
one_key = replicate 31 0 ++ (3 ∷ [])

-- One key, and nonces and ids that count.
abbrev counting : Draws ℕ
counting = record {
  new_key = λ n. (one_key, n + 1);
  new_nonce = λ n. (replicate 11 0 ++ (n ∷ []), n + 1);
  new_uuid = λ n. (n, n + 1);
}

abbrev registry : AgentWalletRegistry (List AgentWalletRow) ℕ
registry = record {
  db_pool = instant wallet_apply;
  encryption_key = master_key;
  factory_address = replicate 20 1;
  provider = factory;
  hex = hex;
  u256 = u256;
  eth = eth;
  cipher = tagging;
  draws = counting;
  uuid_text = uuid_text;
  address_of_key = λ key. take 20 key;
  parse_key = decode;
  sign_hash = λ key hash. some (key ++ hash);
}

abbrev empty : Store (List AgentWalletRow) ℕ
empty = record { db = []; net = 3 }

-- What a request is answered, and the store after it.
abbrev asked :
    Store (List AgentWalletRow) ℕ → Result WalletError AgentWallet × Store (List AgentWalletRow) ℕ
asked w = get_or_create registry 7 (text "a") w

abbrev wallet : AgentWallet
wallet = record {
  id = 5;
  api_key_id = 7;
  agent_id = text "a";
  namespaced_id = uuid_text 7 ++ text "::a";
  eoa_address = replicate 20 0;
  smart_wallet_address = replicate 19 0 ++ (9 ∷ []);
  signing_key_encrypted = replicate 11 0 ++ (4 ∷ []) ++ encode (replicate 31 0 ++ (3 ∷ [])) ++ tag;
}

provisioned : (asked empty).0 ≡ ok wallet
unfolding get_or_create load_wallet execute provision_wallet fresh_row
    compute_smart_wallet_address_with encrypt_key_hex store_row encode big_endian decode
provisioned = refl

-- The second request draws no key.
found_again : (asked (asked empty).1).0 ≡ ok wallet
unfolding get_or_create load_wallet execute provision_wallet fresh_row
    compute_smart_wallet_address_with encrypt_key_hex store_row encode big_endian decode
found_again = refl

get_or_create_stable_example : wallet ≡ wallet
get_or_create_stable_example =
    get_or_create_stable registry 7 (text "a") empty (asked empty).1 wallet wallet provisioned
      (λ name r h. h) found_again

-- The answer to a request for a row under a name.
abbrev fresh_answer :
    Result WalletError (AgentWalletRow × AgentWallet) × Store (List AgentWalletRow) ℕ
fresh_answer = fresh_row registry 7 (text "a") (uuid_text 7 ++ text "::a") empty

abbrev stored_row : AgentWalletRow
stored_row = record {
  id = 5;
  api_key_id = 7;
  agent_id = text "a";
  namespaced_id = uuid_text 7 ++ text "::a";
  signing_key_encrypted = wallet.signing_key_encrypted;
  eoa_address = text "0x" ++ encode wallet.eoa_address;
  smart_wallet_address = text "0x" ++ encode wallet.smart_wallet_address;
}

drawn : fresh_answer.0 ≡ ok (stored_row, wallet)
unfolding fresh_row compute_smart_wallet_address_with encrypt_key_hex
drawn = refl

decrypt_and_sign-fresh_row_example :
    (key : List ℕ) × (wallet.eoa_address ≡ take 20 key)
    × (stored_row.signing_key_encrypted ≡ wallet.signing_key_encrypted)
    × ((hash : List ℕ) → decrypt_and_sign registry wallet hash ≡ ok (key ++ hash))
unfolding is_utf8 encode decode
decrypt_and_sign-fresh_row_example =
    decrypt_and_sign-fresh_row registry (λ n. refl) (λ n. refl) (λ n. refl) 7 (text "a")
      (uuid_text 7 ++ text "::a") empty stored_row wallet drawn

-- A key of another length than 32 bytes is refused.
new_short : new registry (text "0f1e") ≡ err wrong_key_length
unfolding new decode
new_short = refl

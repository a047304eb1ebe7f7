-- ===== src/Checks/NodeInfoWire.antt =====
-- internal/checks/grpc.go: the decoding of a `GetNodeInfoResponse`. protowire is an argument.
pub mod Total
use chain_registry_sentinel.Base.{
  ℕ, zero, suc, Bool, ◌&&◌, Option, none, some, List, [], ◌∷◌, ◌==◌, String, length, if◌then◌else◌,
}
use chain_registry_sentinel.Checks.Error.{GoError, errorf}
use chain_registry_sentinel.Github.Outcome.{Outcome, ok, err}

-- The bytes of a message.
abbrev pub Data : Type 0
Data = List ℕ

-- `data[n:]`.
abbrev pub drop : ℕ → Data → Data
drop zero data' = data'
drop (suc n) [] = []
drop (suc n) (b ∷ data') = drop n data'

pub record Tag : Type 0 where
  pub number : ℕ
  pub wire_type : ℕ
  pub size : ℕ

-- The functions of protowire. A negative length is the error that `ParseError` makes of it.
pub record Wire : Type 0 where
  pub consume_tag : Data → Outcome Tag
  pub consume_bytes : Data → Outcome (Data × ℕ)
  pub consume_string : Data → Outcome (String × ℕ)
  pub consume_field_value : ℕ → ℕ → Data → Outcome ℕ

-- `protowire.BytesType`.
abbrev pub bytes_type : ℕ
bytes_type = 2

-- One turn of a loop: what it returns, or the data that it goes on with. `none` stands for a loop that
-- has not come to its end.
pub data Turn : Type 0 where
  returns : Option (Outcome String) → Turn
  goes_on : Data → Turn

unfoldable pub skip_value : Data → Outcome ℕ → Turn
skip_value rest (ok n) = goes_on (drop n rest)
skip_value rest (err e) = returns (some (err e))

abbrev pub after_turn : Turn → (Data → Option (Outcome String)) → Option (Outcome String)
after_turn (returns o) next = o
after_turn (goes_on d) next = next d

module _ (W : Wire) where
  -- The two loops differ in the field's number, in what they make of its value, and in the error behind
  -- the last field.
  module _ (wanted : ℕ) (read : Data → Option (Outcome String)) (missing : String) where
    unfoldable pub turn : Data → Outcome Tag → Turn
    unfolding skip_value
    turn d (err e) = returns (some (err e))
    turn d (ok tag) =
        let rest = drop tag.size d in
        if tag.number == wanted && tag.wire_type == bytes_type
        then returns (read rest)
        else skip_value rest (W.consume_field_value tag.number tag.wire_type rest)

    unfoldable pub decode_loop : ℕ → Data → Option (Outcome String)
    unfolding errorf
    decode_loop fuel [] = some (err (errorf missing))
    decode_loop zero (b ∷ d) = none
    decode_loop (suc fuel) (b ∷ d) =
        after_turn (turn (b ∷ d) (W.consume_tag (b ∷ d))) (λ rest. decode_loop fuel rest)

  abbrev pub string_value : Outcome (String × ℕ) → Option (Outcome String)
  string_value (ok (s, n)) = some (ok s)
  string_value (err e) = some (err e)

  -- Each turn takes a byte at least, so there are no more turns than bytes.
  unfoldable pub decode_default_node_info_network : Data → Option (Outcome String)
  decode_default_node_info_network d =
      decode_loop 4 (λ v. string_value (W.consume_string v))
        "network field not found in DefaultNodeInfo" (length d) d

  abbrev pub embedded_value : Outcome (Data × ℕ) → Option (Outcome String)
  embedded_value (ok (embedded, n)) = decode_default_node_info_network embedded
  embedded_value (err e) = some (err e)

  unfoldable pub decode_get_node_info_network : Data → Option (Outcome String)
  decode_get_node_info_network d =
      decode_loop 1 (λ v. embedded_value (W.consume_bytes v))
        "default_node_info not found in GetNodeInfoResponse" (length d) d
